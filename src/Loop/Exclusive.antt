-- ===== src/Loop/Exclusive.antt =====
-- The invariant by which one thread at most runs the loop, and that every step keeps it.
use uvexec.Base.{
  ℕ, ◌≡◌, refl, subst, inl, inr, Bool, true, false, some, List, ◌∷◌, arith, if◌then◌else◌,
  Bool-cases,
}
use uvexec.IntrusiveList.Chain.{remove}
use uvexec.Loop.{
  Place, checking, entering, entered, executing, returning, leaving, queued, sleeping, rejoining,
  erasing, returned, Loop, go, put, resume, finished, acquire_if_not_finished, run_or_pass,
  wakeup_receiver, wakeup_next, acquire, proceed, advance,
}

-- The thread holds the mutex.
abbrev pub holds : Place → Bool
holds entered = true
holds leaving = true
holds erasing = true
holds _ = false

-- The thread set `Running` and has not reset it.
abbrev pub runs : Place → Bool
runs executing = true
runs returning = true
runs leaving = true
runs _ = false

pub record IsExclusive (l : Loop) : Type 0 where
  pub held : (t : ℕ) → holds (l.place t) ≡ true → l.locked ≡ true
  pub alone : (t u : ℕ) → holds (l.place t) ≡ true → holds (l.place u) ≡ true → t ≡ u
  pub set : (t : ℕ) → runs (l.place t) ≡ true → l.running ≡ true
  pub single : (t u : ℕ) → runs (l.place t) ≡ true → runs (l.place u) ≡ true → t ≡ u

module _ (l : Loop) (x : IsExclusive l) (t : ℕ) where
  -- The thread takes the mutex and stays in uv_run's section or outside of it.
  took :
      (p : Place)
      → l.locked ≡ false
      → runs p ≡ runs (l.place t)
      → IsExclusive (record l { locked = true; place = go l t p })
  took p free same = record {
    held = λ a h. refl;
    alone = λ a b h k. ground (arith, x.held a, x.held b);
    set = λ a h. ground (arith, x.set a, x.set t);
    single = λ a b h k. ground (arith, x.single a b, x.single a t, x.single t b);
  }

  -- The thread goes on without the mutex.
  went_on :
      (p : Place) (stop : Bool)
      → holds (l.place t) ≡ holds p
      → runs p ≡ runs (l.place t)
      → IsExclusive (record l { stopping = stop; place = go l t p })
  went_on p stop still same = record {
    held = λ a h. ground (arith, x.held a, x.held t);
    alone = λ a b h k. ground (arith, x.alone a b, x.alone a t, x.alone t b);
    set = λ a h. ground (arith, x.set a, x.set t);
    single = λ a b h k. ground (arith, x.single a b, x.single a t, x.single t b);
  }

  -- The thread releases the mutex, with `Running` as it was.
  released :
      (p : Place) (rest : List ℕ) (f : ℕ → ℕ)
      → holds (l.place t) ≡ true
      → holds p ≡ false
      → runs p ≡ runs (l.place t)
      → IsExclusive (record l { locked = false; runners = rest; awakenings = f; place = go l t p })
  released p rest f had gone same = record {
    held = λ a h. absurd (ground (arith, x.alone a t));
    alone = λ a b h k. absurd (ground (arith, x.alone a t));
    set = λ a h. ground (arith, x.set a, x.set t);
    single = λ a b h k. ground (arith, x.single a b, x.single a t, x.single t b);
  }

  started :
      (a : ℕ → Bool)
      → holds (l.place t) ≡ true
      → l.running ≡ false
      → IsExclusive
          (record l { locked = false; running = true; acquired = a; place = go l t executing })
  started acq had idle = record {
    held = λ a h. absurd (ground (arith, x.alone a t));
    alone = λ a b h k. absurd (ground (arith, x.alone a t));
    set = λ a h. refl;
    single = λ a b h k. ground (arith, x.set a, x.set b);
  }

  ended :
      (p : Place) (rest : List ℕ) (f : ℕ → ℕ)
      → holds (l.place t) ≡ true
      → runs (l.place t) ≡ true
      → holds p ≡ false
      → runs p ≡ false
      → IsExclusive (record l {
        locked = false;
        running = false;
        runners = rest;
        awakenings = f;
        place = go l t p;
      })
  ended p rest f had ran gone off = record {
    held = λ a h. absurd (ground (arith, x.alone a t));
    alone = λ a b h k. absurd (ground (arith, x.alone a t));
    set = λ a h. absurd (ground (arith, x.single a t));
    single = λ a b h k. absurd (ground (arith, x.single a t));
  }

  pub acquired : (z : Loop) (p : Place) → l.place t ≡ p → acquire t l ≡ some z → IsExclusive z
  unfolding acquire
  acquired z entering e h =
      let same : record l { locked = true; place = go l t entered } ≡ z = ground arith in
      subst IsExclusive same (took entered (ground arith) (rw e refl))
  acquired z returning e h =
      let same : record l { locked = true; place = go l t leaving } ≡ z = ground arith in
      subst IsExclusive same (took leaving (ground arith) (rw e refl))
  acquired z rejoining e h =
      let same : record l { locked = true; place = go l t erasing } ≡ z = ground arith in
      subst IsExclusive same (took erasing (ground arith) (rw e refl))
  acquired z p e h = absurd (ground arith)

  ran_or_passed : l.place t ≡ entered → l.running ≡ false → IsExclusive (run_or_pass t l)
  unfolding run_or_pass
  ran_or_passed e idle = elim (Bool-cases (l.steals t)) [
    | inr runs_it ↦
        let same : record l { locked = false; running = true; place = go l t executing }
            ≡ run_or_pass t l =
          ground arith in
        subst IsExclusive same (started l.acquired (rw e refl) idle)
    | inl steals ↦ elim (Bool-cases (acquire_if_not_finished t l)) [
      | inl acq ↦
          let same : record l {
            locked = false;
            running = true;
            acquired = put l.acquired t true;
            place = go l t executing;
          }
              ≡ run_or_pass t l =
            ground arith in
          subst IsExclusive same (started (put l.acquired t true) (rw e refl) idle)
      | inr over ↦
          let w = wakeup_next l.runners l.awakenings in
          let same : record l {
            locked = false;
            runners = w.0;
            awakenings = w.1;
            place = go l t checking;
          }
              ≡ run_or_pass t l =
            ground arith in
          subst IsExclusive same (released checking w.0 w.1 (rw e refl) refl (rw e refl))
    ]
  ]

  pub proceeded : (z : Loop) (p : Place) → l.place t ≡ p → proceed t l ≡ some z → IsExclusive z
  unfolding proceed
  proceeded z entered e h = elim (Bool-cases l.running) [
    | inl busy ↦
        let same : record l { locked = false; runners = t ∷ l.runners; place = go l t queued } ≡ z =
          ground arith in
        subst IsExclusive same
          (released queued (t ∷ l.runners) l.awakenings (rw e refl) refl (rw e refl))
    | inr idle ↦
        let same : run_or_pass t l ≡ z = ground arith in
        subst IsExclusive same (ran_or_passed e idle)
  ]
  proceeded z leaving e h =
      let w = wakeup_next l.runners l.awakenings in
      let same : record l {
        locked = false;
        running = false;
        runners = w.0;
        awakenings = w.1;
        place = go l t (resume l t returned);
      }
          ≡ z =
        ground arith in
      subst IsExclusive same
        (ended (resume l t returned) w.0 w.1 (rw e refl) (rw e refl) (ground arith) (ground arith))
  proceeded z erasing e h =
      let same : record l {
        locked = false;
        runners = remove t l.runners;
        place = go l t (resume l t entering);
      }
          ≡ z =
        ground arith in
      subst IsExclusive same (
        released (resume l t entering) (remove t l.runners) l.awakenings (rw e refl) (ground arith)
          (rw e (ground arith)))
  proceeded z p e h = absurd (ground arith)

  pub advanced : (z : Loop) (p : Place) → l.place t ≡ p → advance t l ≡ some z → IsExclusive z
  unfolding advance
  advanced z executing e h =
      let same : record l { stopping = false; place = go l t returning } ≡ z = ground arith in
      subst IsExclusive same (went_on returning false (rw e refl) (rw e refl))
  advanced z checking e h = elim (Bool-cases (finished (l.awakenings t))) [
    | inl over ↦
        let same : record l { place = go l t returned } ≡ z = ground arith in
        subst IsExclusive same (went_on returned l.stopping (rw e refl) (rw e refl))
    | inr early ↦
        let same : record l { place = go l t entering } ≡ z = ground arith in
        subst IsExclusive same (went_on entering l.stopping (rw e refl) (rw e refl))
  ]
  advanced z queued e h =
      let same : record l { place = go l t (sleeping (l.awakenings t)) } ≡ z = ground arith in
      subst IsExclusive same
        (went_on (sleeping (l.awakenings t)) l.stopping (rw e refl) (rw e refl))
  advanced z (sleeping w) e h =
      let same : record l { place = go l t rejoining } ≡ z = ground arith in
      subst IsExclusive same (went_on rejoining l.stopping (rw e refl) (rw e refl))
  advanced z p e h = absurd (ground arith)

  finished_runner :
      (f : ℕ → ℕ) (stop : Bool) → IsExclusive (record l { awakenings = f; stopping = stop })
  finished_runner f stop = record { held = x.held; alone = x.alone; set = x.set; single = x.single }

  pub completed :
      (z : Loop) (u : ℕ) (p : Place)
      → l.place u ≡ p
      → wakeup_receiver u t l ≡ some z
      → IsExclusive z
  unfolding wakeup_receiver
  completed z u p e h =
      let f = put l.awakenings t 0 in
      let stop = if l.acquired t then true else l.stopping in
      let same : record l { awakenings = f; stopping = stop } ≡ z = done_at p e in
      subst IsExclusive same (finished_runner f stop)
    where
      done_at :
          (q : Place)
          → l.place u ≡ q
          → record l {
            awakenings = put l.awakenings t 0;
            stopping = if l.acquired t then true else l.stopping;
          }
            ≡ z
      done_at executing e' = ground arith
      done_at checking e' = ground arith
      done_at q e' = absurd (ground arith)

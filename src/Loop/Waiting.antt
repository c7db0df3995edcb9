-- ===== src/Loop/Waiting.antt =====
-- The invariant of a thread in sync_wait, and that every step keeps it.
use uvexec.Base.{
  ℕ, ◌≡◌, refl, sym, ap, subst, ◌∙◌, inl, inr, Bool, true, false, ◌||◌, some, List, [], ◌∷◌, arith,
  ◌==◌, if◌then◌else◌, Bool-cases,
}
use uvexec.IntrusiveList.Chain.{remove}
use uvexec.Loop.{
  Place, checking, entering, entered, executing, returning, leaving, queued, sleeping, rejoining,
  erasing, returned, Loop, go, put, resume, finished, acquire_if_not_finished, run_or_pass,
  wakeup_receiver, wakeup_next, acquire, proceed, advance,
}

-- WakeupNext leaves a finished runner finished, and an unfinished one unfinished.
pub wakeup_next-finished :
    (rs : List ℕ) (f : ℕ → ℕ) (t : ℕ) → finished ((wakeup_next rs f).1 t) ≡ finished (f t)
unfolding wakeup_next
wakeup_next-finished [] f t = refl
wakeup_next-finished (r ∷ rs) f t = elim (Bool-cases (finished (f r))) [
  | inl over ↦ rw (wakeup_next, over) (wakeup_next-finished rs f t)
  | inr live ↦ rw (wakeup_next, live) (ground arith)
]

abbrev pub is_returned : Place → Bool
is_returned returned = true
is_returned _ = false

abbrev pub is_executing : Place → Bool
is_executing executing = true
is_executing _ = false

-- Of a thread in sync_wait: its runner is finished only if its sender is done; it only returns with a finished runner, and
-- only runs the loop with a runner that acquired it.
pub record IsWaiting (t : ℕ) (done : Bool) (l : Loop) : Type 0 where
  pub waits : l.steals t ≡ true
  pub unfinished : done ≡ false → finished (l.awakenings t) ≡ false
  pub over : is_returned (l.place t) ≡ true → finished (l.awakenings t) ≡ true
  pub mine : is_executing (l.place t) ≡ true → l.acquired t ≡ true

-- A thread `u` goes to the place `p`.
goes :
    (t u : ℕ) (done : Bool) (l m : Loop) (p : Place)
    → IsWaiting t done l
    → m.place ≡ go l u p
    → m.steals ≡ l.steals
    → finished (m.awakenings t) ≡ finished (l.awakenings t)
    → (l.acquired t ≡ true → m.acquired t ≡ true)
    → ((t == u) ≡ true → is_returned p ≡ true → finished (m.awakenings t) ≡ true)
    → ((t == u) ≡ true → is_executing p ≡ true → m.acquired t ≡ true)
    → IsWaiting t done m
goes t u done l m p x e s f a r g =
    let at : m.place t ≡ go l u p t = ap (λ q. q t) e in
    record {
      waits = ap (λ q. q t) s ∙ x.waits;
      unfinished = λ d. f ∙ x.unfinished d;
      over = λ h. elim (Bool-cases (t == u)) [
        | inl same ↦ r same (ap is_returned (sym (at ∙ rw same refl)) ∙ h)
        | inr other ↦ f ∙ (x.over (ap is_returned (sym (at ∙ rw other refl)) ∙ h))
      ];
      mine = λ h. elim (Bool-cases (t == u)) [
        | inl same ↦ g same (ap is_executing (sym (at ∙ rw same refl)) ∙ h)
        | inr other ↦ a (x.mine (ap is_executing (sym (at ∙ rw other refl)) ∙ h))
      ];
    }

module _ (t u : ℕ) (done : Bool) (l z : Loop) (x : IsWaiting t done l) where
  -- To a place that is neither the end nor uv_run, with the runners as they are.
  passes :
      (p : Place) (locked stopping : Bool) (rest : List ℕ)
      → is_returned p ≡ false
      → is_executing p ≡ false
      → record l { locked = locked; stopping = stopping; runners = rest; place = go l u p } ≡ z
      → IsWaiting t done z
  passes p locked stopping rest r e same = subst (IsWaiting t done) same (
      goes t u done l _ p x refl refl refl (λ h. h) (λ q h. absurd (ground arith))
        (λ q h. absurd (ground arith)))

  -- To such a place, after WakeupNext.
  wakes :
      (p : Place) (running : Bool)
      → (is_returned p ≡ true → l.steals u ≡ false)
      → is_executing p ≡ false
      → record l {
        locked = false;
        running = running;
        runners = (wakeup_next l.runners l.awakenings).0;
        awakenings = (wakeup_next l.runners l.awakenings).1;
        place = go l u p;
      }
        ≡ z
      → IsWaiting t done z
  wakes p running r e same =
      let still = wakeup_next-finished l.runners l.awakenings t in
      subst (IsWaiting t done) same (
        goes t u done l _ p x refl refl still (λ h. h)
          (λ q h. absurd (let w = x.waits in let d = r h in let one : t ≡ u = ground arith in cc))
          (λ q h. absurd (ground arith)))

  pub acquired_keeps : (p : Place) → l.place u ≡ p → acquire u l ≡ some z → IsWaiting t done z
  unfolding acquire
  acquired_keeps entering e h = passes entered true l.stopping l.runners refl refl (ground arith)
  acquired_keeps returning e h = passes leaving true l.stopping l.runners refl refl (ground arith)
  acquired_keeps rejoining e h = passes erasing true l.stopping l.runners refl refl (ground arith)
  acquired_keeps p e h = absurd (ground arith)

  pub advanced_keeps : (p : Place) → l.place u ≡ p → advance u l ≡ some z → IsWaiting t done z
  unfolding advance
  advanced_keeps executing e h = passes returning l.locked false l.runners refl refl (ground arith)
  advanced_keeps checking e h = elim (Bool-cases (finished (l.awakenings u))) [
    | inl over ↦
        let same : record l { place = go l u returned } ≡ z = ground arith in
        subst (IsWaiting t done) same (
          goes t u done l _ returned x refl refl refl (λ q. q)
            (λ q r.
              let one : t ≡ u = ground arith in ap (λ v. finished (l.awakenings v)) one ∙ over)
            (λ q r. absurd (cc)))
    | inr early ↦ passes entering l.locked l.stopping l.runners refl refl (ground arith)
  ]
  advanced_keeps queued e h =
      passes (sleeping (l.awakenings u)) l.locked l.stopping l.runners refl refl (ground arith)
  advanced_keeps (sleeping w) e h =
      passes rejoining l.locked l.stopping l.runners refl refl (ground arith)
  advanced_keeps p e h = absurd (ground arith)

  -- With the mutex, and the loop not running.
  run_or_pass_keeps : run_or_pass u l ≡ z → IsWaiting t done z
  unfolding run_or_pass
  run_or_pass_keeps h = elim (Bool-cases (l.steals u)) [
    | inr plain ↦
        let same : record l { locked = false; running = true; place = go l u executing } ≡ z =
          ground arith in
        subst (IsWaiting t done) same (
          goes t u done l _ executing x refl refl refl (λ q. q) (λ q r. absurd (cc))
            (λ q r. absurd (let w = x.waits in let one : t ≡ u = ground arith in cc)))
    | inl steals ↦ elim (Bool-cases (acquire_if_not_finished u l)) [
      | inl acq ↦
          let same : record l {
            locked = false;
            running = true;
            acquired = put l.acquired u true;
            place = go l u executing;
          }
              ≡ z =
            ground arith in
          subst (IsWaiting t done) same (
            goes t u done l _ executing x refl refl refl (λ q. ground arith) (λ q r. absurd (cc))
              (λ q r. ground arith))
      | inr over ↦ wakes checking l.running (λ q. absurd (cc)) refl (ground arith)
    ]
  ]

  pub proceeded_keeps : (p : Place) → l.place u ≡ p → proceed u l ≡ some z → IsWaiting t done z
  unfolding proceed
  proceeded_keeps entered e h = elim (Bool-cases l.running) [
    | inl busy ↦ passes queued false l.stopping (u ∷ l.runners) refl refl (ground arith)
    | inr idle ↦ run_or_pass_keeps (ground arith)
  ]
  proceeded_keeps leaving e h =
      wakes (resume l u returned) false (λ q. ground arith) (ground arith) (ground arith)
  proceeded_keeps erasing e h =
      passes (resume l u entering) false l.stopping (remove u l.runners) (ground arith)
        (ground arith) (ground arith)
  proceeded_keeps p e h = absurd (ground arith)

module _ (t u v : ℕ) (done : Bool) (l z : Loop) (x : IsWaiting t done l) where
  -- The sender of `u` completes, on `v`.
  finishes :
      (stop : Bool)
      → IsWaiting t
          (done || t == u)
          (record l { awakenings = put l.awakenings u 0; stopping = stop })
  finishes stop = record {
    waits = x.waits;
    unfinished = λ d. ground (arith, x.unfinished);
    over = λ h. ground (arith, x.over);
    mine = x.mine;
  }

  pub completed_keeps : wakeup_receiver v u l ≡ some z → IsWaiting t (done || t == u) z
  unfolding wakeup_receiver
  completed_keeps h = subst (IsWaiting t (done || t == u)) (done_at (l.place v) refl) (finishes _)
    where
      done_at :
          (q : Place)
          → l.place v ≡ q
          → record l {
            awakenings = put l.awakenings u 0;
            stopping = if l.acquired u then true else l.stopping;
          }
            ≡ z
      done_at executing e = ground arith
      done_at checking e = ground arith
      done_at q e = absurd (ground arith)

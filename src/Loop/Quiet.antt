-- ===== src/Loop/Quiet.antt =====
-- A loop on which the only sender of a sync_wait has completed: no event changes that, or asks the loop to stop.
use uvexec.Base.{
  ℕ, ◌≡◌, refl, sym, ap, subst, ◌∙◌, inl, inr, true, false, none, some, List, [], ◌∷◌, arith,
  Bool-cases, All, run, run-keeps,
}
use uvexec.Loop.{
  Place, checking, entering, entered, executing, leaving, returning, queued, sleeping, rejoining,
  erasing, returned, Loop, go, resume, finished, acquire_if_not_finished, run_or_pass, wakeup_next,
  wakeup_receiver, acquire, proceed, advance, Event, acquires, proceeds, advances, completes, step,
}
use uvexec.IntrusiveList.Chain.{remove}
use uvexec.Loop.Waiting.{wakeup_next-finished}

-- Thread `t` is in sync_wait, the only one, and its sender has completed; nobody has asked the loop to stop.
pub record IsStale (t : ℕ) (l : Loop) : Type 0 where
  pub steals : l.steals t ≡ true
  pub alone : (u : ℕ) → l.steals u ≡ true → u ≡ t
  pub over : l.awakenings t ≡ 0
  pub quiet : l.stopping ≡ false

module _ (t : ℕ) (l : Loop) (s : IsStale t l) where
  -- WakeupNext does not wake up a runner that is finished.
  woken : (wakeup_next l.runners l.awakenings).1 t ≡ 0
  woken = let still = wakeup_next-finished l.runners l.awakenings t in ground (arith, s.over)

  kept :
      (m y : Loop)
      → m.steals ≡ l.steals
      → m.awakenings t ≡ 0
      → m.stopping ≡ false
      → m ≡ y
      → IsStale t y
  kept m y e o q same = subst (IsStale t) same (record {
    steals = ap (λ f. f t) e ∙ s.steals;
    alone = λ u h. s.alone u (sym (ap (λ f. f u) e) ∙ h);
    over = o;
    quiet = q;
  })

  acquire-IsStale :
      (u : ℕ) (y : Loop) (p : Place) → l.place u ≡ p → acquire u l ≡ some y → IsStale t y
  unfolding acquire
  acquire-IsStale u y entering e h =
      kept (record l { locked = true; place = go l u entered }) y refl s.over s.quiet (ground arith)
  acquire-IsStale u y returning e h =
      kept (record l { locked = true; place = go l u leaving }) y refl s.over s.quiet (ground arith)
  acquire-IsStale u y rejoining e h =
      kept (record l { locked = true; place = go l u erasing }) y refl s.over s.quiet (ground arith)
  acquire-IsStale u y p e h = absurd (ground arith)

  run_or_pass-IsStale : (u : ℕ) → IsStale t (run_or_pass u l)
  unfolding run_or_pass
  run_or_pass-IsStale u = elim (Bool-cases (l.steals u)) [
    | inr plain ↦ rw plain (kept _ _ refl s.over s.quiet refl)
    | inl steals ↦ elim (Bool-cases (acquire_if_not_finished u l)) [
      | inl acq ↦ rw (steals, acq) (kept _ _ refl s.over s.quiet refl)
      | inr over ↦ rw (steals, over) (kept _ _ refl woken s.quiet refl)
    ]
  ]

  proceed-IsStale :
      (u : ℕ) (y : Loop) (p : Place) → l.place u ≡ p → proceed u l ≡ some y → IsStale t y
  unfolding proceed
  proceed-IsStale u y entered e h = elim (Bool-cases l.running) [
    | inl busy ↦
        kept (record l { locked = false; runners = u ∷ l.runners; place = go l u queued }) y refl
          s.over s.quiet (ground arith)
    | inr idle ↦
        let same : run_or_pass u l ≡ y = ground arith in
        subst (IsStale t) same (run_or_pass-IsStale u)
  ]
  proceed-IsStale u y leaving e h =
      let (rest, awakenings) = wakeup_next l.runners l.awakenings in
      kept
        (record l {
          locked = false;
          running = false;
          runners = rest;
          awakenings = awakenings;
          place = go l u (resume l u returned);
        })
        y refl woken s.quiet (ground arith)
  proceed-IsStale u y erasing e h =
      kept
        (record l {
          locked = false;
          runners = remove u l.runners;
          place = go l u (resume l u entering);
        })
        y refl s.over s.quiet (ground arith)
  proceed-IsStale u y p e h = absurd (ground arith)

  advance-IsStale :
      (u : ℕ) (y : Loop) (p : Place) → l.place u ≡ p → advance u l ≡ some y → IsStale t y
  unfolding advance
  advance-IsStale u y executing e h =
      kept (record l { stopping = false; place = go l u returning }) y refl s.over refl
        (ground arith)
  advance-IsStale u y checking e h = elim (Bool-cases (finished (l.awakenings u))) [
    | inl over ↦ kept (record l { place = go l u returned }) y refl s.over s.quiet (ground arith)
    | inr early ↦ kept (record l { place = go l u entering }) y refl s.over s.quiet (ground arith)
  ]
  advance-IsStale u y queued e h =
      kept (record l { place = go l u (sleeping (l.awakenings u)) }) y refl s.over s.quiet
        (ground arith)
  advance-IsStale u y (sleeping w) e h =
      kept (record l { place = go l u rejoining }) y refl s.over s.quiet (ground arith)
  advance-IsStale u y p e h = absurd (ground arith)

  -- No sender of a sync_wait can complete.
  pub none_completes : (u v : ℕ) → step (completes u v) l ≡ none
  unfolding step wakeup_receiver
  none_completes u v = elim (Bool-cases (l.steals v)) [
    | inl waits ↦ let e : v ≡ t = s.alone v waits in rw (e, s.steals, s.over) refl
    | inr runs ↦ rw runs refl
  ]

  step-IsStale : (e : Event) (y : Loop) → step e l ≡ some y → IsStale t y
  unfolding step
  step-IsStale (acquires u) y h = acquire-IsStale u y (l.place u) refl h
  step-IsStale (proceeds u) y h = proceed-IsStale u y (l.place u) refl h
  step-IsStale (advances u) y h = advance-IsStale u y (l.place u) refl h
  step-IsStale (completes u v) y h =
      let no : step (completes u v) l ≡ none = none_completes u v in absurd (cc)

pub run-IsStale :
    (t : ℕ) (es : List Event) (l y : Loop) → IsStale t l → run step es l ≡ some y → IsStale t y
run-IsStale t es l y s h =
    run-keeps step (λ e. Unit {0}) (IsStale t) (λ e m n x u r. step-IsStale t m x e n r) es l y s
      (every es) h
  where
    every : (fs : List Event) → All (λ e. Unit {0}) fs
    every [] = tt
    every (f ∷ fs) = (tt, every fs)

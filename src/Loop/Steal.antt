-- ===== src/Loop/Steal.antt =====
-- A thread in sync_wait returns from RunnerSteal when the sender has completed, and not before.
use uvexec.Base.{
  ℕ, ◌≡◌, refl, subst, inl, inr, Bool, true, false, ◌||◌, some, List, [], ◌∷◌, arith, ◌==◌,
  Bool-cases, run, and_then-eq-some, or_assoc, or_false,
}
use uvexec.Loop.{
  executing, returned, Loop, new, finished, wakeup_receiver, Event, acquires, proceeds, advances,
  completes, step,
}
use uvexec.Loop.Waiting.{
  IsWaiting, acquired_keeps, advanced_keeps, proceeded_keeps, completed_keeps,
}

-- Whether the sender of thread `t` completes among the events.
unfoldable pub completed_in : List Event → ℕ → Bool
completed_in [] t = false
completed_in (completes v u ∷ es) t = t == u || completed_in es t
completed_in (e ∷ es) t = completed_in es t

run-IsWaiting :
    (es : List Event) (t : ℕ) (done : Bool) (l z : Loop)
    → IsWaiting t done l
    → run step es l ≡ some z
    → IsWaiting t (done || completed_in es t) z
unfolding step completed_in
run-IsWaiting [] t done l z x h =
    let same : l ≡ z = ground arith in
    subst (λ m. IsWaiting t (done || false) m) same (rw (or_false done) x)
run-IsWaiting (acquires u ∷ es) t done l z x h =
    let (l', first, rest) = and_then-eq-some (step (acquires u) l) (run step es) h in
    run-IsWaiting es t done l' z (acquired_keeps t u done l l' x (l.place u) refl first) rest
run-IsWaiting (proceeds u ∷ es) t done l z x h =
    let (l', first, rest) = and_then-eq-some (step (proceeds u) l) (run step es) h in
    run-IsWaiting es t done l' z (proceeded_keeps t u done l l' x (l.place u) refl first) rest
run-IsWaiting (advances u ∷ es) t done l z x h =
    let (l', first, rest) = and_then-eq-some (step (advances u) l) (run step es) h in
    run-IsWaiting es t done l' z (advanced_keeps t u done l l' x (l.place u) refl first) rest
run-IsWaiting (completes v u ∷ es) t done l z x h =
    let (l', first, rest) = and_then-eq-some (step (completes v u) l) (run step es) h in
    subst (λ b. IsWaiting t b z) (or_assoc done (t == u) (completed_in es t))
      (run-IsWaiting es t (done || t == u) l' z (completed_keeps t u v done l l' x first) rest)

new-IsWaiting : (steals : ℕ → Bool) (t : ℕ) → steals t ≡ true → IsWaiting t false (new steals)
new-IsWaiting steals t w = record {
  waits = w;
  unfinished = λ d. refl;
  over = λ h. absurd (ground arith);
  mine = λ h. absurd (ground arith);
}

-- However the threads interleave: when a thread in sync_wait returns from RunnerSteal, its sender has completed.
pub steal_returns :
    (steals : ℕ → Bool) (es : List Event) (z : Loop) (t : ℕ)
    → steals t ≡ true
    → run step es (new steals) ≡ some z
    → z.place t ≡ returned
    → completed_in es t ≡ true
steal_returns steals es z t w h p =
    let x = run-IsWaiting es t false (new steals) z (new-IsWaiting steals t w) h in
    elim (Bool-cases (completed_in es t)) [
      | inl seen ↦ seen
      | inr unseen ↦ let live = x.unfinished unseen in let over = x.over (rw p refl) in absurd (cc)
    ]

-- A thread in sync_wait that is in uv_run is stopped when its sender completes there, and its runner is finished.
pub steal_stops :
    (steals : ℕ → Bool) (es : List Event) (l z : Loop) (t : ℕ)
    → steals t ≡ true
    → run step es (new steals) ≡ some l
    → l.place t ≡ executing
    → step (completes t t) l ≡ some z
    → (z.stopping ≡ true) × (finished (z.awakenings t) ≡ true)
unfolding step wakeup_receiver
steal_stops steals es l z t w h p done =
    let x = run-IsWaiting es t false (new steals) l (new-IsWaiting steals t w) h in
    let acq = x.mine (rw p refl) in (ground arith, ground arith)

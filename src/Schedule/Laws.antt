-- ===== src/Schedule/Laws.antt =====
-- What a scheduled operation promises.
use uvexec.Base.{
  ◌≡◌, refl, subst, ◌⊎◌, inl, inr, Bool, true, false, some, List, [], ◌∷◌, arith, length, run,
  and_then-eq-some, Bool-cases,
}
use uvexec.Uv.{set_stopped}
use uvexec.Schedule.{ScheduleOpState, connect, start, apply, Event, requests, applies, step}

-- The operation waits in the loop's list and its receiver is not completed, or it left the list and its receiver is
-- completed once, and stopped only if that was requested.
abbrev pub IsDue : ScheduleOpState → Type 0
IsDue op =
    (op.queued ≡ true) × (op.completions ≡ [])
    ⊎ (op.queued ≡ false)
      × (length op.completions ≡ 1)
      × (op.completions ≡ set_stopped ∷ [] → op.requested ≡ true)

step-IsDue : (e : Event) (op t : ScheduleOpState) → IsDue op → step e op ≡ some t → IsDue t
unfolding step
step-IsDue requests op t (inl (q, c)) h =
    let same : record op { requested = true } ≡ t = ground arith in subst IsDue same (inl (q, c))
step-IsDue requests op t (inr (q, c, s)) h =
    let same : record op { requested = true } ≡ t = ground arith in
    subst IsDue same (inr (q, c, λ w. refl))
step-IsDue applies op t (inl (q, c)) h =
    let same : apply (record op { queued = false }) ≡ t = ground arith in
    subst IsDue same (inr (applied op c))
  where
    applied :
        (o : ScheduleOpState)
        → o.completions ≡ []
        → ((apply (record o { queued = false })).queued ≡ false)
          × (length (apply (record o { queued = false })).completions ≡ 1)
          × ((apply (record o { queued = false })).completions ≡ set_stopped ∷ []
              → o.requested ≡ true)
    applied o e = elim (Bool-cases o.requested) [
      | inl asked ↦ (refl, rw e refl, λ w. asked)
      | inr quiet ↦ (refl, rw e refl, rw quiet (λ w. absurd (cc)))
    ]
step-IsDue applies op t (inr (q, c, s)) h = absurd (ground arith)

-- Whatever happens to a started `TScheduleOpState`: it waits in the loop's list and its receiver is not completed, or
-- it left the list and its receiver is completed once, and stopped only if that was requested.
pub schedule-IsDue :
    (r : Bool) (es : List Event) (t : ScheduleOpState)
    → run step es (start (connect r)) ≡ some t
    → IsDue t
unfolding start connect
schedule-IsDue r es t h = run-IsDue es (start (connect r)) t (inl (refl, refl)) h
  where
    run-IsDue :
        (fs : List Event) (op u : ScheduleOpState) → IsDue op → run step fs op ≡ some u → IsDue u
    run-IsDue [] op u d g = let same : op ≡ u = ground arith in subst IsDue same d
    run-IsDue (e ∷ fs) op u d g =
        let (op', first, later) = and_then-eq-some (step e op) (run step fs) g in
        run-IsDue fs op' u (step-IsDue e op op' d first) later

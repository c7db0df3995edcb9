-- ===== src/Transfer/Laws.antt =====
-- What holds of every read and receive operation, by its phases.
use uvexec.Base.{
  ℕ, ◌≤◌, ◌<◌, ◌≡◌, refl, sym, ap, ◌∙◌, ◌≢◌, Bool, true, false, some, List, [], ◌∷◌, arith, pos,
  length, All, run, map_state, map_state-eq-some, run-map_state,
}
use uvexec.Uv.{is_error, Signal}
use uvexec.StopOperation.{StopOperation}
use uvexec.Transfer.{
  Event, begins, requests, stops, Phase, idle, rejected, armed, stopping, stopped, done, move,
  begin, completions, reading, stop_op, Transfer,
}

-- The receiver is completed at most once, and not while libuv still reads; the stop operation is in the
-- loop's list at most once; the operation is only stopped if that was requested.
pub record IsSafe (c : List (Signal ℕ)) (reading : Bool) (s : StopOperation) : Type 0 where
  pub completed_once : length c ≤ 1
  pub quiet : c ≢ [] → reading ≡ false
  pub scheduled_once : s.scheduled ≤ 1
  pub scheduled_reading : 0 < s.scheduled → (c ≡ []) × (reading ≡ true)

module _ {X : Type 0} where
  phase-IsSafe : (p : Phase X) → IsSafe (completions p) (reading p) (stop_op p)
  unfolding stop_op
  phase-IsSafe (idle r) = ground arith
  phase-IsSafe (rejected e r) = ground arith
  phase-IsSafe (armed x) = ground arith
  phase-IsSafe (stopping x) = ground arith
  phase-IsSafe (stopped x) = ground arith
  phase-IsSafe (done x s r) = ground arith

module _ (o : Transfer) where
  open o use {State, Arrival, Kept}

  -- Events that bring an operation to its completion.
  remaining : Phase Kept → List (Event Arrival)
  remaining (idle r) = requests ∷ begins (pos 0) ∷ stops ∷ []
  remaining (armed x) = requests ∷ stops ∷ []
  remaining (stopping x) = stops ∷ []
  remaining _ = []

  last : Phase Kept → Phase Kept
  last (idle r) = stopped o.initial
  last (armed x) = stopped x
  last (stopping x) = stopped x
  last p = p

  remaining-Sane : (p : Phase Kept) → All o.Sane (remaining p)
  unfolding remaining
  remaining-Sane (idle r) = (o.sane_request, (o.sane_begin, (o.sane_stop, tt)))
  remaining-Sane (armed x) = (o.sane_request, (o.sane_stop, tt))
  remaining-Sane (stopping x) = (o.sane_stop, tt)
  remaining-Sane p = tt

  run-remaining : (p : Phase Kept) → run (move o.initial o.respond) (remaining p) p ≡ some (last p)
  unfolding remaining last move begin is_error
  run-remaining (idle r) = refl
  run-remaining (armed x) = refl
  run-remaining (stopping x) = refl
  run-remaining p = refl

  last-completed : (p : Phase Kept) → length (completions (last p)) ≡ 1
  unfolding last
  last-completed (idle r) = refl
  last-completed p = refl

  abbrev Reaches : List (Event Arrival) → Bool → State → Type 0
  Reaches es r s = run o.step es (o.at (idle r)) ≡ some s

  pub phase_of_run :
      (es : List (Event Arrival)) (r : Bool) (s : State)
      → All o.Sane es
      → Reaches es r s
      → (p : Phase Kept) × (run (move o.initial o.respond) es (idle r) ≡ some p) × (o.at p ≡ s)
  phase_of_run es r s sane h = map_state-eq-some o.at (run (move o.initial o.respond) es (idle r)) (
      sym (run-map_state o.step (move o.initial o.respond) o.at o.Sane o.step-move es (idle r) sane)
      ∙ h)

  pub run-IsSafe :
      (es : List (Event Arrival)) (r : Bool) (s : State)
      → All o.Sane es
      → Reaches es r s
      → IsSafe (o.completions_of s) (o.reading_of s) (o.stop_op_of s)
  run-IsSafe es r s sane h =
      let (p, _, e) = phase_of_run es r s sane h in
      rw (← e, o.completions-at p, o.reading-at p, o.stop_op-at p) (phase-IsSafe p)

  abbrev pub CanFinish : State → Type 0
  CanFinish s =
      (fs : List (Event Arrival)) × (t : State) × All o.Sane fs
      × (run o.step fs s ≡ some t)
      × (length (o.completions_of t) ≡ 1)

  -- However the run went, the operation can still be completed, by a stop request at the latest.
  pub run-CanFinish :
      (es : List (Event Arrival)) (r : Bool) (s : State)
      → All o.Sane es
      → Reaches es r s
      → CanFinish s
  run-CanFinish es r s sane h =
      let (p, _, e) = phase_of_run es r s sane h in
      rw (← e) (
        remaining p,
        o.at (last p),
        remaining-Sane p,
        run-map_state o.step (move o.initial o.respond) o.at o.Sane o.step-move (remaining p) p
              (remaining-Sane p)
            ∙ ap (map_state o.at) (run-remaining p),
        rw (o.completions-at (last p)) (last-completed p),
      )

-- ===== src/AsyncValue/Finish.antt =====
-- The async_value operation can always be completed.
use uvexec.Base.{◌≤◌, ◌≡◌, refl, ◌∙◌, Bool, true, false, some, List, [], ◌∷◌, arith, length, run}
use uvexec.Scope.{value, stopped}
use uvexec.AsyncValue.{
  Stage, waiting, inner_runs, body_runs, dropping, destroying, finished, swallowed, terminated,
  AsyncValueOpState, Types, connect, start, complete, complete_inner, reset_value, reset_callback,
  complete_drop, Event, starts, inner, body, drops, resets, step,
}
use uvexec.AsyncValue.Invariant.{is_finished}
use uvexec.AsyncValue.Laws.{nothrow, run-IsOwned, async_value-IsOwned}

-- An exception ended the operation without a completion.
abbrev pub gave_up : Stage → Bool
gave_up swallowed = true
gave_up terminated = true
gave_up _ = false

module _ (types : Types) where
  -- Events that bring an operation to its completion.
  remaining : Stage → List Event
  remaining waiting = starts ∷ inner stopped nothrow ∷ []
  remaining inner_runs = inner stopped nothrow ∷ []
  remaining body_runs = body stopped ∷ drops (value 0) ∷ resets ∷ []
  remaining (dropping r) = drops (value 0) ∷ resets ∷ []
  remaining (destroying r) = resets ∷ []
  remaining _ = []

  last : Stage → AsyncValueOpState → AsyncValueOpState
  last waiting op = complete stopped (start op)
  last inner_runs op = complete stopped op
  last body_runs op =
      reset_callback types stopped
        (reset_value types stopped (record op { stage = dropping stopped }))
  last (dropping r) op = reset_callback types r (reset_value types r op)
  last (destroying r) op = reset_callback types r op
  last _ op = op

  run-remaining :
      (s : Stage) (op : AsyncValueOpState)
      → op.stage ≡ s
      → gave_up s ≡ false
      → (run (step types) (remaining s) op ≡ some (last s op))
        × (is_finished (last s op).stage ≡ true)
  unfolding remaining last step start complete_inner complete_drop reset_callback reset_value
  run-remaining waiting op e ok = (rw e refl, refl)
  run-remaining inner_runs op e ok = (rw e refl, refl)
  run-remaining body_runs op e ok = (rw e refl, refl)
  run-remaining (dropping r) op e ok = (rw e refl, refl)
  run-remaining (destroying r) op e ok = (rw e refl, refl)
  run-remaining finished op e ok = (refl, rw e refl)
  run-remaining swallowed op e ok = absurd (cc)
  run-remaining terminated op e ok = absurd (cc)

  few_remaining : (s : Stage) → length (remaining s) ≤ 3
  unfolding remaining
  few_remaining waiting = ground arith
  few_remaining inner_runs = ground arith
  few_remaining body_runs = ground arith
  few_remaining (dropping r) = ground arith
  few_remaining (destroying r) = ground arith
  few_remaining s = ground arith

  -- However a TAsyncValueOpState got where it is: unless an exception ended it without a completion, at most three events
  -- can follow after which its receiver was completed exactly once.
  pub async_value_finishes :
      (es : List Event) (t : AsyncValueOpState)
      → run (step types) es connect ≡ some t
      → gave_up t.stage ≡ false
      → (fs : List Event) × (z : AsyncValueOpState) × (length fs ≤ 3)
        × (run (step types) fs t ≡ some z)
        × (length z.completions ≡ 1)
  async_value_finishes es t h ok =
      let (ran, ended) = run-remaining t.stage t refl ok in
      let x =
        run-IsOwned types (remaining t.stage) t (last t.stage t) (async_value-IsOwned types es t h)
          ran in
      (remaining t.stage, last t.stage t, few_remaining t.stage, ran, x.completed ∙ rw ended refl)

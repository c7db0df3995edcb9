-- ===== src/AsyncValue/Steps.antt =====
-- Every step of the async_value operation keeps the invariant.
use uvexec.Base.{
  suc, ◌+◌, ◌≡◌, refl, ap, subst, ◌∙◌, inl, inr, true, false, ◌&&◌, some, List, ◌∷◌, arith,
  Bool-cases, length,
}
use uvexec.Scope.{Result, value, failed, threw, stopped}
use uvexec.AsyncValue.{
  Stage, waiting, inner_runs, body_runs, dropping, destroying, finished, swallowed, terminated,
  AsyncValueOpState, Types, Throws, start, complete, stop_callback, emplace_callback,
  catch_exception, set_value, complete_inner, reset_callback, complete_drop, Event, starts, inner,
  body, drops, resets, requests, step,
}
use uvexec.AsyncValue.Invariant.{bit, early, is_destroying, is_finished, IsOwned, requested-IsOwned}
use uvexec.AsyncValue.Transitions.{
  first_stage, constructed_value, later_stage, value_reset, callback_reset,
}

module _ (types : Types) where
  -- The value and the callback are there, and the body runs, or an exception was caught.
  settled : (s : Stage) (c : List Result) → AsyncValueOpState → AsyncValueOpState
  settled s c op = record op {
    stage = s;
    completions = c;
    value_engaged = true;
    callback_engaged = true;
    constructed = op.constructed + 1;
    value_stops = bit (op.requested && types.is_value_stop_source);
  }

  settled-IsOwned :
      (op : AsyncValueOpState) (s : Stage) (c : List Result)
      → IsOwned types op
      → op.stage ≡ inner_runs
      → early s ≡ false
      → is_destroying s ≡ false
      → length c ≡ bit (is_finished s)
      → IsOwned types (settled s c op)
  unfolding settled
  settled-IsOwned op s c x e later d counted =
      constructed_value types op s c (bit (op.requested && types.is_value_stop_source)) x
        (rw e refl) later d counted refl

  inner_value :
      (op t : AsyncValueOpState) (u : Throws)
      → IsOwned types op
      → op.stage ≡ inner_runs
      → set_value types u op ≡ t
      → IsOwned types t
  unfolding set_value emplace_callback stop_callback catch_exception settled
  inner_value op t u x e h =
      let (none_yet, off, unstopped) = x.at_first (rw e refl) in
      elim (Bool-cases u.constructor) [
        | inl c ↦
            let same : record op { stage = terminated; completions = op.completions } ≡ t =
              ground arith in
            subst (IsOwned types) same (
              first_stage types op terminated op.completions x (rw e refl) refl refl
                (x.completed ∙ rw e refl))
        | inr c ↦ elim (Bool-cases u.body) [
          | inr b ↦
              let same : settled body_runs op.completions op ≡ t = ground arith in
              subst (IsOwned types) same (
                settled-IsOwned op body_runs op.completions x e refl refl (x.completed ∙ rw e refl))
          | inl b ↦ elim (Bool-cases types.fn_noexcept) [
            | inl n ↦
                let same : settled swallowed op.completions op ≡ t = ground arith in
                subst (IsOwned types) same (
                  settled-IsOwned op swallowed op.completions x e refl refl
                    (x.completed ∙ rw e refl))
            | inr n ↦
                let same : settled finished (threw ∷ op.completions) op ≡ t = ground arith in
                subst (IsOwned types) same (
                  settled-IsOwned op finished (threw ∷ op.completions) x e refl refl
                    (ap suc (x.completed ∙ rw e refl)))
          ]
        ]
      ]

  completes_at :
      (op : AsyncValueOpState) (r : Result)
      → IsOwned types op
      → op.stage ≡ inner_runs
      → IsOwned types (complete r op)
  completes_at op r x e =
      first_stage types op finished (r ∷ op.completions) x (rw e refl) refl refl
        (ap suc (x.completed ∙ rw e refl))

  inner_at :
      (op t : AsyncValueOpState) (r : Result) (u : Throws)
      → IsOwned types op
      → op.stage ≡ inner_runs
      → complete_inner types r u op ≡ t
      → IsOwned types t
  unfolding complete_inner
  inner_at op t (value n) u x e h = inner_value op t u x e h
  inner_at op t (failed d) u x e h = subst (IsOwned types) h (completes_at op (failed d) x e)
  inner_at op t threw u x e h = subst (IsOwned types) h (completes_at op threw x e)
  inner_at op t stopped u x e h = subst (IsOwned types) h (completes_at op stopped x e)

  drop_at :
      (op t : AsyncValueOpState) (d r : Result)
      → IsOwned types op
      → op.stage ≡ dropping r
      → complete_drop types d r op ≡ t
      → IsOwned types t
  unfolding complete_drop
  drop_at op t (value n) r x e h =
      subst (IsOwned types) h (value_reset types op r x (rw e refl) (rw e refl))
  drop_at op t (failed d) r x e h = subst (IsOwned types) h (
      later_stage types op finished (failed d ∷ op.completions) x (rw e refl) refl refl
        (ap suc (x.completed ∙ rw e refl)))
  drop_at op t threw r x e h = subst (IsOwned types) h (
      later_stage types op finished (threw ∷ op.completions) x (rw e refl) refl refl
        (ap suc (x.completed ∙ rw e refl)))
  drop_at op t stopped r x e h = subst (IsOwned types) h (
      later_stage types op finished (stopped ∷ op.completions) x (rw e refl) refl refl
        (ap suc (x.completed ∙ rw e refl)))

  abbrev Keeps : Event → Type 0
  Keeps e =
      (op t : AsyncValueOpState) (s : Stage)
      → IsOwned types op
      → op.stage ≡ s
      → step types e op ≡ some t
      → IsOwned types t

  starts-Keeps : Keeps starts
  unfolding step start
  starts-Keeps op t waiting x e h =
      let same : record op { stage = inner_runs; completions = op.completions } ≡ t =
        ground arith in
      subst (IsOwned types) same (
        first_stage types op inner_runs op.completions x (rw e refl) refl refl
          (x.completed ∙ rw e refl))
  starts-Keeps op t s x e h = absurd (ground arith)

  inner-Keeps : (r : Result) (u : Throws) → Keeps (inner r u)
  unfolding step
  inner-Keeps r u op t inner_runs x e h = inner_at op t r u x e (ground arith)
  inner-Keeps r u op t s x e h = absurd (ground arith)

  body-Keeps : (r : Result) → Keeps (body r)
  unfolding step
  body-Keeps r op t body_runs x e h =
      let same : record op { stage = dropping r; completions = op.completions } ≡ t =
        ground arith in
      subst (IsOwned types) same (
        later_stage types op (dropping r) op.completions x (rw e refl) refl refl
          (x.completed ∙ rw e refl))
  body-Keeps r op t s x e h = absurd (ground arith)

  drops-Keeps : (d : Result) → Keeps (drops d)
  unfolding step
  drops-Keeps d op t (dropping r) x e h = drop_at op t d r x e (ground arith)
  drops-Keeps d op t s x e h = absurd (ground arith)

  resets-Keeps : Keeps resets
  unfolding step
  resets-Keeps op t (destroying r) x e h =
      let same : reset_callback types r op ≡ t = ground arith in
      subst (IsOwned types) same (callback_reset types op r x (rw e refl) (rw e refl))
  resets-Keeps op t s x e h = absurd (ground arith)

  pub step-IsOwned :
      (e : Event) (op t : AsyncValueOpState)
      → IsOwned types op
      → step types e op ≡ some t
      → IsOwned types t
  step-IsOwned starts op t x h = starts-Keeps op t op.stage x refl h
  step-IsOwned (inner r u) op t x h = inner-Keeps r u op t op.stage x refl h
  step-IsOwned (body r) op t x h = body-Keeps r op t op.stage x refl h
  step-IsOwned (drops d) op t x h = drops-Keeps d op t op.stage x refl h
  step-IsOwned resets op t x h = resets-Keeps op t op.stage x refl h
  step-IsOwned requests op t x h = requested-IsOwned types op t x h

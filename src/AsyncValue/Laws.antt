-- ===== src/AsyncValue/Laws.antt =====
-- What holds of every async_value operation.
use uvexec.Base.{
  ℕ, ◌≡◌, refl, subst, inl, inr, true, false, some, List, [], ◌∷◌, arith, if◌then◌else◌, Bool-cases,
  run, and_then-eq-some,
}
use uvexec.AsyncValue.Invariant.{IsOwned, connect-IsOwned}
use uvexec.AsyncValue.Steps.{step-IsOwned}
use uvexec.Scope.{Result, value}
use uvexec.AsyncValue.{
  finished, swallowed, AsyncValueOpState, Types, Throws, connect, start, stop_callback,
  emplace_callback, catch_exception, set_value, complete_inner, reset_value, reset_callback,
  complete_drop, Event, starts, inner, body, drops, resets, requests, step,
}

abbrev pub nothrow : Throws
nothrow = record { constructor = false; body = false }

abbrev pub throwing : Throws
throwing = record { constructor = false; body = true }

module _ (types : Types) where
  pub run-IsOwned :
      (es : List Event) (op t : AsyncValueOpState)
      → IsOwned types op
      → run (step types) es op ≡ some t
      → IsOwned types t
  run-IsOwned [] op t x h = let same : op ≡ t = ground arith in subst (IsOwned types) same x
  run-IsOwned (e ∷ es) op t x h =
      let (op', first, rest) = and_then-eq-some (step types e op) (run (step types) es) h in
      run-IsOwned es op' t (step-IsOwned types e op op' x first) rest

  -- Whatever happens to a TAsyncValueOpState, it completes its receiver at most once, constructs the value at most once,
  -- and has destroyed it once or holds it; a stop request is passed on at most once, and for certain while the stop
  -- callback is registered, and to the value itself as long as that is alive.
  pub async_value-IsOwned :
      (es : List Event) (t : AsyncValueOpState)
      → run (step types) es connect ≡ some t
      → IsOwned types t
  async_value-IsOwned es t h = run-IsOwned es connect t (connect-IsOwned types) h

  -- Where nothing throws and drop completes with a value, the operation completes its receiver with what the body
  -- completed with, after the value was constructed and destroyed once and the stop callback was given back; if a stop
  -- was requested while the body ran, the value was asked to stop once, if it can be.
  pub course_completes :
      (n d : ℕ) (r : Result)
      → (run
            (step types)
            (starts ∷ inner (value n) nothrow ∷ body r ∷ drops (value d) ∷ resets ∷ [])
            connect
          ≡ some (record connect {
            stage = finished;
            constructed = 1;
            destroyed = 1;
            completions = r ∷ [];
          }))
        × (run
              (step types)
              (starts ∷ inner (value n) nothrow ∷ requests ∷ body r ∷ drops (value d) ∷ resets ∷ [])
              connect
            ≡ some (record connect {
              stage = finished;
              constructed = 1;
              destroyed = 1;
              requested = true;
              value_stops = if types.is_value_stop_source then 1 else 0;
              completions = r ∷ [];
            }))
  unfolding step start complete_inner complete_drop reset_callback set_value emplace_callback
      stop_callback connect reset_value
  course_completes n d r = elim (Bool-cases types.is_value_stop_source) [
    | inl b ↦ (refl, rw b refl)
    | inr b ↦ (refl, rw b refl)
  ]

  -- TDestroyer destroys the value before it gives the stop callback back: where nothing throws and drop
  -- completes with a value, a stop request that comes between the two is passed on to a `Value` that is
  -- not engaged, if the value is a stop source.
  pub stop_strays :
      (n d : ℕ) (r : Result)
      → types.is_value_stop_source ≡ true
      → run
          (step types)
          (starts ∷ inner (value n) nothrow ∷ body r ∷ drops (value d) ∷ requests ∷ resets ∷ [])
          connect
        ≡ some (record connect {
          stage = finished;
          constructed = 1;
          destroyed = 1;
          requested = true;
          stray_stops = 1;
          completions = r ∷ [];
        })
  unfolding step start complete_inner complete_drop reset_callback set_value emplace_callback
      stop_callback connect reset_value
  stop_strays n d r hears = rw hears refl

  IsSwallowed : AsyncValueOpState → Type 0
  IsSwallowed op = (op.stage ≡ swallowed) × (op.completions ≡ [])

  step-IsSwallowed :
      (e : Event) (op t : AsyncValueOpState)
      → IsSwallowed op
      → step types e op ≡ some t
      → IsSwallowed t
  unfolding step IsSwallowed stop_callback
  step-IsSwallowed starts op t x h = let s = x.0 in absurd (ground arith)
  step-IsSwallowed (inner r u) op t x h = let s = x.0 in absurd (ground arith)
  step-IsSwallowed (body r) op t x h = let s = x.0 in absurd (ground arith)
  step-IsSwallowed (drops d) op t x h = let s = x.0 in absurd (ground arith)
  step-IsSwallowed resets op t x h = let s = x.0 in absurd (ground arith)
  step-IsSwallowed requests op t x h = let s = x.0 in let c = x.1 in (ground arith, ground arith)

  run-IsSwallowed :
      (es : List Event) (op t : AsyncValueOpState)
      → IsSwallowed op
      → run (step types) es op ≡ some t
      → IsSwallowed t
  run-IsSwallowed [] op t x h = let same : op ≡ t = ground arith in subst IsSwallowed same x
  run-IsSwallowed (e ∷ es) op t x h =
      let (op', first, rest) = and_then-eq-some (step types e op) (run (step types) es) h in
      run-IsSwallowed es op' t (step-IsSwallowed e op op' x first) rest

  -- Where the function is declared noexcept but the connect of the body throws, the exception is dropped: the receiver is
  -- not completed, whatever happens later.
  pub exception_swallowed :
      (n : ℕ) (es : List Event) (t : AsyncValueOpState)
      → types.fn_noexcept ≡ true
      → run (step types) (starts ∷ inner (value n) throwing ∷ es) connect ≡ some t
      → (t.completions ≡ []) × (t.stage ≡ swallowed)
  unfolding step start complete_inner set_value emplace_callback stop_callback catch_exception
      connect IsSwallowed
  exception_swallowed n es t silent h =
      let caught : AsyncValueOpState = record connect {
        stage = swallowed;
        value_engaged = true;
        callback_engaged = true;
        constructed = 1;
      } in
      let e : set_value types throwing (start connect) ≡ caught = rw silent refl in
      let later = subst (λ op. run (step types) es op ≡ some t) e h in
      let (s, c) = run-IsSwallowed es caught t (refl, refl) later in (c, s)

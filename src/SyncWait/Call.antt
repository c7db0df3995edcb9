-- ===== src/SyncWait/Call.antt =====
-- A whole call of sync_wait (include/uvexec/execution/loop.hpp, tag_invoke(sync_wait_t, TScheduler)): the receiver, the
-- threads that wait in RunnerSteal, and what the call comes to.
use uvexec.Base.{
  ℕ, ◌≡◌, refl, sym, ap, subst, ◌∙◌, ◌⊎◌, inl, inr, Bool, true, false, Option, none, some, List, [],
  ◌∷◌, ◌==◌, if◌then◌else◌, Bool-cases, run, map_state, and_then-eq-some, map_state-eq-some,
  run-cons, when-eq-some,
}
use uvexec.Loop
use uvexec.Loop.{Loop, put, returned}
use uvexec.Loop.Steal.{completed_in, steal_returns}
use uvexec.SyncWait.{
  Error, Receiver, Outcome, new, set_value, set_error, set_stopped, unwrap, raises, returns_nothing,
  returns, to_exception, current,
}
use mathlib.Core.List.{map}

-- How a sender completes. For values: the exception that their construction in the variant throws, if it does.
pub data Completion : Type 0 where
  value : List ℕ → (thrown : Option ℕ) → Completion
  error : Error → Completion
  stopped : Completion

unfoldable pub complete : Completion → Receiver → Receiver
unfolding set_value set_error set_stopped
complete (value vs thrown) r = set_value vs thrown r
complete (error e) r = set_error e r
complete stopped r = set_stopped r

-- What a call is to come to.
abbrev pub outcome_of : Completion → Outcome
outcome_of (value vs none) = returns vs
outcome_of (value vs (some n)) = raises (current n)
outcome_of (error e) = raises (to_exception e)
outcome_of stopped = returns_nothing

-- The loop, and `dest` of each thread in sync_wait.
pub record Calls : Type 0 where
  pub loop : Loop
  pub receivers : ℕ → Receiver

abbrev pub begin : (ℕ → Bool) → Calls
begin steals = record { loop = Loop.new steals; receivers = λ t. new }

pub data Event : Type 0 where
  acquires proceeds advances : ℕ → Event
  completes : (u t : ℕ) → Completion → Event

abbrev pub of_loop : Event → Loop.Event
of_loop (acquires t) = Loop.acquires t
of_loop (proceeds t) = Loop.proceeds t
of_loop (advances t) = Loop.advances t
of_loop (completes u t c) = Loop.completes u t

abbrev pub receive : Event → (ℕ → Receiver) → ℕ → Receiver
receive (completes u t c) f = put f t (complete c (f t))
receive e f = f

unfoldable pub step : Event → Calls → Option Calls
unfolding complete Loop.step
step e s =
    map_state (λ l. record { loop = l; receivers = receive e s.receivers })
      (Loop.step (of_loop e) s.loop)

-- The call returns what UnwrapSyncWaitReceiverState makes of the variant, after RunnerSteal.
unfoldable pub sync_wait : ℕ → Calls → Option Outcome
unfolding unwrap
sync_wait t s = elim (s.loop.place t) [
  | returned ↦ some (unwrap (s.receivers t).destination)
  | _ ↦ none
]

-- The completion of the sender of thread `t`; the last, if there were several.
unfoldable pub last_completion : List Event → ℕ → Option Completion
last_completion [] t = none
last_completion (completes u v c ∷ es) t =
    let rest = last_completion es t in
    elim rest [ some d ↦ some d | none ↦ if t == v then some c else none ]
last_completion (e ∷ es) t = last_completion es t

abbrev receive_all : List Event → (ℕ → Receiver) → ℕ → Receiver
receive_all [] f = f
receive_all (e ∷ es) f = receive_all es (receive e f)

run-parts :
    (es : List Event) (s z : Calls)
    → run step es s ≡ some z
    → (run Loop.step (map of_loop es) s.loop ≡ some z.loop)
      × (z.receivers ≡ receive_all es s.receivers)
unfolding step
run-parts [] s z h =
    let e : s ≡ z = (when-eq-some true s h).1 in
    (ap (λ (y : Calls). some y.loop) e, ap (λ (y : Calls). y.receivers) (sym e))
run-parts (e ∷ es) s z h =
    let (s', first, rest) = and_then-eq-some (step e s) (run step es) h in
    let (l, moved, made) = map_state-eq-some _ (Loop.step (of_loop e) s.loop) first in
    let s'' : Calls = record { loop = l; receivers = receive e s.receivers } in
    let parts = run-parts es s'' z (subst (λ y. run step es y ≡ some z) (sym made) rest) in
    (run-cons Loop.step (of_loop e) (map of_loop es) s.loop moved parts.0, parts.1)

unwrap-complete : (c : Completion) (r : Receiver) → unwrap (complete c r).destination ≡ outcome_of c
unfolding unwrap complete
unwrap-complete (value vs none) r = refl
unwrap-complete (value vs (some n)) r = refl
unwrap-complete (error e) r = refl
unwrap-complete stopped r = refl

-- The thread's receiver after the events.
received :
    (es : List Event) (t : ℕ) (f : ℕ → Receiver)
    → ((last_completion es t ≡ none)
        × (completed_in (map of_loop es) t ≡ false)
        × (receive_all es f t ≡ f t))
      ⊎ ((c : Completion) × (last_completion es t ≡ some c)
          × (unwrap (receive_all es f t).destination ≡ outcome_of c))
unfolding last_completion completed_in
received [] t f = inl (refl, refl, refl)
received (acquires u ∷ es) t f = received es t f
received (proceeds u ∷ es) t f = received es t f
received (advances u ∷ es) t f = received es t f
received (completes u v c ∷ es) t f = elim (received es t (put f v (complete c (f v)))) [
  | inr (d, e, r) ↦ inr (d, (rw e), r)
  | inl (e, unseen, same) ↦ elim (Bool-cases (t == v)) [
    | inl this ↦ inr (c, (rw (e, this)), rw same (rw this (unwrap-complete c (f v))))
    | inr other ↦ inl ((rw (e, other)), (rw (other, unseen)), rw same (rw other))
  ]
]

returned_at :
    (p : Loop.Place) (o q : Outcome)
    → (elim p [ returned ↦ some o | _ ↦ none ]) ≡ some q
    → (p ≡ returned) × (o ≡ q)
returned_at returned o q h = (refl, (when-eq-some true o h).1)
returned_at _ o q h = absurd (cc)

sync_wait_returned :
    (t : ℕ) (z : Calls) {o : Outcome}
    → sync_wait t z ≡ some o
    → (z.loop.place t ≡ returned) × (unwrap (z.receivers t).destination ≡ o)
unfolding sync_wait
sync_wait_returned t z h = returned_at (z.loop.place t) _ _ h

-- When a call of sync_wait returns, however the threads interleave, its sender has completed, and the call comes to what
-- that completion says: it returns the values, throws the error, or returns nothing for a stop, and never finds the
-- variant without a result.
pub sync_wait_completed :
    (steals : ℕ → Bool) (es : List Event) (z : Calls) (t : ℕ) (o : Outcome)
    → steals t ≡ true
    → run step es (begin steals) ≡ some z
    → sync_wait t z ≡ some o
    → (c : Completion) × (last_completion es t ≡ some c) × (o ≡ outcome_of c)
sync_wait_completed steals es z t o w h done =
    let parts = run-parts es (begin steals) z h in
    let (back, result) = sync_wait_returned t z done in
    let seen = steal_returns steals (map of_loop es) z.loop t w parts.0 back in
    elim (received es t (λ u. new)) [
      | inl (e, unseen, same) ↦ absurd (cc)
      | inr (c, e, r) ↦
          (c, e, sym result ∙ ap (λ (g : ℕ → Receiver). unwrap (g t).destination) parts.1 ∙ r)
    ]

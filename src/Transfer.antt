-- ===== src/Transfer.antt =====
-- What a read or a receive operation is meant to be, without its fields: between `begins` and its completion
-- libuv may call back any number of times; a stop request ends it through the loop. Stream and Datagram fill
-- it with the operation states of the source.
pub mod Laws
use uvexec.Base.{
  ℕ, ◌≡◌, Bool, true, false, Option, none, some, List, [], ◌∷◌, if◌then◌else◌, pos, map_state,
}
use uvexec.Uv.{UvError, Errc, is_error, Signal, set_value, set_error, set_stopped}
use uvexec.StopOperation
use uvexec.StopOperation.{StopOperation, fresh}

pub data Event (A : Type 0) : Type 0 where
  -- the operation asks libuv to start, and gets this answer
  begins : UvError → Event A
  -- libuv calls back
  arrives : A → Event A
  requests : Event A
  -- the loop applies the stop operation that was scheduled
  stops : Event A

-- What a callback does to an operation that was not stopped: nothing, go on with a new state, or complete.
pub data Response (X : Type 0) : Type 0 where
  ignore : Response X
  continue : X → Response X
  finish : X → Signal ℕ → Response X

-- `X` is what the operation keeps between callbacks.
pub data Phase (X : Type 0) : Type 0 where
  idle : (requested : Bool) → Phase X
  rejected : (err : Errc) (requested : Bool) → Phase X
  armed : X → Phase X
  stopping : X → Phase X
  stopped : X → Phase X
  done : X → Signal ℕ → (requested : Bool) → Phase X

module _ {X : Type 0} where
  unfoldable pub answer : X → Response X → Phase X
  answer x ignore = armed x
  answer x (continue y) = armed y
  answer x (finish y s) = done y s false

  unfoldable pub begin : X → UvError → Bool → Phase X
  begin x err r = if is_error err then rejected err r else if r then stopping x else armed x

  abbrev pub waiting : Phase X → Bool
  waiting (idle r) = true
  waiting _ = false

  abbrev pub content : X → Phase X → X
  content x (armed y) = y
  content x (stopping y) = y
  content x (stopped y) = y
  content x (done y s r) = y
  content x _ = x

  -- The receiver was moved into the operation.
  abbrev pub emplaced : Phase X → Bool
  emplaced (idle r) = false
  emplaced (rejected e r) = false
  emplaced _ = true

  abbrev pub completions : Phase X → List (Signal ℕ)
  completions (rejected e r) = set_error e ∷ []
  completions (stopped x) = set_stopped ∷ []
  completions (done x s r) = s ∷ []
  completions _ = []

  -- libuv was told to read, and not to stop.
  abbrev pub reading : Phase X → Bool
  reading (armed x) = true
  reading (stopping x) = true
  reading _ = false

  unfoldable pub stop_op : Phase X → StopOperation
  stop_op (idle r) = fresh r
  stop_op (rejected e r) = fresh r
  stop_op (armed x) = StopOperation.state false false true 0
  stop_op (stopping x) = StopOperation.state true true true 1
  stop_op (stopped x) = StopOperation.state true true false 0
  stop_op (done x s r) = StopOperation.state r true false 0

module _ {A X : Type 0} (initial : X) (respond : X → A → Response X) where
  unfoldable pub move : Event A → Phase X → Option (Phase X)
  unfolding begin answer
  move (begins err) (idle r) = some (begin initial err r)
  move (arrives a) (armed x) = some (answer x (respond x a))
  move (arrives a) (stopping x) = some (stopping x)
  move requests (idle r) = some (idle true)
  move requests (rejected e r) = some (rejected e true)
  move requests (armed x) = some (stopping x)
  move requests (stopping x) = some (stopping x)
  move requests (stopped x) = some (stopped x)
  move requests (done x s r) = some (done x s true)
  move stops (stopping x) = some (stopped x)
  move _ _ = none

-- An operation state that behaves so. `Sane` is what libuv documents of its callbacks.
pub record Transfer : Type 1 where
  pub State : Type 0
  pub Arrival : Type 0
  pub Kept : Type 0
  pub Sane : Event Arrival → Type 0
  pub step : Event Arrival → State → Option State
  pub initial : Kept
  pub respond : Kept → Arrival → Response Kept
  pub at : Phase Kept → State
  pub completions_of : State → List (Signal ℕ)
  pub reading_of : State → Bool
  pub stop_op_of : State → StopOperation
  pub step-move :
      (e : Event Arrival) (p : Phase Kept)
      → Sane e
      → step e (at p) ≡ map_state at (move initial respond e p)
  pub completions-at : (p : Phase Kept) → completions_of (at p) ≡ completions p
  pub reading-at : (p : Phase Kept) → reading_of (at p) ≡ reading p
  pub stop_op-at : (p : Phase Kept) → stop_op_of (at p) ≡ stop_op p
  pub sane_begin : Sane (begins (pos 0))
  pub sane_request : Sane requests
  pub sane_stop : Sane stops

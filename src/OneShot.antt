-- ===== src/OneShot.antt =====
-- What a timer or a signal operation is meant to be, without its fields: it waits for one event of a
-- libuv handle or for a stop request, closes the handle, and completes its receiver once. Timer and
-- Signals fill it with the operation states of the source.
pub mod Laws
use uvexec.Base.{
  ℕ, ◌≡◌, Bool, true, false, Option, none, some, List, [], ◌∷◌, if◌then◌else◌, map_state,
}
use uvexec.Uv.{UvError, Errc, is_error, Signal, set_value, set_error, set_stopped}
use uvexec.Uv.Handle.{Handle, raw}
use uvexec.StopOperation
use uvexec.StopOperation.{StopOperation, fresh}

-- What libuv answers when the operation sets its handle up.
pub record Answers : Type 0 where
  pub init : UvError
  pub now : ℕ
  pub start : UvError

pub data Event : Type 0 where
  -- the operation sets its handle up
  begins : Answers → Event
  -- libuv calls back: the timer expired, the signal came
  occurs : Event
  -- some thread asks the stop token to stop
  requests : Event
  -- the loop applies the stop operation that was scheduled
  stops : Event
  -- libuv calls back: the handle is closed
  closes : Event

-- `argument` is what the handle was started with, the timeout or the signal's number.
pub data Phase : Type 0 where
  idle : (requested : Bool) → Phase
  rejected : (err : Errc) (requested : Bool) → Phase
  armed : (argument : ℕ) → Phase
  -- stopped, with the stop operation under way; `live` as long as the handle's event can still come
  stopping : (argument : ℕ) (live : Bool) → Phase
  closing_stopped : (argument : ℕ) → Phase
  closing_done : (argument : ℕ) (requested : Bool) → Phase
  stopped : (argument : ℕ) → Phase
  done : (argument : ℕ) (requested : Bool) → Phase

module _ (argument : Answers → ℕ) where
  unfoldable pub begin : Answers → Bool → Phase
  begin u requested =
      if is_error u.start
      then rejected u.start requested
      else if requested
      then stopping (argument u) true
      else armed (argument u)

  unfoldable pub move : Event → Phase → Option Phase
  unfolding begin
  move (begins u) (idle r) = some (begin u r)
  move occurs (armed a) = some (closing_done a false)
  move occurs (stopping a true) = some (stopping a false)
  move requests (idle r) = some (idle true)
  move requests (rejected e r) = some (rejected e true)
  move requests (armed a) = some (stopping a true)
  move requests (stopping a l) = some (stopping a l)
  move requests (closing_stopped a) = some (closing_stopped a)
  move requests (closing_done a r) = some (closing_done a true)
  move requests (stopped a) = some (stopped a)
  move requests (done a r) = some (done a true)
  move stops (stopping a l) = some (closing_stopped a)
  move closes (closing_stopped a) = some (stopped a)
  move closes (closing_done a r) = some (done a r)
  move _ _ = none

-- The handle was initialised: the operations of the source do not survive an error there.
abbrev pub IsSane : Event → Type 0
IsSane (begins u) = is_error u.init ≡ false
IsSane _ = Unit

-- The fields that every such operation has, in each phase.
abbrev pub queued : Phase → Bool
queued (idle r) = true
queued _ = false

-- The receiver was moved into the operation.
abbrev pub emplaced : Phase → Bool
emplaced (idle r) = false
emplaced (rejected e r) = false
emplaced _ = true

abbrev pub completions : Phase → List (Signal (Unit {0}))
completions (rejected e r) = set_error e ∷ []
completions (stopped a) = set_stopped ∷ []
completions (done a r) = set_value tt ∷ []
completions _ = []

handle_at : Bool → ℕ → ℕ → Bool → Handle
handle_at started a n closed = record {
  inited = true;
  started = started;
  argument = a;
  closes = n;
  closed = closed;
}

unfoldable pub handle : Phase → Handle
unfolding handle_at
handle (idle r) = raw
handle (rejected e r) = handle_at false 0 0 false
handle (armed a) = handle_at true a 0 false
handle (stopping a l) = handle_at l a 0 false
handle (closing_stopped a) = handle_at false a 1 false
handle (closing_done a r) = handle_at false a 1 false
handle (stopped a) = handle_at false a 1 true
handle (done a r) = handle_at false a 1 true

unfoldable pub stop_op : Phase → StopOperation
stop_op (idle r) = fresh r
stop_op (rejected e r) = fresh r
stop_op (armed a) = StopOperation.state false false true 0
stop_op (stopping a l) = StopOperation.state true true true 1
stop_op (closing_stopped a) = StopOperation.state true true true 0
stop_op (closing_done a r) = StopOperation.state r true false 0
stop_op (stopped a) = StopOperation.state true true false 0
stop_op (done a r) = StopOperation.state r true false 0

-- What an operation shows: its completions, its handle and its stop operation.
abbrev pub View : Type 0
View = List (Signal (Unit {0})) × Handle × StopOperation

-- An operation state that behaves so: its steps, and its state in each phase.
pub record OneShot : Type 1 where
  pub State : Type 0
  pub step : Event → State → Option State
  pub argument : Answers → ℕ
  pub at : Phase → State
  pub completions_of : State → List (Signal (Unit {0}))
  pub handle_of : State → Handle
  pub stop_op_of : State → StopOperation
  pub step-move :
      (e : Event) (p : Phase) → IsSane e → step e (at p) ≡ map_state at (move argument e p)
  pub completions-at : (p : Phase) → completions_of (at p) ≡ completions p
  pub handle-at : (p : Phase) → handle_of (at p) ≡ handle p
  pub stop_op-at : (p : Phase) → stop_op_of (at p) ≡ stop_op p

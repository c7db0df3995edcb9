-- ===== src/Schedule.antt =====
-- TScheduleOpState: include/uvexec/algorithms/schedule_op_state.hpp.
pub mod Laws
mod Tests
use uvexec.Base.{Bool, true, false, Option, some, List, [], ◌∷◌, if◌then◌else◌, when}
use uvexec.Uv.{Signal, set_value, set_stopped}

pub record ScheduleOpState : Type 0 where
  -- the receiver's stop token was asked to stop
  pub requested : Bool
  -- the operation is in the loop's list
  pub queued : Bool
  -- what its receiver was completed with, the latest first
  pub completions : List (Signal (Unit {0}))

-- The constructor, under a stop token.
unfoldable pub connect : Bool → ScheduleOpState
connect requested = record { requested = requested; queued = false; completions = [] }

-- `stdexec::start`
unfoldable pub start : ScheduleOpState → ScheduleOpState
start op = record op { queued = true }

unfoldable pub apply : ScheduleOpState → ScheduleOpState
apply op = record op {
  completions = (if op.requested then set_stopped else set_value tt) ∷ op.completions;
}

pub data Event : Type 0 where
  -- some thread asks the stop token to stop
  requests : Event
  -- the loop takes the operation out of its list and applies it
  applies : Event

-- What the loop and the other threads can do to the operation.
unfoldable pub step : Event → ScheduleOpState → Option ScheduleOpState
unfolding apply
step requests op = some (record op { requested = true })
step applies op = when op.queued (apply (record op { queued = false }))

-- ===== src/AsyncValue.antt =====
-- TAsyncValueOpState: include/uvexec/algorithms/async_value_op_state.hpp. The operation constructs a value from what its
-- sender completes with, runs the sender that a function makes of it, the body, and then drops and destroys the value.
pub mod Invariant
pub mod Transitions
pub mod Steps
pub mod Laws
pub mod Finish
mod Tests
use uvexec.Base.{ℕ, ◌+◌, Bool, true, false, Option, none, some, List, [], ◌∷◌, if◌then◌else◌}
use uvexec.Scope.{Result, value, failed, threw, stopped}

-- The operation state that was started last, and how far it is.
pub data Stage : Type 0 where
  waiting : Stage
  inner_runs : Stage
  -- the body, under exec::finally
  body_runs : Stage
  -- the sender of uvexec::drop, with the body's result kept
  dropping : Result → Stage
  -- TDestroyer has destroyed the value, and not yet reset `StopCallback`
  destroying : Result → Stage
  finished : Stage
  -- an exception was caught and not passed on
  swallowed : Stage
  -- std::terminate
  terminated : Stage

pub record AsyncValueOpState : Type 0 where
  pub stage : Stage
  -- `Value` and `StopCallback` are engaged
  pub value_engaged : Bool
  pub callback_engaged : Bool
  pub constructed : ℕ
  pub destroyed : ℕ
  -- the receiver's stop token was asked to stop
  pub requested : Bool
  -- calls of request_stop on the value, and on a `Value` that is not engaged
  pub value_stops : ℕ
  pub stray_stops : ℕ
  -- what the receiver was completed with, the latest first
  pub completions : List Result

-- What the templates are instantiated with: IsValueStopSource, and whether the function is declared noexcept.
pub record Types : Type 0 where
  pub is_value_stop_source : Bool
  pub fn_noexcept : Bool

-- Which of the calls in `set_value` throws: the value's constructor, the function or the connect of the body.
pub record Throws : Type 0 where
  pub constructor : Bool
  pub body : Bool

pub data Event : Type 0 where
  starts : Event
  inner : Result → Throws → Event
  body : Result → Event
  drops : Result → Event
  resets : Event
  -- some thread asks the stop token of the receiver to stop
  requests : Event

-- `TAsyncValueOpState::TAsyncValueOpState`
unfoldable pub connect : AsyncValueOpState
connect = record {
  stage = waiting;
  value_engaged = false;
  callback_engaged = false;
  constructed = 0;
  destroyed = 0;
  requested = false;
  value_stops = 0;
  stray_stops = 0;
  completions = [];
}

unfoldable pub start : AsyncValueOpState → AsyncValueOpState
start op = record op { stage = inner_runs }

abbrev pub complete : Result → AsyncValueOpState → AsyncValueOpState
complete r op = record op { stage = finished; completions = r ∷ op.completions }

module _ (types : Types) where
  -- `TStopCallback::operator()`
  unfoldable pub stop_callback : AsyncValueOpState → AsyncValueOpState
  stop_callback op =
      if types.is_value_stop_source
      then (if op.value_engaged
          then record op { value_stops = op.value_stops + 1 }
          else record op { stray_stops = op.stray_stops + 1 })
      else op

  -- `StopCallback.emplace`: the token calls the callback at once if it was asked to stop.
  unfoldable pub emplace_callback : AsyncValueOpState → AsyncValueOpState
  unfolding stop_callback
  emplace_callback op =
      let op' = record op { callback_engaged = true } in
      if op.requested then stop_callback op' else op'

  -- The handler of `set_value`: it completes the receiver unless the function is declared noexcept.
  unfoldable pub catch_exception : AsyncValueOpState → AsyncValueOpState
  catch_exception op =
      if types.fn_noexcept then record op { stage = swallowed } else complete threw op

  -- `TAsyncValueReceiver::set_value`, which is noexcept.
  unfoldable pub set_value : Throws → AsyncValueOpState → AsyncValueOpState
  unfolding emplace_callback catch_exception
  set_value throws op =
      if throws.constructor
      then record op { stage = terminated }
      else (let op' =
            emplace_callback
              (record op { value_engaged = true; constructed = op.constructed + 1 }) in
          if throws.body then catch_exception op' else record op' { stage = body_runs })

  -- The completions of the inner sender: an error or a stop goes on to the operation's receiver.
  unfoldable pub complete_inner : Result → Throws → AsyncValueOpState → AsyncValueOpState
  unfolding set_value
  complete_inner (value n) throws op = set_value throws op
  complete_inner r throws op = complete r op

  -- The two statements of `TDestroyer::operator()`; exec::finally then completes with the body's result.
  unfoldable pub reset_value : Result → AsyncValueOpState → AsyncValueOpState
  reset_value r op = record op {
    stage = destroying r;
    value_engaged = false;
    destroyed = op.destroyed + 1;
  }

  unfoldable pub reset_callback : Result → AsyncValueOpState → AsyncValueOpState
  reset_callback r op = complete r (record op { callback_engaged = false })

  -- uvexec::drop completes: TDestroyer follows a value, and anything else goes to the receiver.
  unfoldable pub complete_drop : Result → Result → AsyncValueOpState → AsyncValueOpState
  unfolding reset_value
  complete_drop (value n) r op = reset_value r op
  complete_drop d r op = complete d op

  unfoldable pub step : Event → AsyncValueOpState → Option AsyncValueOpState
  unfolding start complete_inner complete_drop reset_callback stop_callback
  step starts op = elim op.stage [ waiting ↦ some (start op) | _ ↦ none ]
  step (inner r throws) op = elim op.stage [
    | inner_runs ↦ some (complete_inner r throws op)
    | _ ↦ none
  ]
  step (body r) op = elim op.stage [
    | body_runs ↦ some (record op { stage = dropping r })
    | _ ↦ none
  ]
  step (drops d) op = elim op.stage [ dropping r ↦ some (complete_drop d r op) | _ ↦ none ]
  step resets op = elim op.stage [ destroying r ↦ some (reset_callback r op) | _ ↦ none ]
  step requests op =
      if op.requested
      then some op
      else (let op' = record op { requested = true } in
          some (if op.callback_engaged then stop_callback op' else op'))

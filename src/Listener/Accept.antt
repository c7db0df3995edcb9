-- ===== src/Listener/Accept.antt =====
-- TTcpListener::TAcceptOpState, but for the list that it stands in.
use uvexec.Base.{ℕ, ◌+◌, Bool, true, false, List, [], ◌∷◌, if◌then◌else◌}
use uvexec.Uv.{UvError, Errc, is_error, Signal, set_value, set_error, set_stopped}
use uvexec.StopOperation.{StopOperation, fresh, setup, reset, reset_unsafe}

pub record AcceptOpState : Type 0 where
  pub stop_op : StopOperation
  -- `Op` was started and has not completed
  pub waiting : Bool
  -- `Receiver` holds the receiver
  pub receiver : Bool
  -- an empty `Receiver` was dereferenced
  pub undefined : Bool
  -- the calls of `uv_accept`
  pub accepts : ℕ
  -- what its receiver was completed with, the latest first
  pub completions : List (Signal (Unit {0}))

-- The constructor, under a stop token, and `stdexec::start`.
unfoldable pub started : Bool → AcceptOpState
started requested = record {
  stop_op = fresh requested;
  waiting = true;
  receiver = false;
  undefined = false;
  accepts = 0;
  completions = [];
}

complete_receiver : Signal (Unit {0}) → AcceptOpState → AcceptOpState
complete_receiver s o =
    if o.receiver
    then record o { completions = s ∷ o.completions }
    else record o { undefined = true }

unfoldable pub accept : UvError → AcceptOpState → AcceptOpState
unfolding reset complete_receiver is_error
accept err o =
    let (s, used) = reset o.stop_op in
    let o' = record o { stop_op = s } in
    let o'' = record o' { accepts = o.accepts + 1 } in
    if used
    then o'
    else complete_receiver (if is_error err then set_error err else set_value tt) o''

unfoldable pub error : Errc → AcceptOpState → AcceptOpState
unfolding reset complete_receiver
error err o =
    let (s, used) = reset o.stop_op in
    let o' = record o { stop_op = s } in if used then o' else complete_receiver (set_error err) o'

-- `Op->Receiver.emplace`
unfoldable pub emplace : AcceptOpState → AcceptOpState
emplace o = record o { receiver = true }

-- `Op->StopOp.Setup`
unfoldable pub setup_stop : AcceptOpState → AcceptOpState
unfolding setup
setup_stop o = record o { stop_op = setup o.stop_op }

-- `StopCallback`, once the operation is out of the list.
unfoldable pub stop_callback : AcceptOpState → AcceptOpState
unfolding reset_unsafe complete_receiver
stop_callback o = complete_receiver set_stopped (record o { stop_op = (reset_unsafe o.stop_op).0 })

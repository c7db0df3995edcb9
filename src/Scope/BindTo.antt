-- ===== src/Scope/BindTo.antt =====
-- TBindToOpState: include/uvexec/algorithms/bind_to_op_state.hpp.
use uvexec.Base.{true, Option, if◌then◌else◌, not, pos, eq_ℤ}
use uvexec.Scope
use uvexec.Scope.{
  Result, value, failed, threw, stopped, inner_runs, body_runs, Operation, Answers, Event, complete,
  start_close,
}

-- `stdexec::start` of the inner sender.
unfoldable pub start : Answers → Operation → Operation
start u op = record op { stage = inner_runs }

-- `EmplaceAndStartBody`, and what TBindToReceiver::set_value makes of its error or its exception.
unfoldable pub emplace_and_start_body : Answers → Operation → Operation
emplace_and_start_body u op =
    if not (eq_ℤ u.init (pos 0))
    then complete (failed u.init) op
    else if not (eq_ℤ u.bind (pos 0))
    then start_close (failed u.bind) (record op { opened = true })
    else if u.throws
    then complete threw (record op { opened = true })
    else record op { opened = true; stage = body_runs }

-- The completions of TBindToReceiver: an error or a stop goes on to the operation's receiver.
unfoldable pub complete_inner : Result → Answers → Operation → Operation
unfolding emplace_and_start_body
complete_inner (value n) u op = emplace_and_start_body u op
complete_inner (failed e) u op = complete (failed e) op
complete_inner threw u op = complete threw op
complete_inner stopped u op = complete stopped op

unfoldable pub step : Event → Operation → Option Operation
unfolding start complete_inner
step e op = Scope.step start complete_inner e op

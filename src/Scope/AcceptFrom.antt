-- ===== src/Scope/AcceptFrom.antt =====
-- TAcceptFromOpState: include/uvexec/algorithms/accept_from_op_state.hpp.
use uvexec.Base.{true, Option, if◌then◌else◌, not, pos, eq_ℤ}
use uvexec.Scope
use uvexec.Scope.{
  Result, value, failed, threw, stopped, inner_runs, body_runs, Operation, Answers, Event, complete,
  start_close,
}

-- `EmplaceAndStartInitially`
unfoldable pub emplace_and_start_initially : Answers → Operation → Operation
emplace_and_start_initially u op =
    if not (eq_ℤ u.init (pos 0))
    then complete (failed u.init) op
    else if u.throws
    then complete threw (record op { opened = true })
    else record op { opened = true; stage = inner_runs }

-- `EmplaceAndStartBody`, unless it throws.
unfoldable pub emplace_and_start_body : Operation → Operation
emplace_and_start_body op = record op { stage = body_runs }

-- `EmplaceAndStartClose`
unfoldable pub emplace_and_start_close : Result → Operation → Operation
emplace_and_start_close fin op = start_close fin op

-- The completions of TAcceptFromReceiver.
unfoldable pub complete_inner : Result → Answers → Operation → Operation
unfolding emplace_and_start_body emplace_and_start_close
complete_inner (value n) u op =
    if u.throws then emplace_and_start_close threw op else emplace_and_start_body op
complete_inner (failed e) u op = emplace_and_start_close (failed e) op
complete_inner threw u op = emplace_and_start_close threw op
complete_inner stopped u op = emplace_and_start_close stopped op

unfoldable pub step : Event → Operation → Option Operation
unfolding emplace_and_start_initially complete_inner
step e op = Scope.step emplace_and_start_initially complete_inner e op

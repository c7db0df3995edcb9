-- ===== src/StopOperation.antt =====
-- TLoop::TStopOperation (include/uvexec/execution/loop.hpp): the hook by which a stop request, made on any
-- thread, reaches an operation on the loop's thread. The stop token is stdexec's: `requested` is what it
-- holds, and `request` what its `request_stop` does with a registered callback.
use uvexec.Base.{ℕ, suc, ◌-◌, Bool, true, false, not, if◌then◌else◌}

pub record StopOperation : Type 0 where
  -- the token's own state
  pub requested : Bool
  -- `Used`
  pub used : Bool
  -- `StopCallback` holds a callback
  pub engaged : Bool
  -- the times that the operation was handed to `Loop->Schedule` and was not applied since
  pub scheduled : ℕ

-- A new operation, under a token that may have been asked to stop already.
abbrev pub fresh : Bool → StopOperation
fresh requested = record { requested = requested; used = false; engaged = false; scheduled = 0 }

-- All the fields, in order.
abbrev pub state : Bool → Bool → Bool → ℕ → StopOperation
state r u e n = record { requested = r; used = u; engaged = e; scheduled = n }

-- The loop takes the operation out of its list, to apply it.
abbrev pub take_out : StopOperation → StopOperation
take_out s = record s { scheduled = s.scheduled - 1 }

-- `TStopCallback::operator()`
unfoldable pub fire : StopOperation → StopOperation
fire s = if s.used then s else record s { used = true; scheduled = suc s.scheduled }

-- A callback that registers with a token that was asked to stop runs in its constructor.
unfoldable pub setup : StopOperation → StopOperation
unfolding fire
setup s = let s' = record s { engaged = true } in if s.requested then fire s' else s'

unfoldable pub reset : StopOperation → StopOperation × Bool
reset s = if s.used then (s, true) else (record s { used = true; engaged = false }, false)

unfoldable pub reset_unsafe : StopOperation → StopOperation × Bool
reset_unsafe s = if s.engaged then (record s { engaged = false }, false) else (s, true)

-- `explicit operator bool`
unfoldable pub is_unused : StopOperation → Bool
is_unused s = not s.used

-- The token is asked to stop: the first time, it runs the registered callback.
unfoldable pub request : StopOperation → StopOperation
unfolding fire
request s =
    if s.requested
    then s
    else let s' = record s { requested = true } in if s.engaged then fire s' else s'

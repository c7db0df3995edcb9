-- ===== src/Listener.antt =====
-- TTcpListener (sockets/tcp_listener.hpp, tcp_listener.cpp): connections that came and accepts that wait. The list
-- of accepts is the abstract one that IntrusiveList.Laws justifies; accepts are named by numbers.
pub mod Accept
pub mod Invariant
pub mod Laws
pub mod Balance
pub mod Stopping
pub mod Early
mod Tests
use uvexec.Base.{
  ℕ, zero, suc, ◌+◌, Bool, false, not, Option, none, some, List, [], ◌∷◌, ltb, ◌==◌, if◌then◌else◌,
  when, ℤ, pos, negsuc, is_negative, eq_ℤ,
}
use uvexec.Uv.{UvError, Errc, is_error}
use uvexec.StopOperation.{request, take_out}
use uvexec.IntrusiveList.Chain.{has, remove}
use Accept.{AcceptOpState, accept, error, emplace, setup_stop, stop_callback}

pub record TcpListener : Type 0 where
  -- `AcceptList`, the head first
  pub accept_list : List ℕ
  -- `PendingConnections`, an `int`. Balance shows that it is at most the number of connections that libuv reported, so
  -- that it stays in the range of an `int` for as long as those are fewer than 2 ^ 31; here it has no upper bound.
  pub pending : ℤ
  -- the backlog that libuv was last asked to listen with
  pub backlog : Option ℤ
  pub ops : ℕ → AcceptOpState

abbrev pub set_op : (ℕ → AcceptOpState) → ℕ → AcceptOpState → ℕ → AcceptOpState
set_op f a o b = if b == a then o else f b

-- `++` and `--` of an `int`.
abbrev pub increment : ℤ → ℤ
increment (pos n) = pos (n + 1)
increment (negsuc zero) = pos 0
increment (negsuc (suc n)) = negsuc n

abbrev pub decrement : ℤ → ℤ
decrement (pos zero) = negsuc 0
decrement (pos (suc n)) = pos n
decrement (negsuc n) = negsuc (n + 1)

abbrev pub negate : ℤ → ℤ
negate (pos zero) = pos 0
negate (pos (suc n)) = negsuc n
negate (negsuc n) = pos (n + 1)

abbrev pub is_positive : ℤ → Bool
is_positive (pos n) = ltb 0 n
is_positive (negsuc n) = false

-- The answers of libuv in `RegisterAccept`: of `uv_listen` and of `uv_accept`.
pub record Answers : Type 0 where
  pub listen : UvError
  pub accept : UvError

-- With the answer of `UvTcpListen`.
unfoldable pub start_listening : UvError → TcpListener → TcpListener × Errc
unfolding is_error
start_listening err l =
    let l' = record l { backlog = some (negate l.pending) } in
    if is_error err then (l', err) else (l', pos 0)

accept_op : UvError → ℕ → TcpListener → TcpListener
accept_op err a l = record l { ops = set_op l.ops a (accept err (l.ops a)) }

error_op : Errc → ℕ → TcpListener → TcpListener
error_op err a l = record l { ops = set_op l.ops a (error err (l.ops a)) }

-- `AcceptList.Add`, and listening where that was not done before.
wait_for_connection : Answers → ℕ → TcpListener → TcpListener
unfolding start_listening error_op
wait_for_connection u a l =
    let l' = record l { accept_list = a ∷ l.accept_list } in
    if is_negative l.pending
    then (let (l'', err) = start_listening u.listen l' in
        if eq_ℤ err (pos 0) then record l'' { pending = pos 0 } else error_op err a l'')
    else l'

unfoldable pub register_accept : Answers → ℕ → TcpListener → TcpListener
unfolding accept_op wait_for_connection
register_accept u a l =
    if is_positive l.pending
    then accept_op u.accept a (record l { pending = decrement l.pending })
    else wait_for_connection u a l

-- `TAcceptReceiver::set_value`
unfoldable pub set_value : Answers → ℕ → TcpListener → TcpListener
unfolding register_accept
set_value u a l =
    let l' = register_accept u a (record l { ops = set_op l.ops a (emplace (l.ops a)) }) in
    record l' { ops = set_op l'.ops a (setup_stop (l'.ops a)) }

-- With the status of the connection, and the answer of `uv_accept` if that is called.
unfoldable pub connection_callback : UvError → UvError → TcpListener → TcpListener
unfolding accept_op is_error
connection_callback status err l = if is_error status then l else elim l.accept_list [
  | [] ↦ record l { pending = increment l.pending }
  | a ∷ rest ↦ accept_op err a (record l { accept_list = rest })
]

-- `TAcceptOpState::StopCallback`
unfoldable pub stop_accept : ℕ → TcpListener → TcpListener
stop_accept a l = record l {
  accept_list = remove a l.accept_list;
  ops = set_op l.ops a (stop_callback (l.ops a));
}

-- The public constructor: it throws where libuv reports an error, and otherwise listens at once.
unfoldable pub construct : ℕ → UvError → UvError → (ℕ → AcceptOpState) → Option TcpListener
unfolding start_listening is_error
construct backlog bind_err listen_err ops =
    let l : TcpListener = record {
      accept_list = [];
      pending = negate (pos backlog);
      backlog = none;
      ops = ops;
    } in
    let (l', err) = start_listening listen_err l in
    if is_error bind_err then none else if eq_ℤ err (pos 0) then some l' else none

-- The constructor that `bind_to` uses, and `Bind`.
unfoldable pub unbound : ℕ → (ℕ → AcceptOpState) → TcpListener
unbound backlog ops = record {
  accept_list = [];
  pending = negate (pos backlog);
  backlog = none;
  ops = ops;
}

unfoldable pub bind : UvError → UvError → TcpListener → TcpListener × Errc
unfolding start_listening is_error
bind bind_err listen_err l =
    let (l', err) = start_listening listen_err l in
    if not (is_error bind_err) then (record l' { pending = pos 0 }, err) else (l, bind_err)

pub data Event : Type 0 where
  -- the sender before an accept completes
  begins : Answers → ℕ → Event
  -- libuv reports a connection
  connects : (status err : UvError) → Event
  requests : ℕ → Event
  stops : ℕ → Event

-- What the loop, libuv and the other threads can do.
unfoldable pub step : Event → TcpListener → Option TcpListener
unfolding set_value connection_callback stop_accept
step (begins u a) l =
    let o = l.ops a in
    when o.waiting
      (set_value u a (record l { ops = set_op l.ops a (record o { waiting = false }) }))
step (connects status err) l = some (connection_callback status err l)
step (requests a) l =
    let o = l.ops a in
    some (record l { ops = set_op l.ops a (record o { stop_op = request o.stop_op }) })
step (stops a) l =
    let o = l.ops a in
    when (ltb 0 o.stop_op.scheduled) (
      stop_accept a (record l { ops = set_op l.ops a (record o { stop_op = take_out o.stop_op }) }))

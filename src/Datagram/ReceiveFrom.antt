-- ===== src/Datagram/ReceiveFrom.antt =====
-- TReceiveFromOpState: one datagram into a buffer, and the address of its sender into an endpoint.
use uvexec.Base.{
  ℕ, ◌≡◌, refl, ◌⊎◌, Bool, true, false, not, Option, none, some, List, [], ◌∷◌, arith, ltb,
  if◌then◌else◌, when, ℤ, is_negative, to_size, map_state,
}
use uvexec.Uv.{UvError, is_error, Signal, set_error, set_stopped}
use uvexec.StopOperation.{StopOperation, fresh, setup, reset, reset_unsafe, request, take_out}
use uvexec.Stream.ReadSome.{Span}
use uvexec.Datagram.Address.{Address, Datagram, copy_address, is_nothing}
use uvexec.Transfer
use uvexec.Transfer.{
  Transfer, Event, begins, arrives, requests, stops, Phase, Response, ignore, finish, move, begin,
}

pub record ReceiveFromOpState : Type 0 where
  pub stop_op : StopOperation
  pub buf : Span
  -- what `*Endpoint` holds
  pub endpoint : Address
  -- the socket was told to receive, and not to stop
  pub reading : Bool
  -- `Op` was started and has not completed
  pub waiting : Bool
  -- `Receiver` holds the receiver
  pub receiver : Bool
  -- an empty `Receiver` was dereferenced
  pub undefined : Bool
  -- what its receiver was completed with, the latest first
  pub completions : List (Signal ℕ)

-- The constructor, under a stop token.
unfoldable pub connect : Bool → ReceiveFromOpState
connect requested = record {
  stop_op = fresh requested;
  buf = record { start = 0; size = 0 };
  endpoint = record { family = 0; body = 0 };
  reading = false;
  waiting = false;
  receiver = false;
  undefined = false;
  completions = [];
}

-- `stdexec::start`, which starts `Op`.
unfoldable pub start : ReceiveFromOpState → ReceiveFromOpState
start op = record op { waiting = true }

-- `StartReceive`, with the answer of `ReceiveStart`.
start_receive : UvError → ReceiveFromOpState → ReceiveFromOpState
unfolding is_error setup
start_receive err op =
    if is_error err
    then record op { completions = set_error err ∷ op.completions }
    else record op { reading = true; receiver = true; stop_op = setup op.stop_op }

unfoldable pub set_value : Span → Address → UvError → ReceiveFromOpState → ReceiveFromOpState
unfolding start_receive
set_value buff ep err op = start_receive err (record op { buf = buff; endpoint = ep })

-- `*std::move(Receiver)`, completed.
complete_receiver : Signal ℕ → ReceiveFromOpState → ReceiveFromOpState
complete_receiver s op =
    if op.receiver
    then record op { completions = s ∷ op.completions }
    else record op { undefined = true }

-- An address is to be copied and there is none.
abbrev pub null_address : Datagram → Bool
null_address d = elim d.addr [ none ↦ not (is_negative d.nrd) | some from ↦ false ]

-- The end of `ReceiveCallback`, after `ReceiveStop`, but for a copy from NULL.
unfoldable pub result : ℤ → ℕ → Address → Datagram → Address × Signal ℕ
unfolding copy_address is_error
result einval expected ep d = elim d.addr [
  | none ↦ (ep, set_error d.nrd)
  | some from ↦
      let (ep', err) = copy_address einval expected from ep in
      if is_negative d.nrd
      then (ep, set_error d.nrd)
      else (ep', if is_error err then set_error err else Signal.set_value (to_size d.nrd))
]

unfoldable pub receive_callback : ℤ → ℕ → Datagram → ReceiveFromOpState → ReceiveFromOpState
unfolding reset complete_receiver result
receive_callback einval expected d op =
    if is_nothing d
    then op
    else let (s, used) = reset op.stop_op in
      if used
      then record op { stop_op = s }
      else let op' = record op { stop_op = s; reading = false } in
        let (ep, c) = result einval expected op.endpoint d in
        if null_address d
        then record op' { undefined = true }
        else complete_receiver c (record op' { endpoint = ep })

-- What libuv is given to read into.
unfoldable pub allocate_buf : ReceiveFromOpState → Span
allocate_buf op = op.buf

unfoldable pub stop_callback : ReceiveFromOpState → ReceiveFromOpState
unfolding reset_unsafe complete_receiver
stop_callback op =
    complete_receiver set_stopped
      (record op { stop_op = (reset_unsafe op.stop_op).0; reading = false })

-- What the loop, libuv and the other threads can do to the operation.
module _ (einval : ℤ) (expected : ℕ) (buff : Span) (ep : Address) where
  unfoldable pub step : Event Datagram → ReceiveFromOpState → Option ReceiveFromOpState
  unfolding set_value receive_callback stop_callback request
  step (begins err) op = when op.waiting (set_value buff ep err (record op { waiting = false }))
  step (arrives d) op = when op.reading (receive_callback einval expected d op)
  step requests op = some (record op { stop_op = request op.stop_op })
  step stops op =
      when (ltb 0 op.stop_op.scheduled)
        (stop_callback (record op { stop_op = take_out op.stop_op }))

  -- What a callback means to an operation that was not stopped.
  abbrev pub respond : Address → Datagram → Response Address
  respond x d =
      if is_nothing d
      then ignore
      else finish (result einval expected x d).0 (result einval expected x d).1

  abbrev pub buf_of : Phase Address → Span
  buf_of (Phase.idle r) = record { start = 0; size = 0 }
  buf_of _ = buff

  abbrev pub endpoint_of : Phase Address → Address
  endpoint_of (Phase.idle r) = record { family = 0; body = 0 }
  endpoint_of p = Transfer.content ep p

  -- The fields of the operation in each phase.
  unfoldable pub at : Phase Address → ReceiveFromOpState
  at p = record {
    stop_op = Transfer.stop_op p;
    buf = buf_of p;
    endpoint = endpoint_of p;
    reading = Transfer.reading p;
    waiting = Transfer.waiting p;
    receiver = Transfer.emplaced p;
    undefined = false;
    completions = Transfer.completions p;
  }

  begin_step :
      (err : UvError) (r : Bool)
      → step (begins err) (at (Phase.idle r)) ≡ some (at (begin ep err r))
  unfolding step at begin Transfer.stop_op
  begin_step err r = ground arith

  arrive_step :
      (x : Address) (nrd : ℤ) (addr : Option Address)
      → let d : Datagram = record { nrd = nrd; addr = addr } in
        (is_nothing d ≡ true) ⊎ (null_address d ≡ false)
        → step (arrives d) (at (Phase.armed x)) ≡ some (at (Transfer.answer x (respond x d)))
  unfolding step at Transfer.answer Transfer.stop_op
  arrive_step x nrd none h = ground arith
  arrive_step x nrd (some from) h = ground arith

  pub arrive_stopping :
      (x : Address) (nrd : ℤ) (addr : Option Address)
      → step (arrives (record { nrd = nrd; addr = addr })) (at (Phase.stopping x))
        ≡ some (at (Phase.stopping x))
  unfolding step at Transfer.stop_op
  arrive_stopping x nrd none = ground arith
  arrive_stopping x nrd (some from) = ground arith

  -- libuv passes NULL with an error, or with nothing.
  abbrev pub IsSane : Event Datagram → Type 0
  IsSane (arrives d) = (is_nothing d ≡ true) ⊎ (null_address d ≡ false)
  IsSane _ = Unit

  pub step-move :
      (e : Event Datagram) (p : Phase Address)
      → IsSane e
      → step e (at p) ≡ map_state at (move ep respond e p)
  unfolding step at move Transfer.stop_op
  step-move (begins err) (Phase.idle r) h = begin_step err r
  step-move (arrives d) (Phase.armed x) h = arrive_step x d.nrd d.addr h
  step-move (arrives d) (Phase.stopping x) h = arrive_stopping x d.nrd d.addr
  step-move requests (Phase.idle true) h = refl
  step-move requests (Phase.idle false) h = refl
  step-move requests (Phase.rejected e true) h = refl
  step-move requests (Phase.rejected e false) h = refl
  step-move requests (Phase.done x s true) h = refl
  step-move requests (Phase.done x s false) h = refl
  step-move stops (Phase.stopping x) h = refl
  step-move e p h = refl

  -- `connect` and `start` lead to the first phase.
  pub start-connect : (r : Bool) → start (connect r) ≡ at (Phase.idle r)
  unfolding start connect at Transfer.stop_op
  start-connect r = refl

  unfoldable pub operation : Transfer
  unfolding at
  operation = record {
    State = ReceiveFromOpState;
    Arrival = Datagram;
    Kept = Address;
    Sane = IsSane;
    step = step;
    initial = ep;
    respond = respond;
    at = at;
    completions_of = λ op. op.completions;
    reading_of = λ op. op.reading;
    stop_op_of = λ op. op.stop_op;
    step-move = step-move;
    completions-at = λ p. refl;
    reading-at = λ p. refl;
    stop_op-at = λ p. refl;
    sane_begin = tt;
    sane_request = tt;
    sane_stop = tt;
  }

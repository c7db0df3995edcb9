-- ===== src/Datagram/Receive.antt =====
-- TReceiveOpState: one datagram into a buffer, from anybody.
use uvexec.Base.{
  ℕ, ◌≡◌, refl, Bool, true, false, Option, some, List, [], ◌∷◌, arith, ltb, if◌then◌else◌, when, ℤ,
  is_negative, to_size, map_state,
}
use uvexec.Uv.{UvError, is_error, Signal, set_error, set_stopped}
use uvexec.StopOperation.{StopOperation, fresh, setup, reset, reset_unsafe, request, take_out}
use uvexec.Stream.ReadSome.{Span}
use uvexec.Datagram.Address.{Datagram, is_nothing}
use uvexec.Transfer
use uvexec.Transfer.{
  Transfer, Event, begins, arrives, requests, stops, Phase, Response, ignore, finish, move, begin,
}

pub record ReceiveOpState : Type 0 where
  pub stop_op : StopOperation
  pub buf : Span
  -- the socket was told to receive, and not to stop
  pub reading : Bool
  -- `Op` was started and has not completed
  pub waiting : Bool
  -- `Receiver` holds the receiver
  pub receiver : Bool
  -- an empty `Receiver` was dereferenced
  pub undefined : Bool
  -- what its receiver was completed with, the latest first
  pub completions : List (Signal ℕ)

-- The constructor, under a stop token.
unfoldable pub connect : Bool → ReceiveOpState
connect requested = record {
  stop_op = fresh requested;
  buf = record { start = 0; size = 0 };
  reading = false;
  waiting = false;
  receiver = false;
  undefined = false;
  completions = [];
}

-- `stdexec::start`, which starts `Op`.
unfoldable pub start : ReceiveOpState → ReceiveOpState
start op = record op { waiting = true }

-- `StartReceive`, with the answer of `ReceiveStart`.
start_receive : UvError → ReceiveOpState → ReceiveOpState
unfolding is_error setup
start_receive err op =
    if is_error err
    then record op { completions = set_error err ∷ op.completions }
    else record op { reading = true; receiver = true; stop_op = setup op.stop_op }

unfoldable pub set_value : Span → UvError → ReceiveOpState → ReceiveOpState
unfolding start_receive
set_value buff err op = start_receive err (record op { buf = buff })

-- `*std::move(Receiver)`, completed.
complete_receiver : Signal ℕ → ReceiveOpState → ReceiveOpState
complete_receiver s op =
    if op.receiver
    then record op { completions = s ∷ op.completions }
    else record op { undefined = true }

-- The end of `ReceiveCallback`, after `ReceiveStop`.
unfoldable pub result : ℤ → Signal ℕ
result nrd = if is_negative nrd then set_error nrd else Signal.set_value (to_size nrd)

unfoldable pub receive_callback : Datagram → ReceiveOpState → ReceiveOpState
unfolding reset complete_receiver result
receive_callback d op =
    if is_nothing d
    then op
    else let (s, used) = reset op.stop_op in
      if used
      then record op { stop_op = s }
      else complete_receiver (result d.nrd) (record op { stop_op = s; reading = false })

-- What libuv is given to read into.
unfoldable pub allocate_buf : ReceiveOpState → Span
allocate_buf op = op.buf

unfoldable pub stop_callback : ReceiveOpState → ReceiveOpState
unfolding reset_unsafe complete_receiver
stop_callback op =
    complete_receiver set_stopped
      (record op { stop_op = (reset_unsafe op.stop_op).0; reading = false })

-- What the loop, libuv and the other threads can do to the operation.
module _ (buff : Span) where
  unfoldable pub step : Event Datagram → ReceiveOpState → Option ReceiveOpState
  unfolding set_value receive_callback stop_callback request
  step (begins err) op = when op.waiting (set_value buff err (record op { waiting = false }))
  step (arrives d) op = when op.reading (receive_callback d op)
  step requests op = some (record op { stop_op = request op.stop_op })
  step stops op =
      when (ltb 0 op.stop_op.scheduled)
        (stop_callback (record op { stop_op = take_out op.stop_op }))

  -- What a callback means to an operation that was not stopped.
  abbrev pub respond : Unit {0} → Datagram → Response (Unit {0})
  respond x d = if is_nothing d then ignore else finish x (result d.nrd)

  abbrev pub buf_of : Phase (Unit {0}) → Span
  buf_of (Phase.idle r) = record { start = 0; size = 0 }
  buf_of _ = buff

  -- The fields of the operation in each phase.
  unfoldable pub at : Phase (Unit {0}) → ReceiveOpState
  at p = record {
    stop_op = Transfer.stop_op p;
    buf = buf_of p;
    reading = Transfer.reading p;
    waiting = Transfer.waiting p;
    receiver = Transfer.emplaced p;
    undefined = false;
    completions = Transfer.completions p;
  }

  begin_step :
      (err : UvError) (r : Bool)
      → step (begins err) (at (Phase.idle r)) ≡ some (at (begin tt err r))
  unfolding step at begin Transfer.stop_op
  begin_step err r = ground arith

  arrive_step :
      (d : Datagram)
      → step (arrives d) (at (Phase.armed tt)) ≡ some (at (Transfer.answer tt (respond tt d)))
  unfolding step at Transfer.answer Transfer.stop_op
  arrive_step d = ground arith

  arrive_stopping :
      (d : Datagram) → step (arrives d) (at (Phase.stopping tt)) ≡ some (at (Phase.stopping tt))
  unfolding step at Transfer.stop_op
  arrive_stopping d = ground arith

  pub step-move :
      (e : Event Datagram) (p : Phase (Unit {0}))
      → step e (at p) ≡ map_state at (move tt respond e p)
  unfolding step at move Transfer.stop_op
  step-move (begins err) (Phase.idle r) = begin_step err r
  step-move (arrives d) (Phase.armed x) = arrive_step d
  step-move (arrives d) (Phase.stopping x) = arrive_stopping d
  step-move requests (Phase.idle true) = refl
  step-move requests (Phase.idle false) = refl
  step-move requests (Phase.rejected e true) = refl
  step-move requests (Phase.rejected e false) = refl
  step-move requests (Phase.done x s true) = refl
  step-move requests (Phase.done x s false) = refl
  step-move stops (Phase.stopping x) = refl
  step-move e p = refl

  -- `connect` and `start` lead to the first phase.
  pub start-connect : (r : Bool) → start (connect r) ≡ at (Phase.idle r)
  unfolding start connect at Transfer.stop_op
  start-connect r = refl

  unfoldable pub operation : Transfer
  unfolding at
  operation = record {
    State = ReceiveOpState;
    Arrival = Datagram;
    Kept = Unit {0};
    Sane = λ e. Unit {0};
    step = step;
    initial = tt;
    respond = respond;
    at = at;
    completions_of = λ op. op.completions;
    reading_of = λ op. op.reading;
    stop_op_of = λ op. op.stop_op;
    step-move = λ e p s. step-move e p;
    completions-at = λ p. refl;
    reading-at = λ p. refl;
    stop_op-at = λ p. refl;
    sane_begin = tt;
    sane_request = tt;
    sane_stop = tt;
  }

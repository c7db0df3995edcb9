-- ===== src/Stream/ReadSome.antt =====
-- TReadSomeOpState: one read into a buffer.
use uvexec.Base.{
  ℕ, ◌≡◌, refl, Bool, true, false, Option, some, List, [], ◌∷◌, arith, ltb, if◌then◌else◌, when, ℤ,
  pos, is_negative, to_size, eq_ℤ, map_state,
}
use uvexec.Uv.{UvError, is_error, Signal, set_error, set_stopped}
use uvexec.StopOperation.{StopOperation, fresh, setup, reset, reset_unsafe, request, take_out}
use uvexec.Transfer
use uvexec.Transfer.{
  Transfer, Event, begins, arrives, requests, stops, Phase, Response, ignore, finish, move, begin,
}

-- `std::span<std::byte>`: an address and a size.
pub record Span : Type 0 where
  pub start : ℕ
  pub size : ℕ

pub record ReadSomeOpState : Type 0 where
  pub stop_op : StopOperation
  pub buf : Span
  -- the stream was told to read, and not to stop
  pub reading : Bool
  -- `Op` was started and has not completed
  pub waiting : Bool
  -- `Receiver` holds the receiver
  pub receiver : Bool
  -- an empty `Receiver` was dereferenced
  pub undefined : Bool
  -- what its receiver was completed with, the latest first
  pub completions : List (Signal ℕ)

-- The constructor, under a stop token.
unfoldable pub connect : Bool → ReadSomeOpState
connect requested = record {
  stop_op = fresh requested;
  buf = record { start = 0; size = 0 };
  reading = false;
  waiting = false;
  receiver = false;
  undefined = false;
  completions = [];
}

-- `stdexec::start`, which starts `Op`.
unfoldable pub start : ReadSomeOpState → ReadSomeOpState
start op = record op { waiting = true }

-- `StartRead`, with the answer of `ReadStart`.
start_read : UvError → ReadSomeOpState → ReadSomeOpState
unfolding is_error setup
start_read err op =
    if is_error err
    then record op { completions = set_error err ∷ op.completions }
    else record op { reading = true; receiver = true; stop_op = setup op.stop_op }

unfoldable pub set_value : Span → UvError → ReadSomeOpState → ReadSomeOpState
unfolding start_read
set_value buff err op = start_read err (record op { buf = buff })

-- `*std::move(Receiver)`, completed.
complete_receiver : Signal ℕ → ReadSomeOpState → ReadSomeOpState
complete_receiver s op =
    if op.receiver
    then record op { completions = s ∷ op.completions }
    else record op { undefined = true }

-- The end of `ReadCallback`, for `nrd` that is not 0.
unfoldable pub result : ℤ → ℤ → Signal ℕ
result eof nrd =
    if is_negative nrd
    then if eq_ℤ nrd eof then Signal.set_value 0 else set_error nrd
    else Signal.set_value (to_size nrd)

unfoldable pub read_callback : ℤ → ℤ → ReadSomeOpState → ReadSomeOpState
unfolding reset complete_receiver result
read_callback eof nrd op =
    if eq_ℤ nrd (pos 0)
    then op
    else let (s, used) = reset op.stop_op in
      if used
      then record op { stop_op = s }
      else complete_receiver (result eof nrd) (record op { stop_op = s; reading = false })

-- What libuv is given to read into.
unfoldable pub allocate_buf : ReadSomeOpState → Span
allocate_buf op = op.buf

unfoldable pub stop_callback : ReadSomeOpState → ReadSomeOpState
unfolding reset_unsafe complete_receiver
stop_callback op =
    complete_receiver set_stopped
      (record op { stop_op = (reset_unsafe op.stop_op).0; reading = false })

-- What the loop, libuv and the other threads can do to the operation. `eof` is libuv's UV_EOF.
module _ (eof : ℤ) (buff : Span) where
  unfoldable pub step : Event ℤ → ReadSomeOpState → Option ReadSomeOpState
  unfolding set_value read_callback stop_callback request
  step (begins err) op = when op.waiting (set_value buff err (record op { waiting = false }))
  step (arrives nrd) op = when op.reading (read_callback eof nrd op)
  step requests op = some (record op { stop_op = request op.stop_op })
  step stops op =
      when (ltb 0 op.stop_op.scheduled)
        (stop_callback (record op { stop_op = take_out op.stop_op }))

  -- What a callback means to an operation that was not stopped.
  abbrev pub respond : Unit {0} → ℤ → Response (Unit {0})
  respond x nrd = if eq_ℤ nrd (pos 0) then ignore else finish x (result eof nrd)

  abbrev pub buf_of : Phase (Unit {0}) → Span
  buf_of (Phase.idle r) = record { start = 0; size = 0 }
  buf_of _ = buff

  -- The fields of the operation in each phase.
  unfoldable pub at : Phase (Unit {0}) → ReadSomeOpState
  at p = record {
    stop_op = Transfer.stop_op p;
    buf = buf_of p;
    reading = Transfer.reading p;
    waiting = Transfer.waiting p;
    receiver = Transfer.emplaced p;
    undefined = false;
    completions = Transfer.completions p;
  }

  begin_step :
      (err : UvError) (r : Bool)
      → step (begins err) (at (Phase.idle r)) ≡ some (at (begin tt err r))
  unfolding step at begin Transfer.stop_op
  begin_step err r = ground arith

  arrive_step :
      (nrd : ℤ)
      → step (arrives nrd) (at (Phase.armed tt)) ≡ some (at (Transfer.answer tt (respond tt nrd)))
  unfolding step at Transfer.answer Transfer.stop_op
  arrive_step nrd = ground arith

  arrive_stopping :
      (nrd : ℤ) → step (arrives nrd) (at (Phase.stopping tt)) ≡ some (at (Phase.stopping tt))
  unfolding step at Transfer.stop_op
  arrive_stopping nrd = ground arith

  pub step-move :
      (e : Event ℤ) (p : Phase (Unit {0})) → step e (at p) ≡ map_state at (move tt respond e p)
  unfolding step at move Transfer.stop_op
  step-move (begins err) (Phase.idle r) = begin_step err r
  step-move (arrives nrd) (Phase.armed x) = arrive_step nrd
  step-move (arrives nrd) (Phase.stopping x) = arrive_stopping nrd
  step-move requests (Phase.idle true) = refl
  step-move requests (Phase.idle false) = refl
  step-move requests (Phase.rejected e true) = refl
  step-move requests (Phase.rejected e false) = refl
  step-move requests (Phase.done x s true) = refl
  step-move requests (Phase.done x s false) = refl
  step-move stops (Phase.stopping x) = refl
  step-move e p = refl

  -- `connect` and `start` lead to the first phase.
  pub start-connect : (r : Bool) → start (connect r) ≡ at (Phase.idle r)
  unfolding start connect at Transfer.stop_op
  start-connect r = refl

  unfoldable pub operation : Transfer
  unfolding at
  operation = record {
    State = ReadSomeOpState;
    Arrival = ℤ;
    Kept = Unit {0};
    Sane = λ e. Unit {0};
    step = step;
    initial = tt;
    respond = respond;
    at = at;
    completions_of = λ op. op.completions;
    reading_of = λ op. op.reading;
    stop_op_of = λ op. op.stop_op;
    step-move = λ e p s. step-move e p;
    completions-at = λ p. refl;
    reading-at = λ p. refl;
    stop_op-at = λ p. refl;
    sane_begin = tt;
    sane_request = tt;
    sane_stop = tt;
  }

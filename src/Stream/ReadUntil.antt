-- ===== src/Stream/ReadUntil.antt =====
-- TReadUntilOpState: reads into a buffer until a condition holds of the size of the last read.
use uvexec.Base.{
  ℕ, ◌+◌, ◌%◌, ◌^◌, ◌≡◌, refl, Bool, true, false, not, Option, some, List, [], ◌∷◌, arith, ltb,
  if◌then◌else◌, when, ℤ, is_negative, to_size, eq_ℤ, map_state,
}
use uvexec.Uv.{UvError, is_error, Signal, set_error, set_stopped}
use uvexec.StopOperation.{
  StopOperation, fresh, setup, reset, reset_unsafe, is_unused, request, take_out,
}
use uvexec.Stream.ReadSome.{Span}
use uvexec.Transfer
use uvexec.Transfer.{
  Transfer, Event, begins, arrives, requests, stops, Phase, Response, ignore, continue, finish,
  move, begin,
}

pub record ReadUntilOpState : Type 0 where
  pub stop_op : StopOperation
  -- `Buf`, the address of the span that the receiver keeps
  pub buf : ℕ
  pub read_total : ℕ
  -- the stream was told to read, and not to stop
  pub reading : Bool
  -- `Op` was started and has not completed
  pub waiting : Bool
  -- `Receiver` holds the receiver
  pub receiver : Bool
  -- an empty `Receiver` was dereferenced
  pub undefined : Bool
  -- what its receiver was completed with, the latest first
  pub completions : List (Signal ℕ)

-- The constructor, under a stop token.
unfoldable pub connect : Bool → ReadUntilOpState
connect requested = record {
  stop_op = fresh requested;
  buf = 0;
  read_total = 0;
  reading = false;
  waiting = false;
  receiver = false;
  undefined = false;
  completions = [];
}

-- `stdexec::start`, which starts `Op`.
unfoldable pub start : ReadUntilOpState → ReadUntilOpState
start op = record op { waiting = true }

-- With the answer of `ReadStart`.
unfoldable pub set_value : ℕ → UvError → ReadUntilOpState → ReadUntilOpState
unfolding is_error setup
set_value buff err op =
    let op' = record op { buf = buff } in
    if is_error err
    then record op' { completions = set_error err ∷ op.completions }
    else record op' { reading = true; receiver = true; stop_op = setup op.stop_op }

-- `*std::move(Receiver)`, completed.
complete_receiver : Signal ℕ → ReadUntilOpState → ReadUntilOpState
complete_receiver s op =
    if op.receiver
    then record op { completions = s ∷ op.completions }
    else record op { undefined = true }

-- `Reset`, and unless the operation was stopped, `ReadStop` and a completion.
end_read : Signal ℕ → ReadUntilOpState → ReadUntilOpState
unfolding reset complete_receiver
end_read c op =
    let (s, used) = reset op.stop_op in
    if used
    then record op { stop_op = s }
    else complete_receiver c (record op { stop_op = s; reading = false })

-- `nrd < 0`: the end of the stream completes with what was read.
unfoldable pub result : ℤ → ℕ → ℤ → Signal ℕ
result eof total nrd = if eq_ℤ nrd eof then Signal.set_value total else set_error nrd

-- `std::size_t` wraps.
abbrev pub add_size : ℕ → ℕ → ℕ
add_size total n = (total + n) % 2 ^ 64

read_more : (ℕ → Bool) → ℕ → ReadUntilOpState → ReadUntilOpState
unfolding end_read
read_more condition n op =
    let total = add_size op.read_total n in
    let op' = record op { read_total = total } in
    if condition n then end_read (Signal.set_value total) op' else op'

unfoldable pub read_callback : (ℕ → Bool) → ℤ → ℤ → ReadUntilOpState → ReadUntilOpState
unfolding read_more end_read result is_unused
read_callback condition eof nrd op =
    if not (is_unused op.stop_op)
    then op
    else if is_negative nrd
    then end_read (result eof op.read_total nrd) op
    else if ltb 0 (to_size nrd)
    then read_more condition (to_size nrd) op
    else op

-- What libuv is given to read into: the span as it is now, at its address in memory.
unfoldable pub allocate_buf : (ℕ → Span) → ReadUntilOpState → Span
allocate_buf memory op = memory op.buf

unfoldable pub stop_callback : ReadUntilOpState → ReadUntilOpState
unfolding reset_unsafe complete_receiver
stop_callback op =
    complete_receiver set_stopped
      (record op { stop_op = (reset_unsafe op.stop_op).0; reading = false })

-- What the loop, libuv and the other threads can do to the operation. `eof` is libuv's UV_EOF.
module _ (condition : ℕ → Bool) (eof : ℤ) (buff : ℕ) where
  unfoldable pub step : Event ℤ → ReadUntilOpState → Option ReadUntilOpState
  unfolding set_value read_callback stop_callback request
  step (begins err) op = when op.waiting (set_value buff err (record op { waiting = false }))
  step (arrives nrd) op = when op.reading (read_callback condition eof nrd op)
  step requests op = some (record op { stop_op = request op.stop_op })
  step stops op =
      when (ltb 0 op.stop_op.scheduled)
        (stop_callback (record op { stop_op = take_out op.stop_op }))

  -- What a callback means to an operation that was not stopped, and has read `total`.
  abbrev pub respond : ℕ → ℤ → Response ℕ
  respond total nrd =
      if is_negative nrd
      then finish total (result eof total nrd)
      else if ltb 0 (to_size nrd)
      then (if condition (to_size nrd)
          then finish (add_size total (to_size nrd))
              (Signal.set_value (add_size total (to_size nrd)))
          else continue (add_size total (to_size nrd)))
      else ignore

  abbrev pub buf_of : Phase ℕ → ℕ
  buf_of (Phase.idle r) = 0
  buf_of _ = buff

  -- The fields of the operation in each phase.
  unfoldable pub at : Phase ℕ → ReadUntilOpState
  at p = record {
    stop_op = Transfer.stop_op p;
    buf = buf_of p;
    read_total = Transfer.content 0 p;
    reading = Transfer.reading p;
    waiting = Transfer.waiting p;
    receiver = Transfer.emplaced p;
    undefined = false;
    completions = Transfer.completions p;
  }

  begin_step :
      (err : UvError) (r : Bool) → step (begins err) (at (Phase.idle r)) ≡ some (at (begin 0 err r))
  unfolding step at begin Transfer.stop_op
  begin_step err r = ground arith

  arrive_step :
      (x : ℕ) (nrd : ℤ)
      → step (arrives nrd) (at (Phase.armed x)) ≡ some (at (Transfer.answer x (respond x nrd)))
  unfolding step at Transfer.answer Transfer.stop_op
  arrive_step x nrd = ground arith

  arrive_stopping :
      (x : ℕ) (nrd : ℤ) → step (arrives nrd) (at (Phase.stopping x)) ≡ some (at (Phase.stopping x))
  unfolding step at Transfer.stop_op
  arrive_stopping x nrd = ground arith

  pub step-move : (e : Event ℤ) (p : Phase ℕ) → step e (at p) ≡ map_state at (move 0 respond e p)
  unfolding step at move Transfer.stop_op
  step-move (begins err) (Phase.idle r) = begin_step err r
  step-move (arrives nrd) (Phase.armed x) = arrive_step x nrd
  step-move (arrives nrd) (Phase.stopping x) = arrive_stopping x nrd
  step-move requests (Phase.idle true) = refl
  step-move requests (Phase.idle false) = refl
  step-move requests (Phase.rejected e true) = refl
  step-move requests (Phase.rejected e false) = refl
  step-move requests (Phase.done x s true) = refl
  step-move requests (Phase.done x s false) = refl
  step-move stops (Phase.stopping x) = refl
  step-move e p = refl

  -- `connect` and `start` lead to the first phase.
  pub start-connect : (r : Bool) → start (connect r) ≡ at (Phase.idle r)
  unfolding start connect at Transfer.stop_op
  start-connect r = refl

  unfoldable pub operation : Transfer
  unfolding at
  operation = record {
    State = ReadUntilOpState;
    Arrival = ℤ;
    Kept = ℕ;
    Sane = λ e. Unit {0};
    step = step;
    initial = 0;
    respond = respond;
    at = at;
    completions_of = λ op. op.completions;
    reading_of = λ op. op.reading;
    stop_op_of = λ op. op.stop_op;
    step-move = λ e p s. step-move e p;
    completions-at = λ p. refl;
    reading-at = λ p. refl;
    stop_op-at = λ p. refl;
    sane_begin = tt;
    sane_request = tt;
    sane_stop = tt;
  }

-- ===== src/Signals/Sender.antt =====
-- TUponSignalOpState: the `upon_signal` adaptor, which waits for another sender first. That sender is
-- not part of this repository: `waiting` holds from `start` until it completes with a value.
use uvexec.Base.{
  ℕ, ◌≡◌, refl, ap, Bool, true, false, Option, some, List, [], ◌∷◌, arith, ltb, if◌then◌else◌, when,
  map_state,
}
use uvexec.Uv.{is_error, Signal, set_error, set_stopped}
use uvexec.Uv.Handle
use uvexec.Uv.Handle.{Handle}
use uvexec.StopOperation.{StopOperation, fresh, setup, reset, reset_unsafe, request, take_out}
use uvexec.OneShot
use uvexec.OneShot.{
  OneShot, View, Answers, Event, begins, occurs, requests, stops, closes, Phase, begin, move,
  IsSane,
}

pub record UponSignalOpState : Type 0 where
  pub stop_op : StopOperation
  pub signal : Handle
  pub signum : ℕ
  -- `Op` was started and has not completed
  pub waiting : Bool
  -- `Receiver` holds the receiver
  pub receiver : Bool
  -- an empty `Receiver` was dereferenced
  pub undefined : Bool
  -- what its receiver was completed with, the latest first
  pub completions : List (Signal (Unit {0}))

-- The constructor, under a stop token.
unfoldable pub connect : ℕ → Bool → UponSignalOpState
connect signum requested = record {
  stop_op = fresh requested;
  signal = Handle.raw;
  signum = signum;
  waiting = false;
  receiver = false;
  undefined = false;
  completions = [];
}

-- `stdexec::start`, which starts `Op`.
unfoldable pub start : UponSignalOpState → UponSignalOpState
start op = record op { waiting = true }

complete : Signal (Unit {0}) → UponSignalOpState → UponSignalOpState
complete s op = record op { completions = s ∷ op.completions }

-- After an error of `Init` the function goes on.
initialise : Answers → UponSignalOpState → UponSignalOpState
unfolding complete is_error
initialise u op =
    if is_error u.init
    then complete (set_error u.init) op
    else record op { signal = Handle.init op.signal }

unfoldable pub set_value : Answers → UponSignalOpState → UponSignalOpState
unfolding initialise complete setup is_error
set_value u op =
    let op' = initialise u op in
    if is_error u.start then complete (set_error u.start) op' else record op' {
      signal = Handle.start op.signum op'.signal;
      receiver = true;
      stop_op = setup op.stop_op;
    }

unfoldable pub signal_callback : UponSignalOpState → UponSignalOpState
unfolding reset
signal_callback op =
    let (s, used) = reset op.stop_op in
    if used
    then record op { stop_op = s }
    else record op { stop_op = s; signal = Handle.close op.signal }

-- `*std::move(Receiver)`, completed.
complete_receiver : Signal (Unit {0}) → UponSignalOpState → UponSignalOpState
unfolding complete
complete_receiver s op = if op.receiver then complete s op else record op { undefined = true }

unfoldable pub close_callback : UponSignalOpState → UponSignalOpState
unfolding reset_unsafe complete_receiver
close_callback op =
    let (s, empty) = reset_unsafe op.stop_op in
    complete_receiver (if empty then Signal.set_value tt else set_stopped)
      (record op { stop_op = s })

unfoldable pub stop_callback : UponSignalOpState → UponSignalOpState
stop_callback op = record op { signal = Handle.close (Handle.stop op.signal) }

-- What the loop, libuv and the other threads can do to the operation.
unfoldable pub step : Event → UponSignalOpState → Option UponSignalOpState
unfolding set_value signal_callback close_callback stop_callback request
step (begins u) op = when op.waiting (set_value u (record op { waiting = false }))
step occurs op =
    when (Handle.may_occur op.signal)
      (signal_callback (record op { signal = Handle.stop op.signal }))
step requests op = some (record op { stop_op = request op.stop_op })
step stops op =
    when (ltb 0 op.stop_op.scheduled) (stop_callback (record op { stop_op = take_out op.stop_op }))
step closes op =
    when (Handle.may_close op.signal)
      (close_callback (record op { signal = Handle.finish_close op.signal }))

-- The fields of the operation in each phase.
unfoldable pub at : ℕ → Phase → UponSignalOpState
at signum p = record {
  stop_op = OneShot.stop_op p;
  signal = OneShot.handle p;
  signum = signum;
  waiting = OneShot.queued p;
  receiver = OneShot.emplaced p;
  undefined = false;
  completions = OneShot.completions p;
}

abbrev pub number : ℕ → Answers → ℕ
number signum u = signum

module _ (signum : ℕ) where
  set_value-begin :
      (u : Answers) (r : Bool)
      → is_error u.init ≡ false
      → set_value u (record (at signum (Phase.idle r)) { waiting = false })
        ≡ at signum (begin (number signum) u r)
  unfolding set_value at begin OneShot.stop_op OneShot.handle
  set_value-begin u r h = ground arith

  pub step-move :
      (e : Event) (p : Phase)
      → IsSane e
      → step e (at signum p) ≡ map_state (at signum) (move (number signum) e p)
  unfolding step at move OneShot.stop_op OneShot.handle
  step-move (begins u) (Phase.idle r) h = ap some (set_value-begin u r h)
  step-move (begins u) p h = refl
  step-move occurs (Phase.stopping a true) h = refl
  step-move occurs (Phase.stopping a false) h = refl
  step-move requests (Phase.idle true) h = refl
  step-move requests (Phase.idle false) h = refl
  step-move requests (Phase.rejected e true) h = refl
  step-move requests (Phase.rejected e false) h = refl
  step-move requests (Phase.closing_done a true) h = refl
  step-move requests (Phase.closing_done a false) h = refl
  step-move requests (Phase.done a true) h = refl
  step-move requests (Phase.done a false) h = refl
  step-move stops (Phase.stopping a l) h = refl
  step-move closes (Phase.closing_stopped a) h = refl
  step-move e p h = refl

-- `connect` and `start` lead to the first phase.
pub start-connect : (signum : ℕ) (r : Bool) → start (connect signum r) ≡ at signum (Phase.idle r)
unfolding start connect at OneShot.stop_op OneShot.handle
start-connect signum r = refl

unfoldable pub operation : ℕ → OneShot
unfolding at
operation signum = record {
  State = UponSignalOpState;
  step = step;
  argument = number signum;
  at = at signum;
  completions_of = λ op. op.completions;
  handle_of = λ op. op.signal;
  stop_op_of = λ op. op.stop_op;
  step-move = step-move signum;
  completions-at = λ p. refl;
  handle-at = λ p. refl;
  stop_op-at = λ p. refl;
}

-- What the rest of the program can see of it.
abbrev pub view : UponSignalOpState → View
view op = (op.completions, op.signal, op.stop_op)

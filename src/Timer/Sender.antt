-- ===== src/Timer/Sender.antt =====
-- TAfterOpState: the `after` and `at` adaptors, which wait for another sender first. That sender is not
-- part of this repository: `waiting` holds from `start` until it completes with a value.
use uvexec.Base.{
  ℕ, ◌≡◌, refl, ap, Bool, true, false, Option, some, List, [], ◌∷◌, arith, ltb, if◌then◌else◌, when,
  map_state,
}
use uvexec.Uv.{is_error, Signal, set_error, set_stopped}
use uvexec.Uv.Handle
use uvexec.Uv.Handle.{Handle}
use uvexec.StopOperation.{StopOperation, fresh, setup, reset, reset_unsafe, request, take_out}
use uvexec.OneShot
use uvexec.OneShot.{
  OneShot, View, Answers, Event, begins, occurs, requests, stops, closes, Phase, begin, move,
  IsSane,
}
use uvexec.Timer.Timeout.{TimerType, start_timeout}

pub record AfterOpState : Type 0 where
  pub stop_op : StopOperation
  pub timer : Handle
  pub timeout : ℕ
  -- `Op` was started and has not completed
  pub waiting : Bool
  -- `Receiver` holds the receiver
  pub receiver : Bool
  -- an empty `Receiver` was dereferenced
  pub undefined : Bool
  -- what its receiver was completed with, the latest first
  pub completions : List (Signal (Unit {0}))

-- The constructor, under a stop token.
unfoldable pub connect : ℕ → Bool → AfterOpState
connect timeout requested = record {
  stop_op = fresh requested;
  timer = Handle.raw;
  timeout = timeout;
  waiting = false;
  receiver = false;
  undefined = false;
  completions = [];
}

-- `stdexec::start`, which starts `Op`.
unfoldable pub start : AfterOpState → AfterOpState
start op = record op { waiting = true }

complete : Signal (Unit {0}) → AfterOpState → AfterOpState
complete s op = record op { completions = s ∷ op.completions }

-- After an error of `Init` the function goes on.
initialise : Answers → AfterOpState → AfterOpState
unfolding complete is_error
initialise u op =
    if is_error u.init
    then complete (set_error u.init) op
    else record op { timer = Handle.init op.timer }

unfoldable pub set_value : TimerType → Answers → AfterOpState → AfterOpState
unfolding initialise complete setup start_timeout is_error
set_value type u op =
    let op' = initialise u op in
    if is_error u.start then complete (set_error u.start) op' else record op' {
      timer = Handle.start (start_timeout type op.timeout u.now) op'.timer;
      receiver = true;
      stop_op = setup op.stop_op;
    }

unfoldable pub after_callback : AfterOpState → AfterOpState
unfolding reset
after_callback op =
    let (s, used) = reset op.stop_op in
    if used
    then record op { stop_op = s }
    else record op { stop_op = s; timer = Handle.close op.timer }

-- `*std::move(Receiver)`, completed.
complete_receiver : Signal (Unit {0}) → AfterOpState → AfterOpState
unfolding complete
complete_receiver s op = if op.receiver then complete s op else record op { undefined = true }

unfoldable pub close_callback : AfterOpState → AfterOpState
unfolding reset_unsafe complete_receiver
close_callback op =
    let (s, empty) = reset_unsafe op.stop_op in
    complete_receiver (if empty then Signal.set_value tt else set_stopped)
      (record op { stop_op = s })

unfoldable pub stop_callback : AfterOpState → AfterOpState
stop_callback op = record op { timer = Handle.close (Handle.stop op.timer) }

-- What the loop, libuv and the other threads can do to the operation.
unfoldable pub step : TimerType → Event → AfterOpState → Option AfterOpState
unfolding set_value after_callback close_callback stop_callback request
step type (begins u) op = when op.waiting (set_value type u (record op { waiting = false }))
step type occurs op =
    when (Handle.may_occur op.timer) (after_callback (record op { timer = Handle.stop op.timer }))
step type requests op = some (record op { stop_op = request op.stop_op })
step type stops op =
    when (ltb 0 op.stop_op.scheduled) (stop_callback (record op { stop_op = take_out op.stop_op }))
step type closes op =
    when (Handle.may_close op.timer)
      (close_callback (record op { timer = Handle.finish_close op.timer }))

-- The fields of the operation in each phase.
unfoldable pub at : ℕ → Phase → AfterOpState
at timeout p = record {
  stop_op = OneShot.stop_op p;
  timer = OneShot.handle p;
  timeout = timeout;
  waiting = OneShot.queued p;
  receiver = OneShot.emplaced p;
  undefined = false;
  completions = OneShot.completions p;
}

abbrev pub due : TimerType → ℕ → Answers → ℕ
due type timeout u = start_timeout type timeout u.now

module _ (type : TimerType) (timeout : ℕ) where
  set_value-begin :
      (u : Answers) (r : Bool)
      → is_error u.init ≡ false
      → set_value type u (record (at timeout (Phase.idle r)) { waiting = false })
        ≡ at timeout (begin (due type timeout) u r)
  unfolding set_value at begin OneShot.stop_op OneShot.handle
  set_value-begin u r h = ground arith

  pub step-move :
      (e : Event) (p : Phase)
      → IsSane e
      → step type e (at timeout p) ≡ map_state (at timeout) (move (due type timeout) e p)
  unfolding step at move OneShot.stop_op OneShot.handle
  step-move (begins u) (Phase.idle r) h = ap some (set_value-begin u r h)
  step-move (begins u) p h = refl
  step-move occurs (Phase.stopping a true) h = refl
  step-move occurs (Phase.stopping a false) h = refl
  step-move requests (Phase.idle true) h = refl
  step-move requests (Phase.idle false) h = refl
  step-move requests (Phase.rejected e true) h = refl
  step-move requests (Phase.rejected e false) h = refl
  step-move requests (Phase.closing_done a true) h = refl
  step-move requests (Phase.closing_done a false) h = refl
  step-move requests (Phase.done a true) h = refl
  step-move requests (Phase.done a false) h = refl
  step-move stops (Phase.stopping a l) h = refl
  step-move closes (Phase.closing_stopped a) h = refl
  step-move e p h = refl

-- `connect` and `start` lead to the first phase.
pub start-connect : (timeout : ℕ) (r : Bool) → start (connect timeout r) ≡ at timeout (Phase.idle r)
unfolding start connect at OneShot.stop_op OneShot.handle
start-connect timeout r = refl

unfoldable pub operation : TimerType → ℕ → OneShot
unfolding at
operation type timeout = record {
  State = AfterOpState;
  step = step type;
  argument = due type timeout;
  at = at timeout;
  completions_of = λ op. op.completions;
  handle_of = λ op. op.timer;
  stop_op_of = λ op. op.stop_op;
  step-move = step-move type timeout;
  completions-at = λ p. refl;
  handle-at = λ p. refl;
  stop_op-at = λ p. refl;
}

-- What the rest of the program can see of it.
abbrev pub view : AfterOpState → View
view op = (op.completions, op.timer, op.stop_op)

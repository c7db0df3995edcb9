-- ===== src/Timer/Laws.antt =====
-- What the timer operations do: after_op_state.hpp.
use uvexec.Base.{
  ℕ, ◌+◌, ◌≤◌, ◌≡◌, refl, sym, ◌∙◌, Bool, true, false, some, List, [], ◌∷◌, arith, length, All, run,
  map_state, run-cons,
}
use Prim.Native.Nat.{max}
use uvexec.OneShot.{Answers, Event, begins, occurs, stops, closes, Phase, IsSane}
use uvexec.Uv.{is_error, Signal, set_value, set_error, set_stopped}
use uvexec.OneShot.Laws.{IsSafe, run-IsSafe, run-CanFinish, run-bounded, run-view, work}
use uvexec.Timer.Timeout.{TimerType, start_timeout}
use uvexec.StopOperation.{setup, fresh}
use uvexec.Uv.Handle
use uvexec.Timer.Schedule
use uvexec.Timer.Sender
use uvexec.Timer.Schedule.{AfterScheduleOpState}

-- A timer of type `at` that is started at time `now` expires at its deadline, or at `now` if that has passed;
-- one of type `after` runs for its whole timeout.
pub start_timeout_deadline :
    (timeout now : ℕ)
    → (now + start_timeout TimerType.at timeout now ≡ max timeout now)
      × (start_timeout TimerType.after timeout now ≡ timeout)
unfolding start_timeout
start_timeout_deadline timeout now = ground arith

module _ (type : TimerType) (timeout : ℕ) (r : Bool) (es : List Event) (sane : All IsSane es) where
  started :
      run (Schedule.step type) es (Schedule.start (Schedule.connect timeout r))
      ≡ run (Schedule.step type) es (Schedule.at timeout (Phase.idle r))
  started = rw (Schedule.start-connect timeout r)

  -- Whatever happens to a started `TAfterScheduleOpState`, if `Init` does not fail: its receiver is completed at most
  -- once, the timer is closed at most once, and the stop operation is in the loop's list at most once; it is
  -- completed with a value only when the timer is closed, and stopped only then and only when that was requested.
  pub timer-IsSafe :
      (s : AfterScheduleOpState)
      → run (Schedule.step type) es (Schedule.start (Schedule.connect timeout r)) ≡ some s
      → IsSafe s.completions s.timer s.stop_op
  unfolding Schedule.operation
  timer-IsSafe s h = run-IsSafe (Schedule.operation type timeout) es r s sane (sym started ∙ h)

  -- Of all that happens to a started `TAfterScheduleOpState`, if `Init` does not fail, at most five events are not
  -- stop requests; and from wherever it got, events can follow after which its receiver was completed exactly once.
  pub timer_finishes :
      (s : AfterScheduleOpState)
      → run (Schedule.step type) es (Schedule.start (Schedule.connect timeout r)) ≡ some s
      → (work es ≤ 5)
        × (fs : List Event) × (t : AfterScheduleOpState) × All IsSane fs
        × (run (Schedule.step type) fs s ≡ some t)
        × (length t.completions ≡ 1)
  unfolding Schedule.operation
  timer_finishes s h =
      let e = sym started ∙ h in
      let (fs, t, sane', reach, once) =
        run-CanFinish (Schedule.operation type timeout) es r s sane e in
      (run-bounded (Schedule.operation type timeout) es r s sane e, fs, t, sane', reach, once)

-- The adaptor, from the moment its sender completes with a value, cannot be told from the scheduled
-- operation: after the same events, if `Init` does not fail, the two have the same completions, timer and stop
-- operation.
pub after_sender-schedule :
    (type : TimerType) (timeout : ℕ) (r : Bool) (es : List Event)
    → All IsSane es
    → map_state Sender.view (run (Sender.step type) es (Sender.start (Sender.connect timeout r)))
      ≡ map_state Schedule.view
          (run (Schedule.step type) es (Schedule.start (Schedule.connect timeout r)))
unfolding Schedule.operation Sender.operation
after_sender-schedule type timeout r es sane =
    rw (Sender.start-connect timeout r, Schedule.start-connect timeout r)
      (run-view (Sender.operation type timeout) es r sane
        ∙ sym (run-view (Schedule.operation type timeout) es r sane))

-- The operation after `Apply` where `Init` failed and `TimerStart` did not.
armed_anyway : TimerType → ℕ → Bool → Answers → AfterScheduleOpState
armed_anyway type timeout r u = record {
  stop_op = setup (fresh r);
  timer = Handle.start (start_timeout type timeout u.now) Handle.raw;
  timeout = timeout;
  queued = false;
  completions = set_error u.init ∷ [];
}

module _ (type : TimerType) (timeout : ℕ) (u : Answers) (failed : is_error u.init ≡ true) where
  apply-armed_anyway :
      (r : Bool)
      → is_error u.start ≡ false
      → Schedule.step type (begins u) (Schedule.start (Schedule.connect timeout r))
        ≡ some (armed_anyway type timeout r u)
  unfolding Schedule.step Schedule.connect Schedule.start armed_anyway
  apply-armed_anyway r h = ground arith

  -- The operation when its handle is closed in spite of that.
  finished : Bool → Signal (Unit {0}) → AfterScheduleOpState
  finished r c = record {
    stop_op = record { requested = r; used = true; engaged = false; scheduled = 0 };
    timer = record Handle.raw {
      argument = start_timeout type timeout u.now;
      closes = 1;
      closed = true;
    };
    timeout = timeout;
    queued = false;
    completions = c ∷ set_error u.init ∷ [];
  }

  abbrev Twice : Bool → Type 0
  Twice r =
      (es : List Event) × (s : AfterScheduleOpState) × (run (Schedule.step type) es
          (Schedule.start (Schedule.connect timeout r))
        ≡ some s)
      × (length s.completions ≡ 2)

  -- `TimerStart` fails too, or it does not, and then the timer expires or the operation is stopped.
  twice : (r b : Bool) → is_error u.start ≡ b → Twice r
  unfolding Schedule.step Schedule.start Schedule.connect armed_anyway finished
  twice r true h = (
    begins u ∷ [],
    record (Schedule.connect timeout r) { completions = set_error u.start ∷ set_error u.init ∷ [] },
    ground arith,
    refl,
  )
  twice true false h = (
    begins u ∷ stops ∷ closes ∷ [],
    finished true set_stopped,
    run-cons (Schedule.step type) (begins u) (stops ∷ closes ∷ [])
        (Schedule.start (Schedule.connect timeout true)) (apply-armed_anyway true h) refl,
    refl,
  )
  twice false false h = (
    begins u ∷ occurs ∷ closes ∷ [],
    finished false (set_value tt),
    run-cons (Schedule.step type) (begins u) (occurs ∷ closes ∷ [])
        (Schedule.start (Schedule.connect timeout false)) (apply-armed_anyway false h) refl,
    refl,
  )

  -- When `Init` reports an error, `Apply` completes the receiver and goes on: there are events after
  -- which the receiver was completed twice.
  pub init_error_completes_twice :
      (r : Bool)
      → (es : List Event) × (s : AfterScheduleOpState) × (run
            (Schedule.step type)
            es
            (Schedule.start (Schedule.connect timeout r))
          ≡ some s)
        × (length s.completions ≡ 2)
  init_error_completes_twice r = twice r (is_error u.start) refl

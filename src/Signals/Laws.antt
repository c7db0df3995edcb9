-- ===== src/Signals/Laws.antt =====
-- What the signal operations do: upon_signal_op_state.hpp.
use uvexec.Base.{ℕ, ◌≤◌, ◌≡◌, sym, ◌∙◌, Bool, some, List, [], ◌∷◌, length, All, run, map_state}
use uvexec.OneShot.{Event, Phase, IsSane}
use uvexec.Uv.{set_error, Errc}
use uvexec.OneShot.Laws.{
  IsSafe, run-IsSafe, run-CanFinish, run-bounded, run-view, IsLeaking, run-IsLeaking, work,
}
use uvexec.Signals.Schedule
use uvexec.Signals.Sender
use uvexec.Signals.Schedule.{UponSignalScheduleOpState}

module _ (signum : ℕ) (r : Bool) (es : List Event) (sane : All IsSane es) where
  started :
      run (Schedule.step) es (Schedule.start (Schedule.connect signum r))
      ≡ run (Schedule.step) es (Schedule.at signum (Phase.idle r))
  started = rw (Schedule.start-connect signum r)

  -- Whatever happens to a started `TUponSignalScheduleOpState`, if `Init` does not fail: its receiver is completed at
  -- most once, the handle is closed at most once, and the stop operation is in the loop's list at most once; it is
  -- completed with a value only when the handle is closed, and stopped only then and only when that was requested.
  pub signal-IsSafe :
      (s : UponSignalScheduleOpState)
      → run (Schedule.step) es (Schedule.start (Schedule.connect signum r)) ≡ some s
      → IsSafe s.completions s.signal s.stop_op
  unfolding Schedule.operation
  signal-IsSafe s h = run-IsSafe (Schedule.operation signum) es r s sane (sym started ∙ h)

  -- Of all that happens to a started `TUponSignalScheduleOpState`, if `Init` does not fail, at most five events are
  -- not stop requests; and from wherever it got, events can follow after which its receiver was completed exactly
  -- once.
  pub signal_finishes :
      (s : UponSignalScheduleOpState)
      → run (Schedule.step) es (Schedule.start (Schedule.connect signum r)) ≡ some s
      → (work es ≤ 5)
        × (fs : List Event) × (t : UponSignalScheduleOpState) × All IsSane fs
        × (run (Schedule.step) fs s ≡ some t)
        × (length t.completions ≡ 1)
  unfolding Schedule.operation
  signal_finishes s h =
      let e = sym started ∙ h in
      let (fs, t, sane', reach, once) = run-CanFinish (Schedule.operation signum) es r s sane e in
      (run-bounded (Schedule.operation signum) es r s sane e, fs, t, sane', reach, once)

-- The adaptor, from the moment its sender completes with a value, cannot be told from the scheduled
-- operation: after the same events, if `Init` does not fail, the two have the same completions, signal and stop
-- operation.
pub upon_signal_sender-schedule :
    (signum : ℕ) (r : Bool) (es : List Event)
    → All IsSane es
    → map_state Sender.view (run (Sender.step) es (Sender.start (Sender.connect signum r)))
      ≡ map_state Schedule.view
          (run (Schedule.step) es (Schedule.start (Schedule.connect signum r)))
unfolding Schedule.operation Sender.operation
upon_signal_sender-schedule signum r es sane =
    rw (Sender.start-connect signum r, Schedule.start-connect signum r)
      (run-view (Sender.operation signum) es r sane
        ∙ sym (run-view (Schedule.operation signum) es r sane))

-- An operation that completed with an error, where `Init` does not fail, because libuv refused to start its handle, such as for a
-- signal number that does not exist, leaves the initialised handle in the loop: it is not closed.
pub start_error_leaves_open :
    (signum : ℕ) (r : Bool) (es : List Event) (s : UponSignalScheduleOpState) (err : Errc)
    → All IsSane es
    → run Schedule.step es (Schedule.start (Schedule.connect signum r)) ≡ some s
    → s.completions ≡ set_error err ∷ []
    → IsLeaking s.signal
unfolding Schedule.operation
start_error_leaves_open signum r es s err sane h =
    run-IsLeaking (Schedule.operation signum) es r s err sane
      (rw (Schedule.start-connect signum r) at h)

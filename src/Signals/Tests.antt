-- ===== src/Signals/Tests.antt =====
-- Runs of the signal operations, and the laws at them.
use uvexec.Base.{◌≡◌, refl, true, false, some, List, [], ◌∷◌, pos, negsuc, All, run}
use uvexec.Uv.{is_error, set_value, set_error}
use uvexec.StopOperation
use uvexec.OneShot.{Answers, Event, begins, occurs, requests, closes, IsSane}
use uvexec.Signals.Schedule
use uvexec.Signals.Schedule.{UponSignalScheduleOpState}

abbrev answers : Answers
answers = record { init = pos 0; now = 0; start = pos 0 }

-- The signal comes, and a stop request is too late.
abbrev signalled : List Event
signalled = begins answers ∷ occurs ∷ requests ∷ closes ∷ []

abbrev done : UponSignalScheduleOpState
done = record {
  stop_op = StopOperation.state true true false 0;
  signal = record { inited = true; started = false; argument = 15; closes = 1; closed = true };
  signum = 15;
  queued = false;
  completions = set_value tt ∷ [];
}

signalled-IsSane : All IsSane signalled
unfolding is_error
signalled-IsSane = (refl, (tt, (tt, (tt, tt))))

signalled-run : run Schedule.step signalled (Schedule.start (Schedule.connect 15 false)) ≡ some done
unfolding Schedule.step Schedule.start Schedule.connect
signalled-run = refl

-- libuv refuses signal 0.
abbrev refused : List Event
refused = begins (record { init = pos 0; now = 0; start = negsuc 21 }) ∷ []

abbrev failed : UponSignalScheduleOpState
failed = record {
  stop_op = StopOperation.fresh false;
  signal = record { inited = true; started = false; argument = 0; closes = 0; closed = false };
  signum = 0;
  queued = false;
  completions = set_error (negsuc 21) ∷ [];
}

refused-IsSane : All IsSane refused
unfolding is_error
refused-IsSane = (refl, tt)

refused-run : run Schedule.step refused (Schedule.start (Schedule.connect 0 false)) ≡ some failed
unfolding Schedule.step Schedule.start Schedule.connect
refused-run = refl

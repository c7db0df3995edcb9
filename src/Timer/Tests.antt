-- ===== src/Timer/Tests.antt =====
-- Runs of the timers, and the laws at them.
use uvexec.Base.{
  ◌≤◌, ◌≡◌, refl, true, false, some, List, [], ◌∷◌, pos, negsuc, length, All, run, map_state,
}
use uvexec.Uv.{is_error, set_stopped}
use uvexec.StopOperation
use uvexec.OneShot.{Answers, Event, begins, occurs, requests, stops, closes, IsSane}
use uvexec.OneShot.Laws.{IsSafe, work}
use uvexec.Timer.Timeout.{TimerType}
use uvexec.Timer.Schedule
use uvexec.Timer.Schedule.{AfterScheduleOpState}
use uvexec.Timer.Sender
use uvexec.Timer.Laws.{timer-IsSafe, timer_finishes, after_sender-schedule}

abbrev answers : Answers
answers = record { init = pos 0; now = 10; start = pos 0 }

-- The timer expires while a stop request is under way, which has its way.
abbrev raced : List Event
raced = begins answers ∷ requests ∷ occurs ∷ stops ∷ closes ∷ []

abbrev stopped : AfterScheduleOpState
stopped = record {
  stop_op = StopOperation.state true true false 0;
  timer = record { inited = true; started = false; argument = 7; closes = 1; closed = true };
  timeout = 7;
  queued = false;
  completions = set_stopped ∷ [];
}

raced-IsSane : All IsSane raced
unfolding is_error
raced-IsSane = (refl, (tt, (tt, (tt, (tt, tt)))))

raced-run :
    run (Schedule.step TimerType.after) raced (Schedule.start (Schedule.connect 7 false))
    ≡ some stopped
unfolding Schedule.step Schedule.start Schedule.connect
raced-run = refl

timer-IsSafe_example : IsSafe stopped.completions stopped.timer stopped.stop_op
timer-IsSafe_example = timer-IsSafe TimerType.after 7 false raced raced-IsSane stopped raced-run

timer_finishes_example :
    (work raced ≤ 5)
    × (fs : List Event) × (t : AfterScheduleOpState) × All IsSane fs
    × (run (Schedule.step TimerType.after) fs stopped ≡ some t)
    × (length t.completions ≡ 1)
timer_finishes_example = timer_finishes TimerType.after 7 false raced raced-IsSane stopped raced-run

after_sender-schedule_example :
    map_state Sender.view
      (run (Sender.step TimerType.at) raced (Sender.start (Sender.connect 17 false)))
    ≡ map_state Schedule.view
        (run (Schedule.step TimerType.at) raced (Schedule.start (Schedule.connect 17 false)))
after_sender-schedule_example = after_sender-schedule TimerType.at 17 false raced raced-IsSane

abbrev refused : Answers
refused = record { init = negsuc 11; now = 10; start = pos 0 }

init_fails : is_error refused.init ≡ true
unfolding is_error
init_fails = refl

-- ===== src/Schedule/Tests.antt =====
-- A run of a scheduled operation, and the law at it.
use uvexec.Base.{◌≡◌, refl, true, false, some, List, [], ◌∷◌, run}
use uvexec.Uv.{set_stopped}
use uvexec.Schedule.{ScheduleOpState, connect, start, Event, requests, applies, step}

abbrev late : List Event
late = requests ∷ applies ∷ requests ∷ []

abbrev was_stopped : ScheduleOpState
was_stopped = record { requested = true; queued = false; completions = set_stopped ∷ [] }

late-run : run step late (start (connect false)) ≡ some was_stopped
unfolding step start connect
late-run = refl

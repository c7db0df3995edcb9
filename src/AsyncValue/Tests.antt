-- ===== src/AsyncValue/Tests.antt =====
-- Runs of async_value, and the laws at them.
use uvexec.Base.{◌≤◌, ◌≡◌, refl, true, some, List, [], ◌∷◌, length, run}
use uvexec.Scope.{value, stopped}
use uvexec.AsyncValue.Finish.{async_value_finishes}
use uvexec.AsyncValue.{
  body_runs, swallowed, finished, AsyncValueOpState, Types, connect, start, complete_inner,
  complete_drop, reset_callback, reset_value, set_value, emplace_callback, stop_callback,
  catch_exception, Event, starts, inner, body, drops, resets, requests, step,
}
use uvexec.AsyncValue.Invariant.{IsOwned}
use uvexec.AsyncValue.Laws.{
  nothrow, throwing, async_value-IsOwned, course_completes, stop_strays, exception_swallowed,
}

-- a server that can be asked to stop, made by a function that is declared noexcept
abbrev server : Types
server = record { is_value_stop_source = true; fn_noexcept = true }

-- a stop request before the value exists
abbrev stopped_early : List Event
stopped_early =
    requests ∷ starts ∷ inner (value 0) nothrow ∷ body stopped ∷ drops (value 0) ∷ resets ∷ []

abbrev after_stop : AsyncValueOpState
after_stop = record connect {
  stage = finished;
  constructed = 1;
  destroyed = 1;
  requested = true;
  value_stops = 1;
  completions = stopped ∷ [];
}

run_of_stopped : run (step server) stopped_early connect ≡ some after_stop
unfolding step start complete_inner complete_drop reset_callback set_value emplace_callback
    stop_callback connect reset_value
run_of_stopped = refl

async_value-IsOwned_example : IsOwned server after_stop
async_value-IsOwned_example = async_value-IsOwned server stopped_early after_stop run_of_stopped

course_completes_example :
    (run
        (step server)
        (starts ∷ inner (value 0) nothrow ∷ body stopped ∷ drops (value 0) ∷ resets ∷ [])
        connect
      ≡ some (record connect {
        stage = finished;
        constructed = 1;
        destroyed = 1;
        completions = stopped ∷ [];
      }))
    × (run
          (step server)
          (starts
            ∷ inner (value 0) nothrow
            ∷ requests
            ∷ body stopped
            ∷ drops (value 0)
            ∷ resets
            ∷ [])
          connect
        ≡ some (record connect {
          stage = finished;
          constructed = 1;
          destroyed = 1;
          requested = true;
          value_stops = 1;
          completions = stopped ∷ [];
        }))
course_completes_example = course_completes server 0 0 stopped

stop_strays_example :
    run
      (step server)
      (starts ∷ inner (value 0) nothrow ∷ body (value 1) ∷ drops (value 0) ∷ requests ∷ resets ∷ [])
      connect
    ≡ some (record connect {
      stage = finished;
      constructed = 1;
      destroyed = 1;
      requested = true;
      stray_stops = 1;
      completions = value 1 ∷ [];
    })
stop_strays_example = stop_strays server 0 0 (value 1) refl

-- nothing but a stop request can follow
abbrev dropped : AsyncValueOpState
dropped = record connect {
  stage = swallowed;
  value_engaged = true;
  callback_engaged = true;
  constructed = 1;
  requested = true;
  value_stops = 1;
}

run_of_dropped :
    run (step server) (starts ∷ inner (value 0) throwing ∷ requests ∷ []) connect ≡ some dropped
unfolding step start complete_inner set_value emplace_callback stop_callback catch_exception connect
run_of_dropped = refl

exception_swallowed_example : (dropped.completions ≡ []) × (dropped.stage ≡ swallowed)
exception_swallowed_example =
    exception_swallowed server 0 (requests ∷ []) dropped refl run_of_dropped

-- in the middle of the body
abbrev body_running : AsyncValueOpState
body_running = record connect {
  stage = body_runs;
  value_engaged = true;
  callback_engaged = true;
  constructed = 1;
}

run_to_body : run (step server) (starts ∷ inner (value 0) nothrow ∷ []) connect ≡ some body_running
unfolding step start complete_inner set_value emplace_callback stop_callback connect
run_to_body = refl

async_value_finishes_example :
    (fs : List Event) × (z : AsyncValueOpState) × (length fs ≤ 3)
    × (run (step server) fs body_running ≡ some z)
    × (length z.completions ≡ 1)
async_value_finishes_example =
    async_value_finishes server (starts ∷ inner (value 0) nothrow ∷ []) body_running run_to_body
      refl

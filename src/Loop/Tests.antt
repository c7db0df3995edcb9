-- ===== src/Loop/Tests.antt =====
-- Runs of two threads, and the laws at them.
use uvexec.Base.{zero, ◌≡◌, refl, true, false, some, List, [], ◌∷◌, ◌==◌, if◌then◌else◌, run}
use uvexec.Loop.{
  Place, executing, returned, leaving, queued, Loop, new, run_or_pass, acquire_if_not_finished,
  wakeup_next, acquire, proceed, advance, wakeup_receiver, Event, acquires, proceeds, advances,
  completes, step,
}
use uvexec.Loop.Exclusion.{run_alone}

-- Thread 0 gets into uv_run, and thread 1 into the queue.
abbrev crowded : List Event
crowded = acquires 0 ∷ proceeds 0 ∷ acquires 1 ∷ proceeds 1 ∷ []

after_crowd :
    (l : Loop) × (run step crowded (new (λ t. false)) ≡ some l)
    × (l.place 0 ≡ executing)
    × (l.place 1 ≡ queued)
unfolding step acquire proceed run_or_pass
after_crowd = (_, refl, refl, refl)

run_alone_example : zero ≡ zero
run_alone_example =
    run_alone (λ t. false) crowded after_crowd.0 0 0 after_crowd.1 after_crowd.2 after_crowd.2

-- Thread 0 leaves while thread 1 stands at this place.
abbrev leaving_beside : Place → Loop
leaving_beside p = record {
  running = true;
  locked = true;
  runners = 1 ∷ [];
  awakenings = λ t. 1;
  acquired = λ t. false;
  stopping = false;
  steals = λ t. false;
  place = λ t. if t == 1 then p else leaving;
}

-- Thread 0 is in sync_wait: it runs the loop itself, where its sender completes.
abbrev stealing : List Event
stealing = advances 0 ∷ acquires 0 ∷ proceeds 0 ∷ []

abbrev waiting : List Event
waiting =
    advances 0
    ∷ acquires 0
    ∷ proceeds 0
    ∷ completes 0 0
    ∷ advances 0
    ∷ acquires 0
    ∷ proceeds 0
    ∷ advances 0
    ∷ []

after_stealing :
    (l : Loop) × (run step stealing (new (λ t. true)) ≡ some l) × (l.place 0 ≡ executing)
unfolding step acquire proceed advance run_or_pass acquire_if_not_finished
after_stealing = (_, refl, refl)

after_waiting : (l : Loop) × (run step waiting (new (λ t. true)) ≡ some l) × (l.place 0 ≡ returned)
unfolding step acquire proceed advance run_or_pass acquire_if_not_finished wakeup_receiver
    wakeup_next
after_waiting = (_, refl, refl)

completing : (z : Loop) × (step (completes 0 0) after_stealing.0 ≡ some z)
unfolding step wakeup_receiver after_stealing
completing = (_, refl)

-- Thread 1 sleeps in Wait while thread 0 runs the loop, where both senders complete.
abbrev finished_beside : Loop
finished_beside = record (leaving_beside (Place.sleeping 1)) {
  locked = false;
  awakenings = λ t. 0;
  steals = λ t. true;
}

-- Thread 0 is in sync_wait and runs the loop once; then thread 1 runs it, and thread 0 goes for the mutex.
abbrev beside_runner : List Event
beside_runner =
    advances 0
    ∷ acquires 0
    ∷ proceeds 0
    ∷ advances 0
    ∷ acquires 0
    ∷ proceeds 0
    ∷ acquires 1
    ∷ proceeds 1
    ∷ advances 0
    ∷ []

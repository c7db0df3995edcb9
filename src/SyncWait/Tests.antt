-- ===== src/SyncWait/Tests.antt =====
-- sync_wait on concrete runs of its two threads.
use uvexec.Base.{◌≡◌, refl, true, none, some, List, [], ◌∷◌, run}
use uvexec.SyncWait.{returns}
use uvexec.Loop
use uvexec.SyncWait.Call.{
  Calls, Completion, value, Event, acquires, proceeds, advances, completes, step, begin, sync_wait,
  last_completion, outcome_of, sync_wait_completed,
}

-- Thread 0 runs the loop in sync_wait, where its sender completes with two values.
abbrev waiting : List Event
waiting =
    advances 0
    ∷ acquires 0
    ∷ proceeds 0
    ∷ completes 0 0 (value (4 ∷ 2 ∷ []) none)
    ∷ advances 0
    ∷ acquires 0
    ∷ proceeds 0
    ∷ advances 0
    ∷ []

after_waiting :
    (z : Calls) × (run step waiting (begin (λ t. true)) ≡ some z)
    × (sync_wait 0 z ≡ some (returns (4 ∷ 2 ∷ [])))
unfolding step sync_wait Loop.acquire Loop.proceed Loop.advance Loop.run_or_pass
    Loop.acquire_if_not_finished Loop.wakeup_receiver Loop.wakeup_next
after_waiting = (_, refl, refl)

sync_wait_completed_example :
    (c : Completion) × (last_completion waiting 0 ≡ some c) × (returns (4 ∷ 2 ∷ []) ≡ outcome_of c)
sync_wait_completed_example =
    sync_wait_completed (λ t. true) waiting after_waiting.0 0 (returns (4 ∷ 2 ∷ [])) refl
      after_waiting.1 after_waiting.2

-- ===== src/Loop/Stale.antt =====
-- `Acq` of a runner is never reset: what that does to a thread whose sender completes between two rounds of RunnerSteal.
use uvexec.Base.{ℕ, true, false, List, [], ◌∷◌}
use uvexec.Loop.{
  entered, executing, leaving, returning, returned, Loop, go, put, wakeup_next, Event, acquires,
  proceeds, advances, completes,
}

-- The sender of thread `t` completes on thread `u`, which leaves the loop; then `t` takes the mutex.
abbrev pub overtaking : (t u : ℕ) → List Event
overtaking t u = completes u t ∷ advances u ∷ acquires u ∷ proceeds u ∷ acquires t ∷ proceeds t ∷ []

module _ (t u : ℕ) (l : Loop) where
  abbrev completed : Loop
  completed = record l { awakenings = put l.awakenings t 0; stopping = true }

  abbrev back : Loop
  back = record completed { stopping = false; place = go completed u returning }

  abbrev locks : Loop
  locks = record back { locked = true; place = go back u leaving }

  abbrev left : Loop
  left = record locks {
    locked = false;
    running = false;
    runners = (wakeup_next locks.runners locks.awakenings).0;
    awakenings = (wakeup_next locks.runners locks.awakenings).1;
    place = go locks u returned;
  }

  abbrev entered_again : Loop
  entered_again = record left { locked = true; place = go left t entered }

  abbrev runs_again : Loop
  runs_again = record entered_again {
    locked = false;
    running = true;
    acquired = put l.acquired t true;
    place = go entered_again t executing;
  }

-- ===== src/Loop/Finish.antt =====
-- A thread in sync_wait that waits for the loop returns when its sender has completed.
use uvexec.Base.{ℕ, ◌≡◌, true, false, List, [], ◌∷◌}
use uvexec.IntrusiveList.Chain.{remove}
use uvexec.Loop.{
  checking, sleeping, rejoining, erasing, returned, Loop, go, Event, acquires, proceeds, advances,
}

module _ (t : ℕ) where
  -- The last steps of RunnerSteal: out of Wait, the mutex, Erase, and the test of the runner.
  abbrev pub way_out : List Event
  way_out = advances t ∷ acquires t ∷ proceeds t ∷ advances t ∷ []

  module _ (l : Loop) (w : ℕ) (waits : l.steals t ≡ true) (free : l.locked ≡ false)
      (over : l.awakenings t ≡ 0) (asleep : l.place t ≡ sleeping w) where
    rejoined : Loop
    rejoined = record l { place = go l t rejoining }

    locked_again : Loop
    unfolding rejoined
    locked_again = record rejoined { locked = true; place = go rejoined t erasing }

    erased : Loop
    unfolding locked_again
    erased = record locked_again {
      locked = false;
      runners = remove t l.runners;
      place = go locked_again t checking;
    }

    out : Loop
    unfolding erased
    out = record erased { place = go erased t returned }

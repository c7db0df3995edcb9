-- ===== src/OperationList/Tests.antt =====
-- Two threads that push at the same time, and the laws at their run.
use uvexec.Base.{
  ◌<◌, ◌≡◌, refl, true, false, some, List, [], ◌∷◌, reverse, arith, ◌==◌, if◌then◌else◌, length,
  All, run,
}
use uvexec.IntrusiveList.{Ptr}
use uvexec.OperationList.{Place, outside, listed, Shared, Action, load, link, exchange, step, empty}
use uvexec.OperationList.Push.{IsStack, IsSane, effect}
use uvexec.OperationList.Runs.{contents, run_applies}
use uvexec.OperationList.Grab.{Polite, apply_operations}

-- Operation 5 overtakes operation 3, whose first exchange fails.
abbrev overtaken : List Action
overtaken =
    load 3
    ∷ link 3
    ∷ load 5
    ∷ link 5
    ∷ exchange 5 false
    ∷ exchange 3 false
    ∷ link 3
    ∷ exchange 3 true
    ∷ link 3
    ∷ exchange 3 false
    ∷ []

-- The list after these steps.
after_overtaking : (s : Shared) × (run step overtaken empty ≡ some s)
unfolding step
after_overtaking = (_, refl)

overtaken-IsSane : All IsSane overtaken
overtaken-IsSane = (
  omega arith,
  (
    omega arith,
    (
      omega arith,
      (
        omega arith,
        (
          omega arith,
          (omega arith, (omega arith, (omega arith, (omega arith, (omega arith, tt))))),
        ),
      ),
    ),
  ),
)

overtaken-contents : contents overtaken empty [] ≡ 3 ∷ 5 ∷ []
unfolding contents step effect
overtaken-contents = refl

-- An `Apply` that schedules the operation again.
abbrev schedules_again : Ptr → (Ptr → Ptr) → Ptr → Ptr
schedules_again op next a = if a == op then 9 else next a

polite : Polite schedules_again (contents overtaken empty [])
polite op a next member other = ground arith

enough : length (contents overtaken empty []) < 3
enough = rw overtaken-contents (omega arith)

run_applies_example :
    apply_operations 3 schedules_again after_overtaking.0
    ≡ some (reverse (contents overtaken empty []))
run_applies_example =
    run_applies overtaken after_overtaking.0 3 schedules_again overtaken-IsSane after_overtaking.1
      polite enough

abbrev one_listed : Shared
one_listed = record {
  head = 3;
  next = λ a. if a == 5 then 3 else 0;
  place = λ a. if a == 3 then listed else if a == 5 then Place.linked 3 else outside;
}

one_listed-IsStack : IsStack one_listed (3 ∷ [])
one_listed-IsStack = record {
  chain = (refl, omega arith, refl, refl);
  members = λ a. ground arith;
  own = λ a cur h. ground arith;
}

push : (t : Shared) × (step (exchange 5 false) one_listed ≡ some t)
unfolding step
push = (_, refl)

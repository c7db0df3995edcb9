-- ===== src/OperationList/Runs.antt =====
-- Whole runs of the threads, on a list that was empty.
use uvexec.Base.{
  ℕ, ◌<◌, ◌≡◌, refl, subst, none, some, List, [], ◌∷◌, arith, reverse, length, All, run,
  and_then-eq-some,
}
use uvexec.IntrusiveList.{Ptr}
use uvexec.OperationList.{Shared, Action, step, empty}
use uvexec.OperationList.Push.{IsStack, IsSane, effect, step-IsStack}
use uvexec.OperationList.Grab.{Polite, apply_operations, apply_operations-reverse}

-- What the list holds after a run, by the effects of its actions.
unfoldable pub contents : List Action → Shared → List Ptr → List Ptr
contents [] s xs = xs
contents (a ∷ moves) s xs = elim (step a s) [
  | none ↦ xs
  | some t ↦ contents moves t (effect a s xs)
]

pub empty-IsStack : IsStack empty []
empty-IsStack = record { chain = refl; members = λ a. refl; own = λ a cur h. absurd (cc) }

run-IsStack :
    (moves : List Action) (s t : Shared) (xs : List Ptr)
    → All IsSane moves
    → IsStack s xs
    → run step moves s ≡ some t
    → IsStack t (contents moves s xs)
unfolding contents
run-IsStack [] s t xs sane l h = let same : s ≡ t = ground arith in subst (λ z. IsStack z xs) same l
run-IsStack (a ∷ moves) s t xs (sane, rest) l h =
    let (s', first, onward) = and_then-eq-some (step a s) (run step moves) h in
    rw (contents, first)
      (run-IsStack moves s' t (effect a s xs) rest (step-IsStack s xs l a s' sane first) onward)

-- After any interleaving of the threads' steps from an empty list, `ApplyOperations` terminates, on fuel beyond the
-- number of operations, and applies exactly the operations whose exchange succeeded since the list was last
-- taken, each once and in the order of their exchanges; what `Apply` does is any change of `Next` fields that
-- leaves those of other listed operations alone.
pub run_applies :
    (moves : List Action) (t : Shared) (fuel : ℕ) (apply : Ptr → (Ptr → Ptr) → Ptr → Ptr)
    → All IsSane moves
    → run step moves empty ≡ some t
    → Polite apply (contents moves empty [])
    → length (contents moves empty []) < fuel
    → apply_operations fuel apply t ≡ some (reverse (contents moves empty []))
run_applies moves t fuel apply sane h polite enough =
    let l = run-IsStack moves empty t [] sane empty-IsStack h in
    apply_operations-reverse fuel t (contents moves empty []) l enough apply polite

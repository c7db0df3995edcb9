-- ===== src/OperationList/Chain.antt =====
-- Chains of operations along `Next`.
use uvexec.Base.{◌≡◌, ◌≢◌, true, false, List, [], ◌∷◌, arith}
use uvexec.IntrusiveList.{Ptr}
use uvexec.IntrusiveList.Chain.{has}

-- From `c` the `Next` pointers lead through the distinct operations `xs` to nullptr.
abbrev pub IsChain : (Ptr → Ptr) → Ptr → List Ptr → Type 0
IsChain next c [] = c ≡ 0
IsChain next c (x ∷ xs) = (c ≡ x) × (x ≢ 0) × (has x xs ≡ false) × IsChain next (next x) xs

pub IsChain-frame :
    (f g : Ptr → Ptr) (c : Ptr) (xs : List Ptr)
    → ((a : Ptr) → has a xs ≡ true → g a ≡ f a)
    → IsChain f c xs
    → IsChain g c xs
IsChain-frame f g c [] same h = h
IsChain-frame f g c (x ∷ xs) same (e, ne, new, rest) =
    let n = same x (ground arith) in
    (e, ne, new, rw n (IsChain-frame f g (f x) xs (λ a i. same a (ground arith)) rest))

-- ===== src/EchoUv/Heap.antt =====
-- malloc and free as their callers see them: the blocks that are live, with the bytes in those that are buffers. What
-- malloc answers is an argument; that it is the address of no live block is a guard where it is called.
use uvexec.Base.{
  ℕ, suc, ◌+◌, ◌≤◌, ◌<◌, ◌≡◌, inl, inr, Bool, true, List, [], ◌∷◌, ◌++◌, arith, ltb, ◌==◌,
  if◌then◌else◌, Bool-cases,
}

abbrev pub Pointer : Type 0
Pointer = ℕ

abbrev pub same : Pointer → Pointer → ℕ
same p q = if p == q then 1 else 0

unfoldable pub count : Pointer → List Pointer → ℕ
count p [] = 0
count p (q ∷ l) = same p q + count p l

unfoldable pub erase : Pointer → List Pointer → List Pointer
erase p [] = []
erase p (q ∷ l) = if p == q then l else q ∷ erase p l

pub record Heap : Type 0 where
  pub blocks : List Pointer
  -- what a buffer holds
  pub bytes : Pointer → List ℕ
  -- calls of free with the address of no live block
  pub bad_frees : ℕ

-- The address is that of no live block.
abbrev pub is_fresh : Pointer → Heap → Bool
is_fresh p h = count p h.blocks == 0

abbrev pub malloc : Pointer → Heap → Heap
malloc p h = record h { blocks = p ∷ h.blocks }

unfoldable pub free : Pointer → Heap → Heap
free p h =
    if ltb 0 (count p h.blocks)
    then record h { blocks = erase p h.blocks }
    else record h { bad_frees = suc h.bad_frees }

abbrev pub store : Pointer → List ℕ → Heap → Heap
store p l h = record h { bytes = λ q. if p == q then l else h.bytes q }

pub same_self : (p : Pointer) → same p p ≡ 1
same_self p = ground arith

-- No block is live twice, if malloc answers with new addresses.
pub once-malloc :
    (q : Pointer) (l : List Pointer)
    → (count q l == 0) ≡ true
    → ((p : Pointer) → count p l ≤ 1)
    → (p : Pointer) → count p (q ∷ l) ≤ 1
unfolding count
once-malloc q l new once p = elim (Bool-cases (p == q)) [
  | inl e ↦ ground (arith, once p)
  | inr e ↦ ground (arith, once p)
]

pub count-append : (p : Pointer) (l m : List Pointer) → count p (l ++ m) ≡ count p l + count p m
unfolding count
count-append p [] m = omega arith
count-append p (q ∷ l) m = omega (arith, count-append p l m)

pub count-erase :
    (p q : Pointer) (l : List Pointer) → 0 < count q l → count p (erase q l) + same p q ≡ count p l
unfolding count erase
count-erase p q [] h = absurd (omega arith)
count-erase p q (r ∷ l) h = ground (arith, count-erase p q l)

-- A live block is freed.
pub free-count :
    (p q : Pointer) (h : Heap)
    → 0 < count q h.blocks
    → count p (free q h).blocks + same p q ≡ count p h.blocks
unfolding free
free-count p q h live = ground (arith, count-erase p q h.blocks live)

pub free-good : (q : Pointer) (h : Heap) → 0 < count q h.blocks → (free q h).bad_frees ≡ h.bad_frees
unfolding free
free-good q h live = ground arith

pub store_self : (p : Pointer) (l : List ℕ) (h : Heap) → (store p l h).bytes p ≡ l
store_self p l h = ground arith

pub free-bytes : (q : Pointer) (h : Heap) → (free q h).bytes ≡ h.bytes
unfolding free
free-bytes q h = ground arith

-- Frees a block of those that are accounted for.
module _ (q : Pointer) (h : Heap) (rest : Pointer → ℕ)
    (accounted : (p : Pointer) → count p h.blocks ≡ same p q + rest p) where
  live : 0 < count q h.blocks
  live = omega (arith, accounted q, same_self q)

  pub free-rest : (p : Pointer) → count p (free q h).blocks ≡ rest p
  free-rest p = omega (arith, accounted p, free-count p q h live)

  pub free-counted : (free q h).bad_frees ≡ h.bad_frees
  free-counted = free-good q h live

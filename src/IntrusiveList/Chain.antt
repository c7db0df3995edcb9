-- ===== src/IntrusiveList/Chain.antt =====
-- Doubly linked chains of nodes, and what `Erase` does to one.
use uvexec.Base.{
  ◌≡◌, refl, ◌∙◌, ◌≢◌, ◌⊎◌, Bool, true, false, ◌||◌, List, [], ◌∷◌, arith, ◌==◌, if◌then◌else◌,
}
use uvexec.IntrusiveList.{Ptr, Nodes, erase}

abbrev pub has : Ptr → List Ptr → Bool
has a [] = false
has a (x ∷ xs) = a == x || has a xs

abbrev pub remove : Ptr → List Ptr → List Ptr
remove a [] = []
remove a (x ∷ xs) = if a == x then xs else x ∷ remove a xs

-- From `c`, whose predecessor is `p`, the `Next` pointers lead through the distinct nodes `xs` to nullptr, and
-- the `Prev` pointers back.
abbrev pub IsChain : Nodes → Ptr → Ptr → List Ptr → Type 0
IsChain s p c [] = c ≡ 0
IsChain s p c (x ∷ xs) =
    (c ≡ x) × (x ≢ 0) × (s.prev x ≡ p) × (has x xs ≡ false) × IsChain s x (s.next x) xs

-- A chain lives on where its own nodes keep their fields.
pub IsChain-frame :
    (s t : Nodes) (p c : Ptr) (xs : List Ptr)
    → ((a : Ptr) → has a xs ≡ true → (t.next a ≡ s.next a) × (t.prev a ≡ s.prev a))
    → IsChain s p c xs
    → IsChain t p c xs
IsChain-frame s t p c [] same h = h
IsChain-frame s t p c (x ∷ xs) same (e, ne, back, new, rest) =
    let (n, q) = same x (ground arith) in
    (
      e,
      ne,
      q ∙ back,
      new,
      rw n (IsChain-frame s t x (s.next x) xs (λ a i. same a (ground arith)) rest),
    )

-- The nodes beside a node of a chain belong to it, but for the ends.
pub next-has :
    (s : Nodes) (x p c : Ptr) (xs : List Ptr)
    → IsChain s p c xs
    → has x xs ≡ true
    → (s.next x ≡ 0) ⊎ (has (s.next x) xs ≡ true)
next-has s x p c [] h i = absurd (cc)
next-has s x p c (y ∷ []) (e, ne, back, new, rest) i = ground arith
next-has s x p c (y ∷ z ∷ zs) (e, ne, back, new, rest) i =
    ground (arith, next-has s x y (s.next y) (z ∷ zs) rest)

pub prev-has :
    (s : Nodes) (x p c : Ptr) (xs : List Ptr)
    → IsChain s p c xs
    → has x xs ≡ true
    → (s.prev x ≡ p) × (x ≡ c) ⊎ (has (s.prev x) xs ≡ true) × (x ≢ c)
prev-has s x p c [] h i = absurd (cc)
prev-has s x p c (y ∷ ys) (e, ne, back, new, rest) i =
    ground (arith, prev-has s x y (s.next y) ys rest)

pub not_null : (s : Nodes) (p c : Ptr) (xs : List Ptr) → IsChain s p c xs → has 0 xs ≡ false
not_null s p c [] h = refl
not_null s p c (x ∷ xs) (e, ne, back, new, rest) = ground (arith, not_null s x (s.next x) xs rest)

abbrev pub start_after : Nodes → Ptr → Ptr → Ptr
start_after s x c = if x == c then s.next x else c

-- What `Erase` of a node does to the fields of another.
pub erase-next :
    (s : Nodes) (x a : Ptr)
    → s.prev x ≢ x
    → a ≢ x
    → (erase x s).next a
      ≡ (if s.prev x == 0 then s.next a else if a == s.prev x then s.next x else s.next a)
unfolding erase
erase-next s x a q ne = ground arith

pub erase-prev :
    (s : Nodes) (x a : Ptr)
    → s.next x ≢ x
    → a ≢ x
    → (erase x s).prev a
      ≡ (if s.next x == 0 then s.prev a else if a == s.next x then s.prev x else s.prev a)
unfolding erase
erase-prev s x a q ne = ground arith

pub erase-head : (s : Nodes) (x : Ptr) → s.prev x ≢ x → (erase x s).head ≡ start_after s x s.head
unfolding erase
erase-head s x q = ground arith

pub erase_self : (s : Nodes) (x : Ptr) → ((erase x s).next x ≡ 0) × ((erase x s).prev x ≡ 0)
unfolding erase
erase_self s x = ground arith

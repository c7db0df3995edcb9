-- ===== src/IntrusiveList/Laws.antt =====
-- The operations of TIntrusiveList refine those of a list of distinct nodes.
use uvexec.Base.{
  ◌≡◌, refl, sym, subst, ◌≢◌, ◌⊎◌, inl, inr, true, false, some, List, [], ◌∷◌, arith, ◌==◌,
  Bool-cases,
}
use native.Mathlib.Decide.{ℕ_discrete}
use uvexec.IntrusiveList.{Ptr, Nodes, empty_nodes, add, erase, is_empty, pop}
use uvexec.IntrusiveList.Chain.{
  has, remove, IsChain, IsChain-frame, next-has, prev-has, not_null, start_after, erase-next,
  erase-prev, erase-head, erase_self,
}

module _ (s : Nodes) (x : Ptr) where
  next-ne : (p c : Ptr) (xs : List Ptr) → IsChain s p c xs → has x xs ≡ true → s.next x ≢ x
  next-ne p c [] h i = absurd (cc)
  next-ne p c (y ∷ []) (e, ne, back, new, rest) i = ground arith
  next-ne p c (y ∷ z ∷ zs) (e, ne, back, new, rest) i =
      ground (arith, next-ne y (s.next y) (z ∷ zs) rest)

  prev-ne :
      (p c : Ptr) (xs : List Ptr)
      → has p xs ≡ false
      → IsChain s p c xs
      → has x xs ≡ true
      → s.prev x ≢ x
  prev-ne p c [] out h i = absurd (cc)
  prev-ne p c (y ∷ ys) out (e, ne, back, new, rest) i =
      ground (arith, prev-ne y (s.next y) ys new rest)

  has-remove : (a : Ptr) (xs : List Ptr) → has a xs ≡ false → has a (remove x xs) ≡ false
  has-remove a [] h = refl
  has-remove a (y ∷ ys) h = ground (arith, has-remove a ys)

  -- The node was the first: what follows it comes to the front.
  erase-first :
      (p : Ptr) (xs : List Ptr)
      → s.prev x ≡ p
      → s.next x ≢ x
      → s.prev x ≢ x
      → has x xs ≡ false
      → has p xs ≡ false
      → IsChain s x (s.next x) xs
      → IsChain (erase x s) p (s.next x) xs
  erase-first p [] back n q new out h = h
  erase-first p (z ∷ zs) back n q new out (e, ne, back', new', rest) = (
    e,
    ne,
    ground (arith, erase-prev s x z),
    new',
    (let same : (erase x s).next z ≡ s.next z = ground (arith, erase-next s x z) in
        rw same (
          IsChain-frame s (erase x s) z (s.next z) zs
            (λ a i. ground (arith, erase-next s x a, erase-prev s x a)) rest)),
  )

  erase-IsChain :
      (p c : Ptr) (xs : List Ptr)
      → s.next x ≢ x
      → s.prev x ≢ x
      → has p xs ≡ false
      → IsChain s p c xs
      → has x xs ≡ true
      → IsChain (erase x s) p (start_after s x c) (remove x xs)
  erase-IsChain p c [] n q out h i = absurd (cc)
  erase-IsChain p c (y ∷ ys) n q out (e, ne, back, new, rest) i = elim (Bool-cases (x == y)) [
    | inl hit ↦
        let ex : x ≡ y = ground arith in
        let first : start_after s x c ≡ s.next x = ground arith in
        rw (hit, first)
          (erase-first p ys (rw ex back) n q (rw ex new) (ground arith)
            (subst (λ z. IsChain s z (s.next z) ys) (sym ex) rest))
    | inr miss ↦
        let here : start_after s x c ≡ c = ground arith in
        let next : (erase x s).next y ≡ start_after s x (s.next y) =
          ground (arith, erase-next s x y, prev-has s x y (s.next y) ys rest) in
        rw (miss, here)
          (
            e,
            ne,
            ground (arith, erase-prev s x y, next-has s x y (s.next y) ys rest),
            has-remove y ys new,
            rw next (erase-IsChain y (s.next y) ys n q new rest (ground arith)),
          )
  ]

-- The list holds the nodes `xs`, from the head on, and the nodes outside of it have null fields.
pub record IsList (s : Nodes) (xs : List Ptr) : Type 0 where
  pub chain : IsChain s 0 s.head xs
  pub detached : (a : Ptr) → has a xs ≡ false → (s.next a ≡ 0) × (s.prev a ≡ 0)

-- `Add` of a node that is in no list puts it in front.
pub add-IsList :
    (s : Nodes) (x : Ptr) (xs : List Ptr)
    → IsList s xs
    → x ≢ 0
    → has x xs ≡ false
    → IsList (add x s) (x ∷ xs)
unfolding add
add-IsList s x [] l ne new = record {
  chain = (refl, ne, ground (arith, l.detached x), new, ground (arith, l.chain));
  detached = λ a out. ground (arith, l.detached a, l.chain);
}
add-IsList s x (y ∷ ys) l ne new =
    let (e, ne', back, new', rest) = l.chain in
    let same : (add x s).next y ≡ s.next y = ground arith in
    let tail = IsChain-frame s (add x s) y (s.next y) ys (λ a i. ground arith) rest in
    record {
      chain = (
        refl,
        ne,
        ground (arith, l.detached x),
        new,
        (ground arith, ne', ground arith, new', rw same tail),
      );
      detached = λ a out. ground (arith, l.detached a);
    }

remove-out :
    (x a : Ptr) (xs : List Ptr) → has a (remove x xs) ≡ false → (a ≡ x) ⊎ (has a xs ≡ false)
remove-out x a [] h = inr refl
remove-out x a (y ∷ ys) h = ground (arith, remove-out x a ys)

remove-eq_self : (x : Ptr) (xs : List Ptr) → has x xs ≡ false → remove x xs ≡ xs
remove-eq_self x [] h = refl
remove-eq_self x (y ∷ ys) h = ground (arith, remove-eq_self x ys)

head-has : (s : Nodes) (p c : Ptr) (xs : List Ptr) → IsChain s p c xs → (c ≡ 0) ⊎ (has c xs ≡ true)
head-has s p c [] h = inl h
head-has s p c (x ∷ xs) h = ground arith

module _ (s : Nodes) (x : Ptr) (xs : List Ptr) (l : IsList s xs) (ne : x ≢ 0) where
  erase_member : has x xs ≡ true → IsList (erase x s) (remove x xs)
  erase_member i =
      let n = next-ne s x 0 s.head xs l.chain i in
      let q = prev-ne s x 0 s.head xs (not_null s 0 s.head xs l.chain) l.chain i in
      record {
        chain =
            rw (erase-head s x q)
              (erase-IsChain s x 0 s.head xs n q (not_null s 0 s.head xs l.chain) l.chain i);
        detached = λ a out. elim (ℕ_discrete a x) [
          | yes same ↦ rw same (erase_self s x)
          | no other ↦ ground (
            arith,
            remove-out x a xs out,
            l.detached a,
            erase-next s x a,
            erase-prev s x a,
            next-has s x 0 s.head xs l.chain i,
            prev-has s x 0 s.head xs l.chain i,
          )
        ];
      }

  erase_stranger : has x xs ≡ false → IsList (erase x s) (remove x xs)
  erase_stranger o =
      let (n, q) = l.detached x o in
      let same_head : (erase x s).head ≡ s.head =
        ground (arith, erase-head s x, head-has s 0 s.head xs l.chain) in
      rw (remove-eq_self x xs o) (record {
        chain = rw same_head (
            IsChain-frame s (erase x s) 0 s.head xs
              (λ a i. ground (arith, erase-next s x a, erase-prev s x a)) l.chain);
        detached = λ a out. elim (ℕ_discrete a x) [
          | yes same ↦ rw same (erase_self s x)
          | no other ↦ ground (arith, l.detached a, erase-next s x a, erase-prev s x a)
        ];
      })

-- `Erase` takes a node out of the list, wherever it stands; a node that is in no list it leaves alone.
pub erase-IsList :
    (s : Nodes) (x : Ptr) (xs : List Ptr) → IsList s xs → x ≢ 0 → IsList (erase x s) (remove x xs)
erase-IsList s x xs l ne = elim (Bool-cases (has x xs)) [
  | inl i ↦ erase_member s x xs l ne i
  | inr o ↦ erase_stranger s x xs l ne o
]

-- `Pop` of a list that is not empty gives its first node, and leaves the others.
pub pop-IsList :
    (s : Nodes) (x : Ptr) (xs : List Ptr)
    → IsList s (x ∷ xs)
    → (pop s ≡ some (x, erase x s)) × IsList (erase x s) xs
unfolding pop
pop-IsList s x xs l =
    let (e, ne, _, _, _) = l.chain in
    (
      ground arith,
      let gone : remove x (x ∷ xs) ≡ xs = ground arith in
          rw gone at (erase-IsList s x (x ∷ xs) l ne),
    )

-- `Empty` says whether the list holds a node.
pub is_empty-IsList :
    (s : Nodes) (xs : List Ptr)
    → IsList s xs
    → (is_empty s ≡ true) × (xs ≡ []) ⊎ (is_empty s ≡ false) × (xs ≢ [])
unfolding is_empty
is_empty-IsList s [] l = inl (ground (arith, l.chain), refl)
is_empty-IsList s (x ∷ xs) l = inr (ground (arith, l.chain), λ e. cc)

pub empty_nodes-IsList : IsList empty_nodes []
empty_nodes-IsList = record { chain = refl; detached = λ a out. (refl, refl) }

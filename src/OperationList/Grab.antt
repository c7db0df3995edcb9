-- ===== src/OperationList/Grab.antt =====
-- `Grab` reverses the chain that it took, and `ApplyOperations` runs along it: operations are applied in the
-- order in which they were scheduled.
use uvexec.Base.{
  ℕ, zero, suc, ◌+◌, ◌<◌, ◌≡◌, refl, ◌≢◌, true, false, ◌||◌, Option, none, some, List, [], ◌∷◌,
  reverse, reverse_aux, arith, ◌==◌, if◌then◌else◌, length, map_state, and_then,
}
use uvexec.IntrusiveList.{Ptr, update}
use uvexec.IntrusiveList.Chain.{has}
use uvexec.OperationList.{Shared}
use uvexec.OperationList.Chain.{IsChain, IsChain-frame}
use uvexec.OperationList.Push.{IsStack}

-- The `Next` fields and a chain's first operation.
pub record Taken : Type 0 where
  pub next : Ptr → Ptr
  pub top : Ptr

-- The loop of `Grab`, on fuel.
reverse_loop : ℕ → (Ptr → Ptr) → (cur new_top : Ptr) → Option Taken
reverse_loop zero next cur new_top = none
reverse_loop (suc f) next cur new_top =
    let rest = reverse_loop f (update next cur new_top) (next cur) cur in
    if cur == 0 then some (record { next = next; top = new_top }) else rest

-- `Grab`, once `Head` was exchanged for nullptr.
unfoldable pub grab_chain : ℕ → Shared → Option Taken
unfolding reverse_loop
grab_chain fuel s = reverse_loop fuel s.next s.head 0

-- The loop of `ApplyOperations`: the operations in the order of their calls of `Apply`. What `Apply` does to the `Next`
-- fields is `apply`.
apply_loop : ℕ → (Ptr → (Ptr → Ptr) → Ptr → Ptr) → (Ptr → Ptr) → Ptr → Option (List Ptr)
apply_loop zero apply next op = none
apply_loop (suc f) apply next op =
    let rest = apply_loop f apply (apply op next) (next op) in
    if op == 0 then some [] else map_state (λ ops. op ∷ ops) rest

unfoldable pub apply_operations : ℕ → (Ptr → (Ptr → Ptr) → Ptr → Ptr) → Shared → Option (List Ptr)
unfolding apply_loop
apply_operations fuel apply s =
    and_then (grab_chain fuel s) (λ t. apply_loop fuel apply t.next t.top)

-- The chains before and behind `cur` have no operation in common.
abbrev Disjoint : List Ptr → List Ptr → Type 0
Disjoint xs ys = (a : Ptr) → has a xs ≡ true → has a ys ≡ false

Reversed : (Ptr → Ptr) → List Ptr → List Ptr → Option Taken → Type 0
Reversed next xs ys r =
    (t : Taken) × (r ≡ some t)
    × IsChain t.next t.top (reverse_aux xs ys)
    × ((a : Ptr) → has a xs ≡ false → t.next a ≡ next a)

reverse_loop-Reversed :
    (f : ℕ) (next : Ptr → Ptr) (cur top : Ptr) (xs ys : List Ptr)
    → IsChain next cur xs
    → IsChain next top ys
    → Disjoint xs ys
    → length xs < f
    → Reversed next xs ys (reverse_loop f next cur top)
unfolding reverse_loop Reversed
reverse_loop-Reversed zero next cur top xs ys h k apart fuel = absurd (omega arith)
reverse_loop-Reversed (suc f) next cur top [] ys h k apart fuel =
    (record { next = next; top = top }, rw h, k, λ a out. refl)
reverse_loop-Reversed (suc f) next cur top (x ∷ xs) ys (e, ne, new, rest) k apart fuel =
    let front : has x ys ≡ false = apart x (ground arith) in
    let turned : update next x top x ≡ top = ground arith in
    let (t, run_on, chain, same) =
      reverse_loop-Reversed f (update next x top) (next x) x xs (x ∷ ys)
        (IsChain-frame next (update next x top) (next x) xs (λ a i. ground arith) rest)
        (
          refl,
          ne,
          front,
          rw turned (IsChain-frame next (update next x top) top ys (λ a i. ground arith) k),
        )
        (λ a i. ground (arith, apart a)) (omega arith) in
    let on : (x == 0) ≡ false = ground arith in
    rw e (t, rw on run_on, chain, λ a out. ground (arith, same a))

-- An operation that is applied may change its own `Next`, as it does when it is scheduled again, and those of
-- operations that were not in the list, but of no other that was.
abbrev pub Polite : (Ptr → (Ptr → Ptr) → Ptr → Ptr) → List Ptr → Type 0
Polite apply xs =
    (op a : Ptr) (next : Ptr → Ptr) → has a xs ≡ true → a ≢ op → apply op next a ≡ next a

apply_loop-chain :
    (f : ℕ) (apply : Ptr → (Ptr → Ptr) → Ptr → Ptr) (next : Ptr → Ptr) (op : Ptr) (xs : List Ptr)
    → Polite apply xs
    → IsChain next op xs
    → length xs < f
    → apply_loop f apply next op ≡ some xs
unfolding apply_loop
apply_loop-chain zero apply next op xs polite h fuel = absurd (omega arith)
apply_loop-chain (suc f) apply next op [] polite h fuel = rw h
apply_loop-chain (suc f) apply next op (x ∷ xs) polite (e, ne, new, rest) fuel =
    let on : (x == 0) ≡ false = ground arith in
    let ih =
      apply_loop-chain f apply (apply x next) (next x) xs (λ o a n i. polite o a n (ground arith))
        (IsChain-frame next (apply x next) (next x) xs
          (λ a i. polite x a next (ground arith) (ground arith)) rest)
        (omega arith) in
    rw (e, on, ih)

has-reverse_aux : (a : Ptr) (xs ys : List Ptr) → has a (reverse_aux xs ys) ≡ has a xs || has a ys
has-reverse_aux a [] ys = refl
has-reverse_aux a (x ∷ xs) ys = ground (arith, has-reverse_aux a xs (x ∷ ys))

length-reverse_aux : (xs ys : List Ptr) → length (reverse_aux xs ys) ≡ length xs + length ys
length-reverse_aux [] ys = omega arith
length-reverse_aux (x ∷ xs) ys = omega (arith, length-reverse_aux xs (x ∷ ys))

module _ (fuel : ℕ) (s : Shared) (xs : List Ptr) (l : IsStack s xs)
    (enough : length xs < fuel) where
  -- `Grab`, on fuel beyond the number of listed operations, returns a chain of exactly these operations, the
  -- earliest pushed first, and changes the `Next` of no other operation.
  pub grab_chain-reverse :
      (t : Taken) × (grab_chain fuel s ≡ some t)
      × IsChain t.next t.top (reverse xs)
      × ((a : Ptr) → has a xs ≡ false → t.next a ≡ s.next a)
  unfolding grab_chain Reversed
  grab_chain-reverse =
      reverse_loop-Reversed fuel s.next s.head 0 xs [] l.chain refl (λ a i. refl) enough

  -- The loop applies every listed operation exactly once, in the order in which they were pushed, even where an
  -- operation that is applied is scheduled again.
  pub apply_operations-reverse :
      (apply : Ptr → (Ptr → Ptr) → Ptr → Ptr)
      → Polite apply xs
      → apply_operations fuel apply s ≡ some (reverse xs)
  unfolding apply_operations
  apply_operations-reverse apply polite =
      let (t, got, chain, _) = grab_chain-reverse in
      rw got (
        apply_loop-chain fuel apply t.next t.top (reverse xs)
          (λ o a n i. polite o a n (ground (arith, has-reverse_aux a xs []))) chain
          (omega (arith, length-reverse_aux xs [])))

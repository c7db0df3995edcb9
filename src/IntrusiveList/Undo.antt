-- ===== src/IntrusiveList/Undo.antt =====
-- Erase and Pop undo Add.
use uvexec.Base.{◌≡◌, refl, ap, ◌∙◌, fun_ext, ◌≢◌, false, some, List, [], ◌∷◌, arith}
use uvexec.IntrusiveList.{Ptr, Nodes, add, erase, pop}
use uvexec.IntrusiveList.Chain.{has}
use uvexec.IntrusiveList.Laws.{IsList, add-IsList, pop-IsList}

same_nodes :
    (m s : Nodes)
    → m.head ≡ s.head
    → ((a : Ptr) → m.next a ≡ s.next a)
    → ((a : Ptr) → m.prev a ≡ s.prev a)
    → m ≡ s
same_nodes m s h n p = let next = fun_ext n in let prev = fun_ext p in cc

erase-add :
    (s : Nodes) (x : Ptr) (xs : List Ptr)
    → IsList s xs
    → x ≢ 0
    → has x xs ≡ false
    → erase x (add x s) ≡ s
unfolding add erase
erase-add s x [] l ne new =
    let alone = l.detached x refl in
    let empty = l.chain in
    same_nodes (erase x (add x s)) s (ground arith) (λ a. ground arith) (λ a. ground arith)
erase-add s x (y ∷ ys) l ne new =
    let alone = l.detached x new in
    let chain = l.chain in
    same_nodes (erase x (add x s)) s (ground arith) (λ a. ground arith) (λ a. ground arith)

-- In a well-formed list, Erase undoes Add of a node that was in no list, and Pop gives that node and
-- undoes Add: every field of every node is as it was.
pub add-undone :
    (s : Nodes) (x : Ptr) (xs : List Ptr)
    → IsList s xs
    → x ≢ 0
    → has x xs ≡ false
    → (erase x (add x s) ≡ s) × (pop (add x s) ≡ some (x, s))
add-undone s x xs l ne new =
    let back = erase-add s x xs l ne new in
    let popped = (pop-IsList (add x s) x xs (add-IsList s x xs l ne new)).0 in
    (back, popped ∙ ap (λ m. some (x, m)) back)

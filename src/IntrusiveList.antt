-- ===== src/IntrusiveList.antt =====
-- include/uvexec/util/intrusive_list.hpp: TIntrusiveList, over the nodes' addresses.
pub mod Chain
pub mod Laws
pub mod Undo
mod Tests
use uvexec.Base.{ℕ, Bool, Option, none, some, ◌==◌, if◌then◌else◌}

-- The address of a node; nullptr is 0.
abbrev pub Ptr : Type 0
Ptr = ℕ

-- The list's `Head`, and the `Next` and `Prev` of each node, in the list or not.
pub record Nodes : Type 0 where
  pub head : Ptr
  pub next : Ptr → Ptr
  pub prev : Ptr → Ptr

abbrev pub update : (Ptr → Ptr) → Ptr → Ptr → Ptr → Ptr
update f a v b = if b == a then v else f b

-- `nullptr` for every field.
abbrev pub empty_nodes : Nodes
empty_nodes = record { head = 0; next = λ a. 0; prev = λ a. 0 }

unfoldable pub add : Ptr → Nodes → Nodes
add node s =
    let next = update s.next node s.head in
    let prev = if s.head == 0 then s.prev else update s.prev s.head node in
    record { head = node; next = next; prev = prev }

-- `node.Next->Prev = node.Prev`
unlink_next : Ptr → Nodes → Nodes
unlink_next node s =
    if s.next node == 0 then s else record s { prev = update s.prev (s.next node) (s.prev node) }

-- `node.Prev->Next = node.Next`
unlink_prev : Ptr → Nodes → Nodes
unlink_prev node s =
    if s.prev node == 0 then s else record s { next = update s.next (s.prev node) (s.next node) }

unlink_head : Ptr → Nodes → Nodes
unlink_head node s = if node == s.head then record s { head = s.next node } else s

unfoldable pub erase : Ptr → Nodes → Nodes
unfolding unlink_next unlink_prev unlink_head
erase node s =
    let s' = unlink_head node (unlink_prev node (unlink_next node s)) in
    record s' { next = update s'.next node 0; prev = update s'.prev node 0 }

unfoldable pub is_empty : Nodes → Bool
is_empty s = s.head == 0

-- `none` where the list is empty, and the program would dereference nullptr.
unfoldable pub pop : Nodes → Option (Ptr × Nodes)
pop s = if s.head == 0 then none else some (s.head, erase s.head s)

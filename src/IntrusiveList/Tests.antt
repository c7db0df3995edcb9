-- ===== src/IntrusiveList/Tests.antt =====
-- A list of two nodes, and the laws at it.
use uvexec.Base.{refl, [], ◌∷◌, arith}
use uvexec.IntrusiveList.{Nodes, empty_nodes, add, erase}
use uvexec.IntrusiveList.Laws.{IsList, empty_nodes-IsList, add-IsList, erase-IsList}

abbrev one_node : Nodes
one_node = add 3 empty_nodes

abbrev two_nodes : Nodes
two_nodes = add 5 one_node

one_node-IsList : IsList one_node (3 ∷ [])
one_node-IsList = add-IsList empty_nodes 3 [] empty_nodes-IsList (omega arith) refl

two_nodes-IsList : IsList two_nodes (5 ∷ 3 ∷ [])
two_nodes-IsList = add-IsList one_node 5 (3 ∷ []) one_node-IsList (omega arith) refl

-- The last node is taken out.
erase-IsList_example : IsList (erase 3 two_nodes) (5 ∷ [])
erase-IsList_example = erase-IsList two_nodes 3 (5 ∷ 3 ∷ []) two_nodes-IsList (omega arith)

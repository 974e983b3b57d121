-- ===== src/RowTree/Roots.antt =====
-- public/utils/utils.ts: the ids of nodes, and the row that an id is found by.
use Prim.Native.Char.{Char}
use text.Mathlib.TextLemmas.{cons-append, nil-append}
use dashboards_query_workben.Common.{
  String, Option, some, List, [], ◌∷◌, ◌≡◌, refl, ◌⧺◌, ◌==◌, Bool-cases, inl, inr, All, is_blank,
  ◌∙◌, sym, ap, get_or, head?,
}
use dashboards_query_workben.Queries.{onto_first}
use dashboards_query_workben.Tabs.{split_on}
use dashboards_query_workben.RowTree.{
  Value, Entries, end, entry, Node, new_node, is_structure, row_children, root_node_id,
}

abbrev first_piece : List String → String
first_piece pieces = get_or (head? pieces) ""

first_piece-onto_first :
    (c : Char) (pieces : List String)
    → first_piece (onto_first c pieces) ≡ String.◌∷◌ c (first_piece pieces)
first_piece-onto_first c [] = refl
first_piece-onto_first c (p ∷ ps) = refl

-- What follows an underscore does not change the first piece.
root_node_id-append : (s t : String) → root_node_id (s ⧺ "_" ⧺ t) ≡ root_node_id s
unfolding root_node_id split_on
root_node_id-append String.[] t = rw (nil-append ("_" ⧺ t), cons-append "_" "" t) refl
root_node_id-append (String.◌∷◌ c s) t = elim (Bool-cases ("_" == String.◌∷◌ c String.[])) [
  | inl under ↦ rw (cons-append c s ("_" ⧺ t), under) refl
  | inr other ↦
      rw (cons-append c s ("_" ⧺ t), other)
        (first_piece-onto_first c (split_on "_" 0 (s ⧺ "_" ⧺ t))
          ∙ ap (String.◌∷◌ c) (root_node_id-append s t)
          ∙ sym (first_piece-onto_first c (split_on "_" 0 s)))
]

new_node-root :
    (value : Value) (parent_id name : String) (parent : Option String)
    → root_node_id (new_node value parent_id name parent).node_id ≡ root_node_id parent_id
unfolding new_node
new_node-root value parent_id name parent = elim (Bool-cases (is_blank name)) [
  | inl blank ↦ rw blank refl
  | inr named ↦ rw named (root_node_id-append parent_id name)
]

-- However the fields are named, the nodes of a row or of one of its nodes are found by the id of the row.
pub row_children-root :
    (root_id : String) (entries : Entries)
    → All
        (λ (node : Node). root_node_id node.node_id ≡ root_node_id root_id)
        (row_children root_id entries)
unfolding row_children
row_children-root root_id end = tt
row_children-root root_id (entry key value rest) = elim (Bool-cases (is_structure value)) [
  | inl deeper ↦
      rw deeper (new_node-root value root_id key (some root_id), row_children-root root_id rest)
  | inr flat ↦ rw flat (row_children-root root_id rest)
]

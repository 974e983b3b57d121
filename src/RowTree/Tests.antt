-- ===== src/RowTree/Tests.antt =====
-- A row with a nested field.
use dashboards_query_workben.Common.{[], ◌∷◌, ◌≡◌, refl, map}
use dashboards_query_workben.Tabs.{split_on}
use dashboards_query_workben.RowTree.{
  Value, plain, object, Entries, end, entry, new_node, row_children, root_node_id,
}

abbrev inner : Value
inner = object (entry "b_c" (plain "1") end)

abbrev fields : Entries
fields = entry "a" (object (entry "b" inner end)) (entry "a_b" inner (entry "d" (plain "2") end))

-- Two fields of different depth have one id.
ids_collide : map (λ n. n.node_id) (row_children "0" fields) ≡ "0_a" ∷ "0_a_b" ∷ []
unfolding row_children new_node
ids_collide = refl

inner_id : map (λ n. n.node_id) (row_children "0_a" (entry "b" inner end)) ≡ "0_a_b" ∷ []
unfolding row_children new_node
inner_id = refl

root_of_inner : root_node_id "0_a_b" ≡ "0"
unfolding root_node_id split_on
root_of_inner = refl

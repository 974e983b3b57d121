-- ===== src/RowTree.antt =====
-- public/utils/utils.ts and public/components/QueryResults/QueryResultsBody.tsx: the expansion of rows. `none` as the
-- result of a function is an exception.
pub mod Roots
mod Tests
use dashboards_query_workben.Common.{
  String, Bool, true, false, not, ◌&&◌, Option, none, some, List, [], ◌∷◌, ◌++◌, if◌then◌else◌, ◌⧺◌,
  is_blank, is_empty, get_or, head?,
}
use dashboards_query_workben.Common.Dict.{lookup, insert, delete}
use dashboards_query_workben.Tabs.{split_on}

-- A value of a cell; the entries of an array or an object stand in the order of `Object.keys`.
mutual
  pub data Value : Type 0 where
    null : Value
    plain : String → Value
    array : Entries → Value
    object : Entries → Value

  pub data Entries : Type 0 where
    end : Entries
    entry : String → Value → Entries → Entries

-- `parent` is the id of the parent
pub record Node : Type 0 where
  pub value : Value
  pub name : String
  pub node_id : String
  pub parent : Option String

pub record Tree : Type 0 where
  pub root : Node
  pub children : List Node

-- What is kept of an expanded row; the rendered element of `expandedRow` is left out.
pub record ExpandedRow : Type 0 where
  pub nodes : Tree
  pub expanded_row : Bool
  pub selected_nodes : Option (List (String × Value))

abbrev pub RowMap : Type 0
RowMap = List (String × ExpandedRow)

unfoldable pub new_node : Value → String → String → Option String → Node
new_node value parent_id name parent = record {
  value = value;
  name = name;
  node_id = if is_blank name then parent_id else parent_id ⧺ "_" ⧺ name;
  parent = parent;
}

abbrev pub is_structure : Value → Bool
is_structure (array entries) = true
is_structure (object entries) = true
is_structure _ = false

-- the loop over the keys
unfoldable pub row_children : String → Entries → List Node
unfolding new_node
row_children root_id end = []
row_children root_id (entry key value rest) =
    let others = row_children root_id rest in
    if is_structure value then new_node value root_id key (some root_id) ∷ others else others

abbrev pub entries_of : Value → Entries
entries_of (array entries) = entries
entries_of (object entries) = entries
entries_of _ = end

abbrev pub is_null : Value → Bool
is_null null = true
is_null _ = false

-- `Object.keys` of `null` throws.
unfoldable pub create_row_tree : Value → String → Option Tree
unfolding new_node row_children
create_row_tree item root_id =
    if is_null item
    then none
    else some (record {
      root = new_node item root_id "" none;
      children = row_children root_id (entries_of item);
    })

unfoldable pub get_row_tree : String → Value → RowMap → Option Tree
unfolding create_row_tree
get_row_tree node_id item map = elim (lookup node_id map) [
  | none ↦ create_row_tree item node_id
  | some row ↦ some row.nodes
]

-- `nodeId.split('_')[0]`
unfoldable pub root_node_id : String → String
unfolding split_on
root_node_id node_id = get_or (head? (split_on "_" 0 node_id)) ""

unfoldable pub find_root_node : Node → RowMap → Option Node
unfolding root_node_id
find_root_node node map = elim (lookup (root_node_id node.node_id) map) [
  | none ↦ none
  | some row ↦ some row.nodes.root
]

abbrev pub is_selected : String → ExpandedRow → Bool
is_selected node_id row = elim row.selected_nodes [
  | none ↦ false
  | some nodes ↦ elim (lookup node_id nodes) [ none ↦ false | some value ↦ true ]
]

unfoldable pub update_selected_nodes : Option String → Node → RowMap → Bool → Option RowMap
update_selected_nodes none selected map keep_open = some map
update_selected_nodes (some parent_id) selected map keep_open = elim (lookup parent_id map) [
  | none ↦ none
  | some row ↦
      let nodes = get_or row.selected_nodes [] in
      some (
        insert parent_id
          (if is_selected selected.node_id row && not keep_open
            then record row { selected_nodes = some (delete selected.node_id nodes) }
            else record row {
              selected_nodes = some (insert selected.node_id selected.value nodes);
            })
          map)
]

abbrev pub has_row : String → RowMap → Bool
has_row node_id map = elim (lookup node_id map) [ none ↦ false | some row ↦ true ]

-- the first of the rows that `renderNodeData` makes of a node
abbrev pub first_item : Value → Option Value
first_item (object entries) = some (object entries)
first_item (array (entry key value rest)) = some value
first_item _ = none

-- what `renderRow`, called by `renderNodeData`, puts into the map
unfoldable pub render_node_data : Node → RowMap → Option RowMap
unfolding create_row_tree
render_node_data node map =
    if has_row node.node_id map then some map else (elim (first_item node.value) [
      | none ↦ some map
      | some item ↦ elim (create_row_tree item node.node_id) [
        | none ↦ none
        | some tree ↦ some (
            insert node.node_id
              (record { nodes = tree; expanded_row = false; selected_nodes = none }) map)
      ]
    ])

-- `renderNav`: the children are rendered, and a node without children itself, which is in the map
unfoldable pub render_nav : List Node → RowMap → Option RowMap
unfolding render_node_data
render_nav [] map = some map
render_nav (node ∷ nodes) map = elim (render_node_data node map) [
  | none ↦ none
  | some rendered ↦ render_nav nodes rendered
]

abbrev pub open_row : String → RowMap → RowMap
open_row node_id map = elim (lookup node_id map) [
  | none ↦ map
  | some row ↦ insert node_id (record row { expanded_row = true }) map
]

-- The node is the root of its own row's tree.
unfoldable pub update_expanded_row : String → RowMap → Option RowMap
unfolding render_nav
update_expanded_row node_id map = elim (lookup node_id map) [
  | none ↦ some map
  | some row ↦ elim (render_nav row.nodes.children map) [
    | none ↦ none
    | some rendered ↦ some (open_row node_id rendered)
  ]
]

-- the two rows that are rendered again
abbrev pub update_both : Option String → String → RowMap → Option RowMap
update_both none root_id map = none
update_both (some parent_id) root_id map = elim (update_expanded_row parent_id map) [
  | none ↦ none
  | some updated ↦ update_expanded_row root_id updated
]

-- `none` for the node is `undefined`
unfoldable pub update_expanded_row_map : Option Node → RowMap → Bool → Option RowMap
unfolding update_selected_nodes find_root_node update_expanded_row
update_expanded_row_map none map keep_open = some map
update_expanded_row_map (some node) map keep_open =
    elim (update_selected_nodes node.parent node map keep_open) [
      | none ↦ none
      | some selected ↦ elim (find_root_node node selected) [
        | none ↦ none
        | some root ↦
            if has_row root.node_id selected
            then update_both node.parent root.node_id selected
            else some selected
      ]
    ]

abbrev pub is_open : String → RowMap → Bool
is_open node_id map = elim (lookup node_id map) [ none ↦ false | some row ↦ row.expanded_row ]

-- `delete map[nodeId].expandedRow`
abbrev pub close_row : String → RowMap → RowMap
close_row node_id map = elim (lookup node_id map) [
  | none ↦ map
  | some row ↦ insert node_id (record row { expanded_row = false }) map
]

-- of the root of a tree, which alone has children; the test is whether two nodes are one object
unfoldable pub toggle_node_data : Tree → (is_root : Node → Node → Bool) → RowMap → Option RowMap
unfolding find_root_node update_expanded_row
toggle_node_data tree is_root map = elim (find_root_node tree.root map) [
  | none ↦ none
  | some root ↦
      let toggled =
        if is_open tree.root.node_id map
        then some (close_row tree.root.node_id map)
        else if is_empty tree.children
        then some map
        else update_expanded_row tree.root.node_id map in
      elim toggled [
        | none ↦ none
        | some rows ↦
            if is_root root tree.root then some rows else update_expanded_row root.node_id rows
      ]
]

-- ===== src/TableView.antt =====
-- public/components/SQLPage/table_view.tsx: a tree of the objects of a data source that loads them by asynchronous
-- queries. The handle by which it cancels a query that is still running is left out.
pub mod Handlers
pub mod Shape
pub mod Events
pub mod Reached
pub mod Flyout
mod Tests
use dashboards_query_workben.Common.{
  String, Bool, true, false, not, ◌&&◌, ◌||◌, Option, none, some, List, [], ◌∷◌, ◌++◌, map, filter,
  get_or, get_elem?, is_empty, if◌then◌else◌, ◌==◌, ◌⧺◌, join,
}
use dashboards_query_workben.Async.{
  AsyncQuery, AsyncQueryStatus, success, failed, cancelled, status_of,
}
use dashboards_query_workben.Acceleration.Types.{
  AccelerationIndexType, skipping, covering, materialized,
}
use dashboards_query_workben.CatalogTree.Objects.{
  TreeItemType, covering_index_type, skipping_index_type, table_type, database_type,
  materialized_view_type, load_materialized_type, badge_type, is_leaf,
}
use dashboards_query_workben.CatalogTree.Indices.{get_load_open_search_indices_query}

-- The name of an item. The covering indices and the materialized views have a whole row of the reply for a name.
pub data Name : Type 0 where
  named : String → Name
  row : List String → Name
  undefined : Name

-- `a === b`, where a row is compared with no row
abbrev pub same : Name → Name → Bool
same (named a) (named b) = a == b
same undefined undefined = true
same _ _ = false

-- a name in a template
abbrev pub shown : Name → String
shown (named s) = s
shown (row cells) = join "," cells
shown undefined = "undefined"

abbrev pub name_of : Option String → Name
name_of none = undefined
name_of (some s) = named s

pub record TreeItem (C : Type 0) : Type 0 where
  pub name : Name
  pub type : TreeItemType
  pub is_expanded : Bool
  pub is_loading : Option Bool
  pub values : Option (List C)

abbrev pub Index : Type 0
Index = TreeItem Unit

abbrev pub Table : Type 0
Table = TreeItem Index

abbrev pub Database : Type 0
Database = TreeItem Table

abbrev pub new_item : {C : Type 0} → TreeItemType → Name → TreeItem C
new_item type name = record {
  name = name;
  type = type;
  is_expanded = false;
  is_loading = if is_leaf type then none else some false;
  values = if is_leaf type then none else some [];
}

unfoldable pub load_tree_item : {C : Type 0} → List Name → TreeItemType → List (TreeItem C)
load_tree_item elements type = map (new_item type) elements

pub record Banner : Type 0 where
  pub flag : Bool
  pub status : String

-- The props of `AccelerationIndexFlyout`.
pub record IndexFlyout : Type 0 where
  pub acceleration_index_type : AccelerationIndexType
  pub data_source : String
  pub database : Name
  pub data_table : Name
  pub index_name : Option Name

-- The state, the requests that were made, what was put into the editor and the errors shown, the latest first.
pub record View : Type 0 where
  pub table_names : List (Option String)
  pub selected_database : Name
  pub selected_table : Option Name
  pub is_loading_banner : Banner
  pub index_flyout : Option IndexFlyout
  pub tree_data : List Database
  pub indices_queries : List String
  pub queries : List AsyncQuery
  pub editor : List String
  pub toasts : List String

-- What a callback reads of a reply to a poll.
pub record Reply : Type 0 where
  pub status : String
  pub error : Option String
  pub datarows : List (List String)

abbrev pub load_materialized : Name
load_materialized = named "Load Materialized View"

abbrev pub set_banner : Bool → String → View → View
set_banner flag status v = record v { is_loading_banner = record { flag = flag; status = status } }

unfoldable pub update_database : Name → (Database → Database) → List Database → List Database
update_database name f [] = []
update_database name f (db ∷ dbs) =
    (if same db.name name then f db else db) ∷ update_database name f dbs

unfoldable pub update_items : Name → (Table → Table) → List Table → List Table
update_items name f [] = []
update_items name f (t ∷ ts) = (if same t.name name then f t else t) ∷ update_items name f ts

abbrev pub in_table : Name → (Table → Table) → Database → Database
in_table name f db = elim db.values [
  | none ↦ db
  | some tables ↦ record db { values = some (update_items name f tables) }
]

abbrev pub on_tree : (List Database → List Database) → View → View
on_tree f v = record v { tree_data = f v.tree_data }

abbrev pub is_success : Option AsyncQueryStatus → Bool
is_success (some success) = true
is_success _ = false

abbrev pub is_failure : Option AsyncQueryStatus → Bool
is_failure (some failed) = true
is_failure (some cancelled) = true
is_failure _ = false

abbrev pub quoted : String → String
quoted name = "`" ⧺ name ⧺ "`"

abbrev pub flattened : List (List String) → List Name
flattened [] = []
flattened (cells ∷ rows) = map named cells ++ flattened rows

-- `handleAccelerationIndexClick` and `resetFlyout`
unfoldable pub open_flyout : IndexFlyout → View → View
open_flyout props v = record v { index_flyout = some props }

unfoldable pub reset_flyout : View → View
reset_flyout v = record v { index_flyout = none }

unfoldable pub set_tree_data_database_error : Name → View → View
unfolding update_database
set_tree_data_database_error name v =
    on_tree (update_database name (λ db. record db { is_loading = some false })) v

unfoldable pub set_tree_data_table_error : Name → Name → View → View
unfolding update_database update_items
set_tree_data_table_error database table v =
    on_tree
      (update_database database
        (in_table table (λ t. record t { is_loading = some false; is_expanded = false })))
      v

unfoldable pub set_loading_for_table_elements : Name → Name → View → View
unfolding update_database update_items
set_loading_for_table_elements database table v =
    on_tree (update_database database (in_table table (λ t. record t { is_loading = some true }))) v

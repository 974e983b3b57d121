-- ===== src/TableView/Handlers.antt =====
-- table_view.tsx: the effect, the clicks and the callbacks of the queries.
use dashboards_query_workben.Common.{
  String, Bool, true, false, not, ◌&&◌, Option, none, some, List, [], ◌∷◌, ◌++◌, map, filter,
  get_or, get_elem?, is_empty, if◌then◌else◌, ◌==◌, ◌⧺◌,
}
use dashboards_query_workben.Async.{AsyncQueryStatus, status_of}
use dashboards_query_workben.Acceleration.Types.{
  AccelerationIndexType, skipping, covering, materialized,
}
use dashboards_query_workben.CatalogTree.Objects.{
  covering_index_type, skipping_index_type, table_type, database_type, materialized_view_type,
  load_materialized_type, badge_type,
}
use dashboards_query_workben.CatalogTree.Indices.{get_load_open_search_indices_query}
use dashboards_query_workben.TableView.{
  Name, named, row, shown, name_of, TreeItem, Index, Table, Database, load_tree_item, View, Reply,
  IndexFlyout, load_materialized, set_banner, update_database, update_items, in_table, on_tree,
  is_success, is_failure, quoted, flattened, open_flyout, set_loading_for_table_elements,
}

-- a badge with no children
abbrev pub badge : {C : Type 0} → String → Option Bool → TreeItem C
badge text is_loading = record {
  name = named text;
  type = badge_type;
  is_expanded = false;
  is_loading = is_loading;
  values = none;
}

-- `newValues` once it is known whether any index is there
abbrev pub or_badge : Option (List Index) → Option (List Index)
or_badge none = none
or_badge (some []) = some (badge "No Indicies" none ∷ [])
or_badge (some (i ∷ is)) = some (i ∷ is)

abbrev pub added : Option (List Index) → List Index → Option (List Index)
added none new = none
added (some old) new = some (old ++ new)

abbrev pub is_load_badge : Table → Bool
is_load_badge t = elim t.type [ load_materialized_type ↦ true | _ ↦ false ]

-- `data_source` is the label of the selected item.
module _ (to_lower_case : String → String) (data_source : String) where
  abbrev pub status_in : Reply → Option AsyncQueryStatus
  status_in reply = status_of (to_lower_case reply.status)

  -- what the callbacks have in common
  abbrev pub on_status : Reply → (View → View) → View → View
  on_status reply done v =
      if is_success (status_in reply)
      then done v
      else if is_failure (status_in reply)
      then set_banner false (get_or reply.error "") v
      else v

  abbrev pub execute : String → View → View
  execute text v = record v {
    queries = record { lang = "sql"; query = text; datasource = data_source } ∷ v.queries;
  }

  abbrev pub source_and : Name → String
  source_and database = quoted data_source ⧺ "." ⧺ quoted (shown database)

  -- `getSidebarContent` up to its reply
  unfoldable pub get_sidebar_content : Bool → View → View
  get_sidebar_content uses_legacy v =
      if data_source == "OpenSearch"
      then set_banner false "Fetching OpenSearch indices ..." (record v {
        table_names = [];
        indices_queries = get_load_open_search_indices_query uses_legacy ∷ v.indices_queries;
      })
      else execute ("SHOW SCHEMAS IN " ⧺ quoted data_source) (record v { table_names = [] })

  -- the effect of a new selection, of a refresh and of new capabilities
  unfoldable pub on_selection : Bool → View → View
  unfolding get_sidebar_content
  on_selection uses_legacy v =
      get_sidebar_content uses_legacy
        (set_banner true "Fetching associated objects ..." (record v { tree_data = [] }))

  -- The rows of the reply; `none` when the request fails or there are none that can be read.
  unfoldable pub on_indices : Option (List (List String)) → View → View
  on_indices none v = set_banner false "Error in loading OpenSearch indices" (record v {
    toasts = "Error in loading OpenSearch indices, please check user permissions" ∷ v.toasts;
  })
  on_indices (some []) v =
      set_banner false "Error fetching data"
        (record v { toasts = "ERROR fetching data" ∷ v.toasts })
  on_indices (some (cells ∷ rows)) v = record v {
    table_names = map (λ r. get_elem? r 2) (cells ∷ rows);
  }

  abbrev pub databases_loaded : Reply → View → View
  databases_loaded reply v =
      set_banner false (to_lower_case reply.status)
        (record v { tree_data = load_tree_item (flattened reply.datarows) database_type })

  unfoldable pub on_databases : Reply → View → View
  unfolding status_of load_tree_item
  on_databases reply v =
      on_status reply (databases_loaded reply) (set_banner true (to_lower_case reply.status) v)

  unfoldable pub on_databases_error : View → View
  on_databases_error v = set_banner false "Failed to load databases" v

  unfoldable pub handle_database_click : Name → View → View
  unfolding update_database
  handle_database_click name v = execute ("SHOW TABLES IN " ⧺ source_and name) (
      on_tree
        (update_database name (λ db. record db { is_expanded = true; is_loading = some true }))
        (record v { selected_database = name }))

  abbrev pub tables_of : List (List String) → List Table
  tables_of rows =
      load_tree_item (map (λ r. name_of (get_elem? r 1)) rows) table_type
      ++ load_tree_item (load_materialized ∷ []) load_materialized_type

  abbrev pub tables_loaded : Reply → Database → Database
  tables_loaded reply db = record db {
    values = some (tables_of reply.datarows);
    is_expanded = true;
    is_loading = some false;
  }

  unfoldable pub on_tables : Name → Reply → View → View
  unfolding status_of load_tree_item update_database
  on_tables name reply v = on_status reply (on_tree (update_database name (tables_loaded reply))) v

  unfoldable pub load_covering_index : Name → Name → View → View
  load_covering_index table database v =
      execute ("SHOW INDEX ON " ⧺ source_and database ⧺ "." ⧺ quoted (shown table)) v

  abbrev pub indices_loaded : Reply → Table → Table
  indices_loaded reply t = record t {
    values =
        or_badge (added t.values (load_tree_item (map row reply.datarows) covering_index_type));
    is_loading = some false;
    is_expanded = true;
  }

  unfoldable pub on_covering : Name → Name → Reply → View → View
  unfolding status_of load_tree_item update_database update_items
  on_covering table database reply v =
      on_status reply (on_tree (update_database database (in_table table (indices_loaded reply)))) v

  unfoldable pub handle_button_click : Name → View → View
  unfolding set_loading_for_table_elements
  handle_button_click database v = execute ("SHOW MATERIALIZED VIEW IN " ⧺ source_and database) (
      set_loading_for_table_elements database load_materialized
        (record v { selected_table = some load_materialized }))

  abbrev pub views_of : List (List String) → List Table
  views_of [] = badge "No Materialized View" (some false) ∷ []
  views_of (cells ∷ rows) = load_tree_item (map row (cells ∷ rows)) materialized_view_type

  abbrev pub with_views : Reply → Option (List Table) → Option (List Table)
  with_views reply none = none
  with_views reply (some tables) =
      some (filter (λ t. not (is_load_badge t)) tables ++ views_of reply.datarows)

  abbrev pub views_loaded : Reply → Database → Database
  views_loaded reply db = record db {
    values = with_views reply db.values;
    is_loading = some false;
    is_expanded = true;
  }

  unfoldable pub on_views : Name → Reply → View → View
  unfolding status_of load_tree_item update_database
  on_views database reply v =
      on_status reply (on_tree (update_database database (views_loaded reply))) v

  unfoldable pub handle_table_click : Name → Name → View → View
  unfolding set_loading_for_table_elements
  handle_table_click table database v =
      execute ("DESC SKIPPING INDEX ON " ⧺ source_and database ⧺ "." ⧺ quoted (shown table))
        (set_loading_for_table_elements database table (record v { selected_table = some table }))

  abbrev pub skipping_loaded : Table → Table
  skipping_loaded t = record t {
    values = some (load_tree_item (named "skipping_index" ∷ []) skipping_index_type);
  }

  -- the skipping index if there is one, and then the question for the others
  abbrev pub after_skipping : Name → Name → Reply → View → View
  after_skipping table database reply v = load_covering_index table database (
      if is_empty reply.datarows
      then v
      else on_tree (update_database database (in_table table skipping_loaded)) v)

  unfoldable pub on_skipping : Name → Name → Reply → View → View
  unfolding status_of load_tree_item update_database update_items load_covering_index
  on_skipping table database reply v = on_status reply (after_skipping table database reply) v

  -- `handleQuery`
  unfoldable pub handle_query : Name → Name → View → View
  handle_query database table v = record v {
    editor =
        ("select * from " ⧺ source_and database ⧺ "." ⧺ quoted (shown table) ⧺ " limit 10")
        ∷ v.editor;
  }

  -- the callbacks of the three levels of the tree
  abbrev pub has_no_values : {C : Type 0} → TreeItem C → Bool
  has_no_values item = elim item.values [ none ↦ false | some vs ↦ is_empty vs ]

  unfoldable pub on_click_database : Database → View → View
  unfolding handle_database_click
  on_click_database db v =
      if has_no_values db && not (data_source == "OpenSearch")
      then handle_database_click db.name v
      else v

  unfoldable pub on_click_table : Database → Table → View → View
  unfolding handle_button_click handle_table_click open_flyout
  on_click_table db t v = elim t.type [
    | load_materialized_type ↦ handle_button_click db.name v
    | materialized_view_type ↦
        open_flyout
          (record {
            acceleration_index_type = materialized;
            data_source = data_source;
            database = db.name;
            data_table = t.name;
            index_name = none;
          })
          v
    | _ ↦ if has_no_values t then handle_table_click t.name db.name v else v
  ]

  abbrev pub index_props : Database → Table → Index → AccelerationIndexType → IndexFlyout
  index_props db t i type = record {
    acceleration_index_type = type;
    data_source = data_source;
    database = db.name;
    data_table = t.name;
    index_name = some i.name;
  }

  unfoldable pub on_click_index : Database → Table → Index → View → View
  unfolding open_flyout
  on_click_index db t i v = elim i.type [
    | badge_type ↦ v
    | skipping_index_type ↦ open_flyout (index_props db t i skipping) v
    | _ ↦ open_flyout (index_props db t i covering) v
  ]

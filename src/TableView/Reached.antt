-- ===== src/TableView/Reached.antt =====
-- Every tree that can come about with one data source, which a run keeps.
use dashboards_query_workben.Common.{
  String, Bool, false, Option, none, some, List, [], ◌∷◌, ◌≡◌, refl, Bool-cases, inl, inr, ◌==◌,
  if◌then◌else◌, not, ◌&&◌,
}
use dashboards_query_workben.CatalogTree.Objects.{
  TreeItemType, covering_index_type, skipping_index_type, database_type, load_materialized_type,
  materialized_view_type, table_type, badge_type,
}
use dashboards_query_workben.TableView.{
  Name, Table, Index, Database, View, Reply, IndexFlyout, load_materialized,
  set_tree_data_database_error, set_tree_data_table_error, reset_flyout, open_flyout,
}
use dashboards_query_workben.TableView.Handlers.{
  on_selection, get_sidebar_content, on_indices, on_databases, on_databases_error, on_tables,
  handle_table_click, handle_button_click, on_covering, on_skipping, on_views, on_click_database,
  on_click_table, on_click_index, handle_query, has_no_values,
}
use dashboards_query_workben.TableView.Flyout.{update_describe_query, update_drop_query}
use dashboards_query_workben.TableView.Shape.{IsTree}
use dashboards_query_workben.TableView.Events.{
  on_databases-IsTree, on_tables-IsTree, on_covering-IsTree, on_views-IsTree, on_skipping-IsTree,
  loading-IsTree, table_error-IsTree, database_error-IsTree, database_click-IsTree,
}

-- What the user does, and the callbacks and error callbacks of the queries, each for the items that it was made for.
pub data TableEvent : Type 0 where
  selects : Bool → TableEvent
  gets_indices : Option (List (List String)) → TableEvent
  gets_databases : Reply → TableEvent
  gets_tables gets_views : Name → Reply → TableEvent
  gets_skipping gets_covering : Name → Name → Reply → TableEvent
  fails_databases : TableEvent
  fails_tables fails_views : Name → TableEvent
  fails_indices : Name → Name → TableEvent
  clicks_database : Database → TableEvent
  clicks_table : Database → Table → TableEvent
  clicks_index : Database → Table → Index → TableEvent
  clicks_query : Name → Name → TableEvent
  describes drops : IndexFlyout → TableEvent
  closes : TableEvent

abbrev pub first_view : View
first_view = record {
  table_names = [];
  selected_database = Name.named "";
  selected_table = none;
  is_loading_banner = record { flag = false; status = "Not loading" };
  index_flyout = none;
  tree_data = [];
  indices_queries = [];
  queries = [];
  editor = [];
  toasts = [];
}

module _ (to_lower_case : String → String) (data_source : String) where
  -- The error callback of the materialized views gives the name of the badge for the database's and the other way round.
  unfoldable pub on_table_event : TableEvent → View → View
  unfolding on_selection on_indices on_databases on_tables on_views on_skipping on_covering
      on_databases_error set_tree_data_database_error set_tree_data_table_error on_click_database
      on_click_table on_click_index handle_query update_describe_query update_drop_query
      reset_flyout
  on_table_event (selects uses_legacy) v = on_selection to_lower_case data_source uses_legacy v
  on_table_event (gets_indices rows) v = on_indices to_lower_case data_source rows v
  on_table_event (gets_databases reply) v = on_databases to_lower_case data_source reply v
  on_table_event (gets_tables database reply) v =
      on_tables to_lower_case data_source database reply v
  on_table_event (gets_views database reply) v = on_views to_lower_case data_source database reply v
  on_table_event (gets_skipping table database reply) v =
      on_skipping to_lower_case data_source table database reply v
  on_table_event (gets_covering table database reply) v =
      on_covering to_lower_case data_source table database reply v
  on_table_event fails_databases v = on_databases_error to_lower_case data_source v
  on_table_event (fails_tables database) v = set_tree_data_database_error database v
  on_table_event (fails_views database) v = set_tree_data_table_error load_materialized database v
  on_table_event (fails_indices table database) v = set_tree_data_table_error database table v
  on_table_event (clicks_database db) v = on_click_database to_lower_case data_source db v
  on_table_event (clicks_table db t) v = on_click_table to_lower_case data_source db t v
  on_table_event (clicks_index db t i) v = on_click_index to_lower_case data_source db t i v
  on_table_event (clicks_query database table) v =
      handle_query to_lower_case data_source database table v
  on_table_event (describes props) v = update_describe_query props v
  on_table_event (drops props) v = update_drop_query props v
  on_table_event closes v = reset_flyout v

  unfoldable pub run_table_events : List TableEvent → View → View
  run_table_events [] v = v
  run_table_events (e ∷ es) v = run_table_events es (on_table_event e v)

  selection-IsTree :
      (uses_legacy : Bool) (v : View)
      → IsTree (on_selection to_lower_case data_source uses_legacy v)
  unfolding on_selection get_sidebar_content
  selection-IsTree uses_legacy v = elim (Bool-cases (data_source == "OpenSearch")) [
    | inl yes_ ↦ rw yes_ tt
    | inr no_ ↦ rw no_ tt
  ]

  click_database-IsTree :
      (db : Database) (v : View)
      → IsTree v
      → IsTree (on_click_database to_lower_case data_source db v)
  unfolding on_click_database
  click_database-IsTree db v h =
      elim (Bool-cases
        (has_no_values to_lower_case data_source db && not (data_source == "OpenSearch"))) [
          | inl yes_ ↦ rw yes_ (database_click-IsTree to_lower_case data_source db.name v h)
          | inr no_ ↦ rw no_ h
        ]

  table_click-IsTree :
      (db : Database) (t : Table) (v : View)
      → IsTree v
      → IsTree (
          if has_no_values to_lower_case data_source t
          then handle_table_click to_lower_case data_source t.name db.name v
          else v)
  unfolding handle_table_click
  table_click-IsTree db t v h = elim (Bool-cases (has_no_values to_lower_case data_source t)) [
    | inl yes_ ↦ rw yes_ (
        loading-IsTree to_lower_case data_source db.name t.name
          (record v { selected_table = some t.name }) h)
    | inr no_ ↦ rw no_ h
  ]

  click_table-IsTree :
      (db : Database) (t : Table) (v : View)
      → IsTree v
      → IsTree (on_click_table to_lower_case data_source db t v)
  unfolding on_click_table handle_button_click open_flyout
  click_table-IsTree db t v h = by_type t.type refl
    where
      by_type :
          (type : TreeItemType)
          → t.type ≡ type
          → IsTree (on_click_table to_lower_case data_source db t v)
      by_type load_materialized_type e =
          rw (e, on_click_table)
            (loading-IsTree to_lower_case data_source db.name load_materialized
              (record v { selected_table = some load_materialized }) h)
      by_type materialized_view_type e = rw (e, on_click_table) h
      by_type covering_index_type e = rw (e, on_click_table) (table_click-IsTree db t v h)
      by_type skipping_index_type e = rw (e, on_click_table) (table_click-IsTree db t v h)
      by_type table_type e = rw (e, on_click_table) (table_click-IsTree db t v h)
      by_type database_type e = rw (e, on_click_table) (table_click-IsTree db t v h)
      by_type badge_type e = rw (e, on_click_table) (table_click-IsTree db t v h)

  click_index-IsTree :
      (db : Database) (t : Table) (i : Index) (v : View)
      → IsTree v
      → IsTree (on_click_index to_lower_case data_source db t i v)
  unfolding on_click_index open_flyout
  click_index-IsTree db t i v h = by_type i.type refl
    where
      by_type :
          (type : TreeItemType)
          → i.type ≡ type
          → IsTree (on_click_index to_lower_case data_source db t i v)
      by_type load_materialized_type e = rw (e, on_click_index) h
      by_type materialized_view_type e = rw (e, on_click_index) h
      by_type covering_index_type e = rw (e, on_click_index) h
      by_type skipping_index_type e = rw (e, on_click_index) h
      by_type table_type e = rw (e, on_click_index) h
      by_type database_type e = rw (e, on_click_index) h
      by_type badge_type e = rw (e, on_click_index) h

  on_table_event-IsTree : (e : TableEvent) (v : View) → IsTree v → IsTree (on_table_event e v)
  unfolding on_table_event on_indices on_databases_error handle_query update_describe_query
      update_drop_query reset_flyout
  on_table_event-IsTree (selects uses_legacy) v h = selection-IsTree uses_legacy v
  on_table_event-IsTree (gets_indices none) v h = h
  on_table_event-IsTree (gets_indices (some [])) v h = h
  on_table_event-IsTree (gets_indices (some (cells ∷ rows))) v h = h
  on_table_event-IsTree (gets_databases reply) v h =
      on_databases-IsTree to_lower_case data_source reply v h
  on_table_event-IsTree (gets_tables database reply) v h =
      on_tables-IsTree to_lower_case data_source database reply v h
  on_table_event-IsTree (gets_views database reply) v h =
      on_views-IsTree to_lower_case data_source database reply v h
  on_table_event-IsTree (gets_skipping table database reply) v h =
      on_skipping-IsTree to_lower_case data_source table database reply v h
  on_table_event-IsTree (gets_covering table database reply) v h =
      on_covering-IsTree to_lower_case data_source table database reply v h
  on_table_event-IsTree fails_databases v h = h
  on_table_event-IsTree (fails_tables database) v h =
      database_error-IsTree to_lower_case data_source database v h
  on_table_event-IsTree (fails_views database) v h =
      table_error-IsTree to_lower_case data_source load_materialized database v h
  on_table_event-IsTree (fails_indices table database) v h =
      table_error-IsTree to_lower_case data_source database table v h
  on_table_event-IsTree (clicks_database db) v h = click_database-IsTree db v h
  on_table_event-IsTree (clicks_table db t) v h = click_table-IsTree db t v h
  on_table_event-IsTree (clicks_index db t i) v h = click_index-IsTree db t i v h
  on_table_event-IsTree (clicks_query database table) v h = h
  on_table_event-IsTree (describes props) v h = h
  on_table_event-IsTree (drops props) v h = h
  on_table_event-IsTree closes v h = h

  run-IsTree : (es : List TableEvent) (v : View) → IsTree v → IsTree (run_table_events es v)
  unfolding run_table_events
  run-IsTree [] v h = h
  run-IsTree (e ∷ es) v h = run-IsTree es (on_table_event e v) (on_table_event-IsTree e v h)

  -- Whatever is selected and clicked and whatever replies and failures come, for whichever items and in whichever
  -- order: below a database of the tree stand tables, materialized views and badges only, and below these covering
  -- indices, skipping indices and badges only.
  pub run_table_events-IsTree : (es : List TableEvent) → IsTree (run_table_events es first_view)
  run_table_events-IsTree es = run-IsTree es first_view tt

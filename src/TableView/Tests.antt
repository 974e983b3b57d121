-- ===== src/TableView/Tests.antt =====
-- A data source with a database, a table and its indices.
use dashboards_query_workben.Common.{
  String, false, true, none, some, List, [], ◌∷◌, ◌≡◌, refl, map, join,
}
use dashboards_query_workben.Acceleration.Types.{covering}
use dashboards_query_workben.TableView.{Name, named, row, Table, Database, View, Reply, IndexFlyout}
use dashboards_query_workben.TableView.Flyout.{generate_query_and_index_name}
use dashboards_query_workben.TableView.Shape.{IsTree}
use dashboards_query_workben.TableView.Reached.{
  TableEvent, selects, gets_databases, gets_tables, gets_skipping, gets_covering, gets_views,
  first_view, on_table_event, run_table_events, run_table_events-IsTree,
}

abbrev as_is : String → String
as_is s = s

abbrev reply : List (List String) → Reply
reply rows = record { status = "success"; error = none; datarows = rows }

abbrev opened : List TableEvent
opened =
    selects false
    ∷ gets_databases (reply (("default" ∷ []) ∷ []))
    ∷ gets_tables (named "default") (reply (("default" ∷ "logs" ∷ []) ∷ []))
    ∷ []

abbrev shown_names : View → List (List Name)
shown_names v = map (λ (db : Database). names db.values) v.tree_data
  where
    names : dashboards_query_workben.Common.Option (List Table) → List Name
    names none = []
    names (some ts) = map (λ (t : Table). t.name) ts

opened_names :
    shown_names (run_table_events as_is "glue" opened first_view)
    ≡ (named "logs" ∷ named "Load Materialized View" ∷ []) ∷ []
unfolding run_table_events on_table_event
opened_names = refl

opened_queries :
    map (λ q. q.query) (run_table_events as_is "glue" (opened) first_view).queries
    ≡ "SHOW SCHEMAS IN `glue`" ∷ []
unfolding run_table_events on_table_event
opened_queries = refl

run_table_events-IsTree_example : IsTree (
    run_table_events as_is "glue"
      (selects false
        ∷ gets_databases (reply (("default" ∷ []) ∷ []))
        ∷ gets_tables (named "default") (reply (("default" ∷ "logs" ∷ []) ∷ []))
        ∷ gets_skipping (named "logs") (named "default") (reply (("a" ∷ []) ∷ []))
        ∷ gets_covering (named "logs") (named "default") (reply (("by_status" ∷ []) ∷ []))
        ∷ gets_views (named "default") (reply [])
        ∷ [])
      first_view)
run_table_events-IsTree_example = run_table_events-IsTree as_is "glue" (
    selects false
    ∷ gets_databases (reply (("default" ∷ []) ∷ []))
    ∷ gets_tables (named "default") (reply (("default" ∷ "logs" ∷ []) ∷ []))
    ∷ gets_skipping (named "logs") (named "default") (reply (("a" ∷ []) ∷ []))
    ∷ gets_covering (named "logs") (named "default") (reply (("by_status" ∷ []) ∷ []))
    ∷ gets_views (named "default") (reply [])
    ∷ [])

-- While the indices of the cluster are fetched, nothing says that the page is loading.
no_spinner :
    (run_table_events as_is "OpenSearch" (selects false ∷ []) first_view).is_loading_banner.flag
    ≡ false
unfolding run_table_events on_table_event
no_spinner = refl

abbrev props : IndexFlyout
props = record {
  acceleration_index_type = covering;
  data_source = "glue";
  database = named "default";
  data_table = named "logs";
  index_name = some (row ("by_status" ∷ []));
}

drop_query :
    (generate_query_and_index_name props).drop_query ≡ "DROP INDEX by_status ON glue.default.logs"
unfolding generate_query_and_index_name join
drop_query = refl

index_name :
    (generate_query_and_index_name props).index_name ≡ "flint_glue_default_logs_by_status_index"
unfolding generate_query_and_index_name join
index_name = refl

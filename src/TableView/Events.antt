-- ===== src/TableView/Events.antt =====
-- Whatever happens to the tree, its shape stays.
use dashboards_query_workben.Common.{
  String, true, false, not, Option, none, some, List, [], ◌∷◌, map, filter, All-append, Bool-cases,
  inl, inr, is_empty,
}
use dashboards_query_workben.CatalogTree.Objects.{covering_index_type, skipping_index_type}
use dashboards_query_workben.TableView.{
  Name, Table, View, Reply, set_banner, in_table, load_tree_item, update_database, on_tree,
  set_tree_data_database_error, set_tree_data_table_error, named, set_loading_for_table_elements,
  is_success, is_failure, flattened, row,
}
use dashboards_query_workben.TableView.Handlers.{
  status_in, on_status, on_databases, on_tables, handle_database_click, on_covering, on_skipping,
  load_covering_index, on_views, databases_loaded, tables_loaded, indices_loaded, with_views,
  views_loaded, skipping_loaded, after_skipping, is_load_badge, views_of,
}
use dashboards_query_workben.TableView.Shape.{
  Below, IsTable, IsTree, update_database-IsDatabase, in_both-IsTree, new_indices-IsIndex,
  new_databases-IsDatabase, tables_of-IsTable, views_of-IsTable, filter-IsTable, added-IsIndex,
}

module _ (to_lower_case : String → String) (data_source : String) where
  -- A callback keeps the shape if what it does on success does.
  on_status-IsTree :
      (reply : Reply) (done : View → View) (v : View)
      → IsTree (done v)
      → IsTree v
      → IsTree (on_status to_lower_case data_source reply done v)
  on_status-IsTree reply done v k h =
      elim (Bool-cases (is_success (status_in to_lower_case data_source reply))) [
        | inl yes_ ↦ rw yes_ k
        | inr no_ ↦ elim (Bool-cases (is_failure (status_in to_lower_case data_source reply))) [
          | inl yes_ ↦ rw (no_, yes_) h
          | inr no_' ↦ rw (no_, no_') h
        ]
      ]

  pub on_databases-IsTree :
      (reply : Reply) (v : View)
      → IsTree v
      → IsTree (on_databases to_lower_case data_source reply v)
  unfolding on_databases
  on_databases-IsTree reply v h =
      on_status-IsTree reply (databases_loaded to_lower_case data_source reply)
        (set_banner true (to_lower_case reply.status) v)
        (new_databases-IsDatabase (flattened reply.datarows)) h

  pub on_tables-IsTree :
      (name : Name) (reply : Reply) (v : View)
      → IsTree v
      → IsTree (on_tables to_lower_case data_source name reply v)
  unfolding on_tables
  on_tables-IsTree name reply v h =
      let loaded = tables_loaded to_lower_case data_source reply in
      on_status-IsTree reply (on_tree (update_database name loaded)) v
        (update_database-IsDatabase name loaded
          (λ db p. (p.0, tables_of-IsTable to_lower_case data_source reply.datarows)) v.tree_data h)
        h

  pub on_covering-IsTree :
      (table database : Name) (reply : Reply) (v : View)
      → IsTree v
      → IsTree (on_covering to_lower_case data_source table database reply v)
  unfolding on_covering
  on_covering-IsTree table database reply v h =
      let loaded = indices_loaded to_lower_case data_source reply in
      let names = map row reply.datarows in
      on_status-IsTree reply (on_tree (update_database database (in_table table loaded))) v
        (in_both-IsTree database table loaded v
          (λ t p. (
            p.0,
            added-IsIndex t.values (load_tree_item names covering_index_type) p.1
                (new_indices-IsIndex covering_index_type names tt),
          ))
          h)
        h

  with_views-IsTable :
      (reply : Reply) (values : Option (List Table))
      → Below IsTable values
      → Below IsTable (with_views to_lower_case data_source reply values)
  with_views-IsTable reply none h = tt
  with_views-IsTable reply (some tables) h =
      All-append IsTable (filter (λ t. not (is_load_badge t)) tables)
        (views_of to_lower_case data_source reply.datarows)
        (filter-IsTable (λ t. not (is_load_badge t)) tables h)
        (views_of-IsTable to_lower_case data_source reply.datarows)

  pub on_views-IsTree :
      (database : Name) (reply : Reply) (v : View)
      → IsTree v
      → IsTree (on_views to_lower_case data_source database reply v)
  unfolding on_views
  on_views-IsTree database reply v h =
      let loaded = views_loaded to_lower_case data_source reply in
      on_status-IsTree reply (on_tree (update_database database loaded)) v
        (update_database-IsDatabase database loaded
          (λ db p. (p.0, with_views-IsTable reply db.values p.1)) v.tree_data h)
        h

  after_skipping-IsTree :
      (table database : Name) (reply : Reply) (v : View)
      → IsTree v
      → IsTree (after_skipping to_lower_case data_source table database reply v)
  unfolding load_covering_index
  after_skipping-IsTree table database reply v h = elim (Bool-cases (is_empty reply.datarows)) [
    | inl yes_ ↦ rw yes_ h
    | inr no_ ↦ rw no_ (
        in_both-IsTree database table (skipping_loaded to_lower_case data_source) v
          (λ t p. (p.0, new_indices-IsIndex skipping_index_type (named "skipping_index" ∷ []) tt))
          h)
  ]

  pub on_skipping-IsTree :
      (table database : Name) (reply : Reply) (v : View)
      → IsTree v
      → IsTree (on_skipping to_lower_case data_source table database reply v)
  unfolding on_skipping
  on_skipping-IsTree table database reply v h =
      on_status-IsTree reply (after_skipping to_lower_case data_source table database reply) v
        (after_skipping-IsTree table database reply v h) h

  pub loading-IsTree :
      (database table : Name) (v : View)
      → IsTree v
      → IsTree (set_loading_for_table_elements database table v)
  unfolding set_loading_for_table_elements
  loading-IsTree database table v h =
      in_both-IsTree database table (λ t. record t { is_loading = some true }) v (λ t p. p) h

  pub table_error-IsTree :
      (database table : Name) (v : View)
      → IsTree v
      → IsTree (set_tree_data_table_error database table v)
  unfolding set_tree_data_table_error
  table_error-IsTree database table v h =
      in_both-IsTree database table (λ t. record t { is_loading = some false; is_expanded = false })
        v (λ t p. p) h

  pub database_error-IsTree :
      (database : Name) (v : View) → IsTree v → IsTree (set_tree_data_database_error database v)
  unfolding set_tree_data_database_error
  database_error-IsTree database v h =
      update_database-IsDatabase database (λ db. record db { is_loading = some false }) (λ db p. p)
        v.tree_data h

  pub database_click-IsTree :
      (name : Name) (v : View)
      → IsTree v
      → IsTree (handle_database_click to_lower_case data_source name v)
  unfolding handle_database_click
  database_click-IsTree name v h =
      update_database-IsDatabase name
        (λ db. record db { is_expanded = true; is_loading = some true }) (λ db p. p) v.tree_data h

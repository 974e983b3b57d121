-- ===== src/CatalogTree/Agreement.antt =====
-- public/components/SQLPage/sql_catalog_tree/s3_tree.tsx: a click on a database whose objects are in the cache, against
-- one whose objects are loaded first.
use dashboards_query_workben.Common.{
  String, true, false, Option, none, List, [], ◌∷◌, ◌≡◌, refl, ap, sym, ◌∙◌, Bool-cases, inl, inr,
  is_blank,
}
use dashboards_query_workben.CatalogTree.Objects.{
  Manager, Database, is_either_object_cache_empty, get_accelerations_from_cache,
  get_tables_from_cache,
}
use dashboards_query_workben.CatalogTree.{
  S3State, update_database_state, is_named, on_click_database, on_object_loading, on_tables_status,
  on_accelerations_status, ends, filled_tree, construct_object_tree,
}

-- To mark a database as loading twice is to mark it once.
loading_twice :
    (name : String) (tree : List Database)
    → update_database_state name true none (update_database_state name true none tree)
      ≡ update_database_state name true none tree
unfolding update_database_state
loading_twice name [] = refl
loading_twice name (db ∷ dbs) = elim (Bool-cases (is_named name db)) [
  | inl named ↦ rw (named, named) refl
  | inr other ↦ rw (other, other) (ap (◌∷◌ db) (loading_twice name dbs))
]

module _ (data_source name : String) (s : S3State) where
  -- the state after the loads that a click starts have ended with these statuses
  abbrev pub loaded : Option Manager → Option Manager → Option String → String → String → S3State
  loaded at_click at_end mds_id tables_status accelerations_status =
      on_object_loading at_end data_source mds_id (
        on_accelerations_status accelerations_status
          (on_tables_status tables_status (on_click_database at_click data_source mds_id name s)))

  -- Where the cache gives the accelerations for the data source's id that it gives for no id, and no database is being
  -- loaded: when both loads have ended, the tree is the one that a click gives when the cache is filled from the start,
  -- and the next database can be clicked.
  pub loaded_trees_agree :
      (at_click at_end : Option Manager) (mds_id : Option String)
      (tables_status accelerations_status : String)
      → get_accelerations_from_cache at_end data_source mds_id
        ≡ get_accelerations_from_cache at_end data_source none
      → s.current_selected_database ≡ ""
      → is_blank name ≡ false
      → is_either_object_cache_empty at_click data_source name mds_id ≡ true
      → is_either_object_cache_empty at_end data_source name mds_id ≡ false
      → ends tables_status ≡ true
      → ends accelerations_status ≡ true
      → ((loaded at_click at_end mds_id tables_status accelerations_status).tree_data
          ≡ (on_click_database at_end data_source mds_id name s).tree_data)
        × ((loaded at_click at_end mds_id tables_status
              accelerations_status).current_selected_database
            ≡ "")
  unfolding on_click_database on_object_loading on_tables_status on_accelerations_status
  loaded_trees_agree at_click at_end mds_id tables_status accelerations_status alike idle named
        missing filled tables_end accelerations_end =
      rw (idle, missing, filled, tables_end, accelerations_end, named)
        (
          ap (filled_tree at_end data_source name mds_id none) (
                loading_twice name (update_database_state name true none s.tree_data)
                ∙ loading_twice name s.tree_data)
              ∙ ap
                  (λ accelerations. update_database_state name false none (
                    construct_object_tree name
                      (get_tables_from_cache at_end data_source name mds_id) accelerations
                      (update_database_state name true none s.tree_data)))
                  (sym alike),
          refl,
        )

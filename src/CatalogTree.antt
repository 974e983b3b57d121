-- ===== src/CatalogTree.antt =====
-- public/components/SQLPage/sql_catalog_tree/s3_tree.tsx: the tree of the databases of an S3 data source, and its
-- loading against the cache of another plugin.
pub mod Objects
pub mod Found
pub mod Agreement
pub mod Indices
mod Tests
use dashboards_query_workben.Common.{
  String, Bool, true, false, not, ◌&&◌, ◌||◌, Option, none, some, List, [], ◌∷◌, ◌++◌, map, get_or,
  is_empty, if◌then◌else◌, ◌==◌, is_blank,
}
use dashboards_query_workben.CatalogTree.Objects.{
  AccelerationCacheItem, CacheStatus, updated, failed, empty, Index, Table, Database, TreeItem,
  database_type, skipping_index_type, covering_index_type, table_type, materialized_view_type,
  load_tree_item, Manager, is_either_object_cache_empty, get_tables_from_cache, tables_toast,
  get_accelerations_from_cache, find_skipping_and_covering_index_names,
  find_materialized_views_for_database, find_index_object,
}

pub record TreeLoading : Type 0 where
  pub status : Bool
  pub message : String

pub record ObjectLoading : Type 0 where
  pub table_status : Bool
  pub accelerations_status : Bool

-- What the component asks the hooks of the other plugin to load.
pub data Load : Type 0 where
  databases : Load
  tables : String → Load
  accelerations : Load

-- The component's state, the loads that it has started and the warnings that it has shown, the latest first.
pub record S3State : Type 0 where
  pub tree_data : List Database
  pub current_selected_database : String
  pub is_tree_loading : TreeLoading
  pub is_object_loading : ObjectLoading
  pub loads : List Load
  pub toasts : List String

abbrev pub first_state : S3State
first_state = record {
  tree_data = [];
  current_selected_database = "";
  is_tree_loading = record { status = false; message = "" };
  is_object_loading = record { table_status = false; accelerations_status = false };
  loads = [];
  toasts = [];
}

unfoldable pub refresh_databases_in_tree : List Database → List Database
refresh_databases_in_tree tree =
    map
      (λ (db : Database). record db {
        is_expanded = false;
        is_loading = some false;
        values = some [];
      })
      tree

abbrev pub is_named : String → Database → Bool
is_named name db = elim db.name [ none ↦ false | some own ↦ own == name ]

-- `databaseToUpdate.values`
abbrev pub added : Option (List Table) → Option (List Table) → Option (List Table)
added values none = values
added none (some new) = some new
added (some old) (some new) = some (old ++ new)

abbrev pub loading_database : Bool → Option (List Table) → Database → Database
loading_database is_loading values db = record db {
  is_expanded = true;
  is_loading = some is_loading;
  values = added db.values values;
}

-- `updateDatabaseState`: the first database of that name
unfoldable pub update_database_state :
    String → Bool → Option (List Table) → List Database → List Database
update_database_state name is_loading values [] = []
update_database_state name is_loading values (db ∷ dbs) =
    let rest = update_database_state name is_loading values dbs in
    if is_named name db then loading_database is_loading values db ∷ dbs else db ∷ rest

abbrev pub is_skipping_name : Option String → Bool
is_skipping_name none = false
is_skipping_name (some name) = name == "skipping_index"

abbrev pub index_item : Option String → Index
index_item index =
    if is_skipping_name index
    then load_tree_item (some "skipping_index") skipping_index_type none
    else load_tree_item index covering_index_type none

abbrev pub table_item : List AccelerationCacheItem → String → String → Table
table_item accelerations_data database name = load_tree_item (some name) table_type (
    some (map index_item (find_skipping_and_covering_index_names accelerations_data database name)))

-- the children that `constructObjectTree` gives a database
unfoldable pub object_items : String → List String → List AccelerationCacheItem → List Table
unfolding find_skipping_and_covering_index_names find_materialized_views_for_database
object_items database tables_data accelerations_data =
    map (table_item accelerations_data database) tables_data
    ++ map (λ view. load_tree_item view materialized_view_type none)
        (find_materialized_views_for_database accelerations_data database)

unfoldable pub construct_object_tree :
    String → List String → List AccelerationCacheItem → List Database → List Database
unfolding object_items update_database_state
construct_object_tree database tables_data accelerations_data tree =
    update_database_state database true
      (some (object_items database tables_data accelerations_data)) tree

module _ (cache : Option Manager) (data_source : String) where
  -- the tree once the objects of a database are in the cache, with the data source that each is read for
  abbrev pub filled_tree : String → Option String → Option String → List Database → List Database
  filled_tree name tables_id accelerations_id tree = update_database_state name false none (
      construct_object_tree name (get_tables_from_cache cache data_source name tables_id)
        (get_accelerations_from_cache cache data_source accelerations_id) tree)

  unfoldable pub on_click_database : Option String → String → S3State → S3State
  unfolding is_either_object_cache_empty get_tables_from_cache get_accelerations_from_cache
      construct_object_tree update_database_state
  on_click_database mds_id name s =
      let tree = update_database_state name true none s.tree_data in
      if is_blank s.current_selected_database
      then if not (is_either_object_cache_empty cache data_source name mds_id)
        then record s {
          tree_data = filled_tree name mds_id mds_id tree;
          current_selected_database = "";
          toasts = tables_toast cache data_source name mds_id ++ s.toasts;
        }
        else record s {
          tree_data =
              update_database_state name true none (update_database_state name true none tree);
          current_selected_database = name;
          is_object_loading = record { table_status = true; accelerations_status = true };
          loads = accelerations ∷ tables name ∷ s.loads;
        }
      else record s { toasts = "Can only load one database at a time" ∷ s.toasts }

  -- the callback of a database in the tree: only one without children is loaded
  unfoldable pub database_callback : Option String → Database → S3State → S3State
  unfolding on_click_database
  database_callback mds_id db s = elim db.values [
    | none ↦ s
    | some values ↦ if is_empty values then on_click_database mds_id (get_or db.name "") s else s
  ]

  -- the effect on `isObjectLoading`
  unfoldable pub on_object_loading : Option String → S3State → S3State
  unfolding get_tables_from_cache get_accelerations_from_cache construct_object_tree
      update_database_state
  on_object_loading mds_id s =
      let loading = s.is_object_loading.accelerations_status || s.is_object_loading.table_status in
      if not loading && not (is_blank s.current_selected_database)
      then record s {
        tree_data = filled_tree s.current_selected_database mds_id none s.tree_data;
        current_selected_database = "";
        toasts = tables_toast cache data_source s.current_selected_database mds_id ++ s.toasts;
      }
      else s

  abbrev pub database_items : List String → List Database
  database_items names = map (λ name. load_tree_item (some name) database_type none) names

  unfoldable pub on_load_s3_tree : Option String → S3State → S3State
  on_load_s3_tree mds_id s = elim cache [
    | none ↦ record s { is_tree_loading = record { status = false; message = "" } }
    | some manager ↦
        let ds_cache = manager.get_or_create_data_source data_source mds_id in
        elim ds_cache.status [
          | updated ↦ record s {
            tree_data = database_items ds_cache.databases;
            is_tree_loading = record { status = false; message = "" };
          }
          | empty ↦ record s {
            is_tree_loading = record { status = true; message = "" };
            loads = databases ∷ s.loads;
          }
          | failed ↦ record s { is_tree_loading = record { status = true; message = "" } }
        ]
  ]

  -- the effect on `loadDatabasesStatus`, its status in lower case
  unfoldable pub on_databases_status : Option String → String → S3State → S3State
  unfolding refresh_databases_in_tree
  on_databases_status mds_id status s =
      let refreshed = record s {
        tree_data = refresh_databases_in_tree s.tree_data;
        is_tree_loading = record { status = false; message = "" };
      } in
      if status == "success"
      then (elim cache [
        | none ↦ refreshed
        | some manager ↦
            let ds_cache = manager.get_or_create_data_source data_source mds_id in
            elim ds_cache.status [
              | updated ↦ record refreshed { tree_data = database_items ds_cache.databases }
              | empty ↦ refreshed
              | failed ↦ refreshed
            ]
      ])
      else if (status == "failed") || (status == "cancelled")
      then record s {
        is_tree_loading = record { status = false; message = "Failed to load databases" };
      }
      else s

  unfoldable pub on_click_acceleration :
      Option String → String → Option String → Option String → Option AccelerationCacheItem
  unfolding get_accelerations_from_cache find_index_object
  on_click_acceleration mds_id database_name table_name acceleration_name =
      find_index_object (get_accelerations_from_cache cache data_source mds_id) database_name
        table_name acceleration_name

unfoldable pub on_refresh_tree : S3State → S3State
on_refresh_tree s = record s {
  is_tree_loading = record { status = true; message = "" };
  loads = databases ∷ s.loads;
}

-- the statuses after which the two effects on the loading of objects end it
abbrev pub ends : String → Bool
ends status = (status == "success") || ((status == "failed") || (status == "cancelled"))

unfoldable pub on_tables_status : String → S3State → S3State
on_tables_status status s =
    if ends status
    then record s { is_object_loading = record s.is_object_loading { table_status = false } }
    else s

unfoldable pub on_accelerations_status : String → S3State → S3State
on_accelerations_status status s =
    if ends status
    then record s {
      is_object_loading = record s.is_object_loading { accelerations_status = false };
    }
    else s

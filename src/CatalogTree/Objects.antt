-- ===== src/CatalogTree/Objects.antt =====
-- public/components/SQLPage/sql_catalog_tree/s3_tree_helpers.tsx: the items of the tree and what is read of the cache.
-- A name that is `null` is `none`.
use dashboards_query_workben.Common.{
  String, Bool, true, false, ◌&&◌, ◌||◌, Option, none, some, List, [], ◌∷◌, map, filter, find,
  if◌then◌else◌, ◌==◌, ◌⧺◌, get_or,
}
use dashboards_query_workben.Capabilities.{truthy}

pub data TreeItemType : Type 0 where
  covering_index_type skipping_index_type table_type database_type : TreeItemType
  materialized_view_type load_materialized_type badge_type : TreeItemType

-- An item whose children are of the type `C`; `none` is a field that is not set.
pub record TreeItem (C : Type 0) : Type 0 where
  pub name : Option String
  pub type : TreeItemType
  pub is_expanded : Bool
  pub values : Option (List C)
  pub is_loading : Option Bool

abbrev pub Index : Type 0
Index = TreeItem Unit

abbrev pub Table : Type 0
Table = TreeItem Index

abbrev pub Database : Type 0
Database = TreeItem Table

pub record AccelerationCacheItem : Type 0 where
  pub database : String
  pub table : String
  pub type : String
  pub index_name : Option String

abbrev pub is_leaf : TreeItemType → Bool
is_leaf covering_index_type = true
is_leaf skipping_index_type = true
is_leaf _ = false

-- `loadTreeItem` for one element
unfoldable pub load_tree_item :
    {C : Type 0} → Option String → TreeItemType → Option (List C) → TreeItem C
load_tree_item element type values = record {
  name = element;
  type = type;
  is_expanded = false;
  values = if is_leaf type then none else some (get_or values []);
  is_loading = if is_leaf type then none else some false;
}

pub data CacheStatus : Type 0 where
  updated failed empty : CacheStatus

pub record CachedDatabase : Type 0 where
  pub status : CacheStatus
  pub tables : List String

pub record CachedAccelerations : Type 0 where
  pub status : CacheStatus
  pub accelerations : List AccelerationCacheItem

pub record CachedDataSource : Type 0 where
  pub status : CacheStatus
  pub databases : List String

-- What is called of the other plugin's cache; `none` is an exception. The last text is the id of a data source.
pub record Manager : Type 0 where
  pub get_database : String → String → Option String → Option CachedDatabase
  pub get_or_create_accelerations : String → Option String → CachedAccelerations
  pub get_or_create_data_source : String → Option String → CachedDataSource

abbrev pub is_not_loaded : CacheStatus → Bool
is_not_loaded updated = false
is_not_loaded _ = true

module _ (cache : Option Manager) (data_source_name : String) where
  unfoldable pub is_either_object_cache_empty : String → Option String → Bool
  is_either_object_cache_empty database_name mds_id = elim cache [
    | none ↦ false
    | some manager ↦ elim (manager.get_database data_source_name database_name mds_id) [
      | none ↦ false
      | some db_cache ↦
          is_not_loaded db_cache.status
          || is_not_loaded (manager.get_or_create_accelerations data_source_name mds_id).status
    ]
  ]

  unfoldable pub get_tables_from_cache : String → Option String → List String
  get_tables_from_cache database_name mds_id = elim cache [
    | none ↦ []
    | some manager ↦ elim (manager.get_database data_source_name database_name mds_id) [
      | none ↦ []
      | some db_cache ↦ if is_not_loaded db_cache.status then [] else db_cache.tables
    ]
  ]

  -- its warning, when the cache throws
  abbrev pub tables_toast : String → Option String → List String
  tables_toast database_name mds_id = elim cache [
    | none ↦ []
    | some manager ↦ elim (manager.get_database data_source_name database_name mds_id) [
      | none ↦ "Your cache is outdated, refresh databases and tables" ∷ []
      | some db_cache ↦ []
    ]
  ]

  unfoldable pub get_accelerations_from_cache : Option String → List AccelerationCacheItem
  get_accelerations_from_cache mds_id = elim cache [
    | none ↦ []
    | some manager ↦
        let ds_cache = manager.get_or_create_accelerations data_source_name mds_id in
        if is_not_loaded ds_cache.status then [] else ds_cache.accelerations
  ]

abbrev pub is_index_of : String → String → AccelerationCacheItem → Bool
is_index_of database table obj =
    (obj.database == database)
    && ((obj.table == table) && ((obj.type == "skipping") || (obj.type == "covering")))

-- the name that is shown for an acceleration of a table
abbrev pub shown_name : AccelerationCacheItem → Option String
shown_name obj = elim obj.index_name [
  | none ↦ if obj.type == "skipping" then some "skipping_index" else none
  | some name ↦ some name
]

unfoldable pub find_skipping_and_covering_index_names :
    List AccelerationCacheItem → String → String → List (Option String)
find_skipping_and_covering_index_names items database table =
    map shown_name (filter (is_index_of database table) items)

unfoldable pub find_materialized_views_for_database :
    List AccelerationCacheItem → String → List (Option String)
find_materialized_views_for_database items database =
    map (λ obj. obj.index_name)
      (filter (λ obj. (obj.database == database) && (obj.type == "materialized")) items)

-- `===`
abbrev pub same_name : Option String → Option String → Bool
same_name none none = true
same_name (some a) (some b) = a == b
same_name _ _ = false

abbrev pub is_none : Option String → Bool
is_none none = true
is_none (some name) = false

-- `!table || obj.table === table`
abbrev pub in_table : Option String → AccelerationCacheItem → Bool
in_table table obj = elim (truthy table) [ none ↦ true | some name ↦ obj.table == name ]

abbrev pub is_object : String → Option String → Option String → AccelerationCacheItem → Bool
is_object database table index_name obj =
    (obj.database == database)
    && (in_table table obj
        && (same_name obj.index_name index_name
            || (same_name index_name (some "skipping_index")
                && ((obj.type == "skipping") && is_none obj.index_name))))

unfoldable pub find_index_object :
    List AccelerationCacheItem
    → String
    → Option String
    → Option String
    → Option AccelerationCacheItem
find_index_object items database table index_name = find (is_object database table index_name) items

unfoldable pub select_query : String → String → String → String
select_query data_source database table_name =
    "select * from `" ⧺ data_source ⧺ "`.`" ⧺ database ⧺ "`.`" ⧺ table_name ⧺ "` limit 10"

unfoldable pub ppl_source_query : String → String → String → String
ppl_source_query data_source database table_name =
    "source = " ⧺ data_source ⧺ "." ⧺ database ⧺ "." ⧺ table_name ⧺ " | head 10"

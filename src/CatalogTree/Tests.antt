-- ===== src/CatalogTree/Tests.antt =====
-- A concrete cache and the tree of its objects.
use dashboards_query_workben.Common.{
  String, Option, none, some, List, [], ◌∷◌, ◌≡◌, refl, All, ◌==◌, if◌then◌else◌,
}
use dashboards_query_workben.CatalogTree.Objects.{
  AccelerationCacheItem, Manager, updated, empty, load_tree_item, database_type,
  get_accelerations_from_cache, is_either_object_cache_empty,
}
use dashboards_query_workben.CatalogTree.{S3State, first_state, object_items, on_click_database}
use dashboards_query_workben.CatalogTree.Found.{Opens, object_items-Opens}
use dashboards_query_workben.CatalogTree.Agreement.{loaded, loaded_trees_agree}

abbrev accelerations : List AccelerationCacheItem
accelerations =
    record { database = "logs"; table = "http"; type = "skipping"; index_name = none }
    ∷ record { database = "logs"; table = "http"; type = "covering"; index_name = some "by_status" }
    ∷ record { database = "logs"; table = ""; type = "materialized"; index_name = some "hourly" }
    ∷ []

-- Only the local cluster, whose id is the empty text or none, has accelerations.
abbrev local_accelerations : Option String → List AccelerationCacheItem
local_accelerations none = accelerations
local_accelerations (some id) = if id == "" then accelerations else []

abbrev full_cache : Manager
full_cache = record {
  get_database = λ source name id. some (record { status = updated; tables = "http" ∷ "dns" ∷ [] });
  get_or_create_accelerations =
      λ source id. record { status = updated; accelerations = local_accelerations id };
  get_or_create_data_source = λ source id. record { status = updated; databases = "logs" ∷ [] };
}

abbrev empty_cache : Manager
empty_cache = record {
  get_database = λ source name id. some (record { status = empty; tables = [] });
  get_or_create_accelerations = λ source id. record { status = empty; accelerations = [] };
  get_or_create_data_source = λ source id. record { status = empty; databases = [] };
}

object_items-Opens_example :
    All
      (λ item. Opens (some full_cache) "s3" none "logs" item.type item)
      (object_items "logs"
        ("http" ∷ "dns" ∷ [])
        (get_accelerations_from_cache (some full_cache) "s3" none))
object_items-Opens_example =
    object_items-Opens (some full_cache) "s3" none "logs" ("http" ∷ "dns" ∷ [])

abbrev with_database : S3State
with_database = record first_state {
  tree_data = load_tree_item (some "logs") database_type none ∷ [];
}

loaded_trees_agree_example :
    ((loaded "s3" "logs" with_database
        (some empty_cache)
        (some full_cache)
        (some "")
        "success"
        "failed").tree_data
      ≡ (on_click_database (some full_cache) "s3" (some "") "logs" with_database).tree_data)
    × ((loaded "s3" "logs" with_database
          (some empty_cache)
          (some full_cache)
          (some "")
          "success"
          "failed").current_selected_database
        ≡ "")
unfolding is_either_object_cache_empty get_accelerations_from_cache
loaded_trees_agree_example =
    loaded_trees_agree "s3" "logs" with_database (some empty_cache) (some full_cache) (some "")
      "success" "failed" refl refl refl refl refl refl refl

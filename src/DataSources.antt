-- ===== src/DataSources.antt =====
-- common/utils/fetch_datasources.ts: the data sources that the page offers.
pub mod Offered
mod Tests
use dashboards_query_workben.Common.{
  String, Bool, true, false, ◌||◌, Option, none, some, List, [], ◌∷◌, ◌++◌, map, if◌then◌else◌,
  ◌==◌, ◌⧺◌, get_or,
}
use dashboards_query_workben.Common.Dict.{lookup, insert}

pub record DataSourceItem : Type 0 where
  pub connector : String
  pub name : String

pub record DataOption : Type 0 where
  pub label : String
  pub options : List String

-- The two variables of the loop.
pub record Found : Type 0 where
  pub connector_groups : List (String × List String)
  pub url_source_found : Bool

-- The callback that is called.
pub data Outcome : Type 0 where
  on_success : List DataOption → Bool → Outcome
  on_error : Outcome

unfoldable pub datasources_url : Option String → String
datasources_url id = "/api/get_datasources/" ⧺ get_or id ""

-- the body of `data.forEach`
unfoldable pub on_item : String → DataSourceItem → Found → Found
on_item url_data_source item s =
    if item.connector == "S3GLUE"
    then record {
      connector_groups =
          insert item.connector
            (get_or (lookup item.connector s.connector_groups) [] ++ (item.name ∷ []))
            s.connector_groups;
      url_source_found = s.url_source_found || (item.name == url_data_source);
    }
    else s

unfoldable pub on_items : String → List DataSourceItem → Found → Found
unfolding on_item
on_items url_data_source [] s = s
on_items url_data_source (item ∷ items) s =
    on_items url_data_source items (on_item url_data_source item s)

-- `none` is a request that fails, or a reply that is no list.
unfoldable pub fetch_data_sources : String → Option (List DataSourceItem) → Outcome
unfolding on_items
fetch_data_sources url_data_source none = on_error
fetch_data_sources url_data_source (some data_sources) =
    let s =
      on_items url_data_source data_sources
        (record { connector_groups = []; url_source_found = false }) in
    on_success (map (λ g. record { label = g.0; options = g.1 }) s.connector_groups)
      s.url_source_found

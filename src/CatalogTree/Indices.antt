-- ===== src/CatalogTree/Indices.antt =====
-- os_tree.tsx, os_tree_helpers.tsx and catalog_tree.tsx of public/components/SQLPage/sql_catalog_tree: the tree of
-- the indices of a cluster, the loads of it that are superseded, and the choice of a tree.
pub mod Latest
mod Tests
use dashboards_query_workben.Common.{
  ℕ, suc, String, Bool, true, false, ◌&&◌, Option, none, some, List, [], ◌∷◌, map, if◌then◌else◌,
  ◌==◌, ◌⧺◌, is_blank, eqb, get_elem?,
}
use dashboards_query_workben.Common.Numbers.{show_nat}
use dashboards_query_workben.Capabilities.{truthy}
use dashboards_query_workben.CatalogTree.{TreeLoading}

-- An item of the tree: its label and the text of its tooltip, which is undefined for a row that is too short.
pub record Node : Type 0 where
  pub label : String
  pub content : Option String
  pub id : String

pub record TreeContent : Type 0 where
  pub tree_content : List Node
  pub loading_status : TreeLoading

-- A request for the indices, with the id of its data source.
pub record IndicesRequest : Type 0 where
  pub query : String
  pub data_source_mds_id : Option String

abbrev pub get_load_open_search_indices_query : Bool → String
get_load_open_search_indices_query uses_legacy =
    if uses_legacy then "SHOW tables LIKE %" else "SHOW tables LIKE '%'"

unfoldable pub indices_request : Bool → String → Bool → IndicesRequest
indices_request data_source_enabled data_source_mds_id uses_legacy = record {
  query = get_load_open_search_indices_query uses_legacy;
  data_source_mds_id = if data_source_enabled then truthy (some data_source_mds_id) else none;
}

-- `_.truncate` to 50 characters is an argument.
module _ (truncate : Option String → String) where
  unfoldable pub open_search_nodes : ℕ → List (Option String) → List Node
  open_search_nodes idx [] = []
  open_search_nodes idx (name ∷ names) =
      record { label = truncate name; content = name; id = "element_" ⧺ show_nat idx }
      ∷ open_search_nodes (suc idx) names

  abbrev pub generate_open_search_tree : List (Option String) → List Node
  generate_open_search_tree indices = open_search_nodes 0 indices

  -- The rows of the reply; `none` when the request fails or the reply has none that can be read.
  unfoldable pub load_open_search_tree : Option (List (List String)) → TreeContent
  unfolding open_search_nodes
  load_open_search_tree none = record {
    tree_content = [];
    loading_status = record {
      status = false;
      message = "Failed to load OpenSearch indices, please check user permissions";
    };
  }
  load_open_search_tree (some []) = record {
    tree_content = [];
    loading_status = record { status = false; message = "Failed to load OpenSearch indices" };
  }
  load_open_search_tree (some (row ∷ rows)) = record {
    tree_content = generate_open_search_tree (map (λ data_row. get_elem? data_row 2) (row ∷ rows));
    loading_status = record { status = false; message = "" };
  }

-- The component's state, the number of its last load, and the requests that it has sent, the latest first, each
-- with the number of its load. A load is superseded when another has started or the component is gone.
pub record OsTree : Type 0 where
  pub tree_data : List Node
  pub is_tree_loading : TreeLoading
  pub last_load : ℕ
  pub requests : List (ℕ × IndicesRequest)

abbrev pub first_tree : OsTree
first_tree = record {
  tree_data = [];
  is_tree_loading = record { status = false; message = "" };
  last_load = 0;
  requests = [];
}

-- What the effect depends on: the label of the selected item and the arguments of the request.
unfoldable pub load_tree : String → IndicesRequest → OsTree → OsTree
load_tree label request s = record s {
  tree_data = [];
  is_tree_loading = record { status = true; message = "" };
  last_load = suc s.last_load;
  requests = if label == "OpenSearch" then (suc s.last_load, request) ∷ s.requests else s.requests;
}

unfoldable pub on_tree_content : ℕ → TreeContent → OsTree → OsTree
on_tree_content load content s =
    if eqb load s.last_load
    then record s { tree_data = content.tree_content; is_tree_loading = content.loading_status }
    else s

-- the clean-up of the effect
unfoldable pub unmount : OsTree → OsTree
unmount s = record s { last_load = suc s.last_load }

-- What is rendered.
pub data Rendered : Type 0 where
  loading_indices no_indices : Rendered
  failed_to_load : String → Rendered
  tree : List Node → Rendered

abbrev tree_view : List Node → Rendered
tree_view [] = no_indices
tree_view (node ∷ nodes) = tree (node ∷ nodes)

unfoldable pub tree_renderer : OsTree → Rendered
tree_renderer s =
    if s.is_tree_loading.status && is_blank s.is_tree_loading.message
    then loading_indices
    else if is_blank s.is_tree_loading.message
    then tree_view s.tree_data
    else failed_to_load s.is_tree_loading.message

-- catalog_tree.tsx: which tree is rendered. `none` is no selection, and `some none` an empty one.
pub data CatalogView : Type 0 where
  os_tree unsupported_prompt select_prompt throws : CatalogView
  s3_tree : String → CatalogView

unfoldable pub catalog_tree : Bool → Option (Option String) → String → CatalogView
catalog_tree has_catalog_cache none cluster_tab = select_prompt
catalog_tree has_catalog_cache (some none) cluster_tab =
    if cluster_tab == "Data source Connections"
    then if has_catalog_cache then throws else unsupported_prompt
    else select_prompt
catalog_tree has_catalog_cache (some (some label)) cluster_tab =
    if label == "OpenSearch"
    then if cluster_tab == "Data source Connections" then select_prompt else os_tree
    else if cluster_tab == "Data source Connections"
    then if has_catalog_cache then s3_tree label else unsupported_prompt
    else select_prompt

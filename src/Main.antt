-- ===== src/Main.antt =====
-- public/components/Main/main.tsx: the state of the main page and the handlers that answer the user at once.
-- `none` is `undefined`; an exception leaves the state as it is by then.
pub mod Replies
pub mod Queries
pub mod Background
pub mod Caps
pub mod Events
pub mod Screen
pub mod DataSelect
mod Tests
use dashboards_query_workben.Common.{
  String, Bool, true, false, not, ◌&&◌, ◌||◌, Option, none, some, List, [], ◌∷◌, if◌then◌else◌,
  ◌==◌, is_blank,
}
use dashboards_query_workben.Capabilities.{DeploymentCapabilities, default_capabilities}
use dashboards_query_workben.Async.{Execution}
use dashboards_query_workben.Results.{ResponseBody, ResponseDetail, QueryResult}
use dashboards_query_workben.Tabs.{Tab, QueryMessage, message_tab_label}

-- `EuiComboBoxOptionOption`, as far as it is read
pub record DataSourceChoice : Type 0 where
  pub label : String
  pub key : String

pub record DataSourceOption : Type 0 where
  pub id : String
  pub label : String

pub record MainProps : Type 0 where
  pub url_data_source : String
  pub data_source_enabled : Bool
  pub data_source_mds_id : Option String
  pub new_nav_enabled : Option Bool

-- `J` are the cluster's values and `E` is what is kept of an expanded row. The text that a debounced handler has
-- not stored yet is in `waiting_sql` or `waiting_ppl`, and `cancel_query_handler` is the query it cancels.
pub record MainState (J E : Type 0) : Type 0 where
  pub language : String
  pub sql_queries_string : String
  pub ppl_queries_string : String
  pub queries : List String
  pub query_translations : List (ResponseDetail (ResponseBody J))
  pub query_results_table : List (ResponseDetail (QueryResult J))
  pub query_results : List (ResponseDetail (ResponseBody J))
  pub query_results_json : List (ResponseDetail (ResponseBody J))
  pub query_results_csv : List (ResponseDetail (ResponseBody J))
  pub query_results_text : List (ResponseDetail (ResponseBody J))
  pub selected_tab_name : Option String
  pub selected_tab_id : String
  pub search_query : String
  pub item_id_to_expanded_row_map : List (String × E)
  pub messages : List QueryMessage
  pub is_result_full_screen : Bool
  pub selected_datasource : List DataSourceChoice
  pub async_loading : Bool
  pub async_loading_status : String
  pub async_query_error : Option String
  pub cancel_query_handler : Option Execution
  pub refresh_tree : Bool
  pub is_acceleration_flyout_opened : Bool
  pub is_call_out_visible : Bool
  pub selected_mds_data_connection_id : Option String
  pub cluster : String
  pub mds_cluster_name : String
  pub flint_data_connections : Bool
  pub new_nav_enabled : Option Bool
  pub caps : DeploymentCapabilities
  pub waiting_sql : Option String
  pub waiting_ppl : Option String

abbrev pub open_search : List DataSourceChoice
open_search = record { label = "OpenSearch"; key = "" } ∷ []

abbrev pub sql_init_query : String
sql_init_query = "SHOW tables LIKE '%';"

abbrev pub sql_init_query_legacy : String
sql_init_query_legacy = "SHOW tables LIKE %;"

unfoldable pub get_open_search_sql_init_query : Bool → String
get_open_search_sql_init_query uses_legacy_open_distro_sql =
    if uses_legacy_open_distro_sql then sql_init_query_legacy else sql_init_query

module _ {J E : Type 0} where
  -- the constructor
  unfoldable pub initial : MainProps → MainState J E
  initial props = record {
    language = "SQL";
    sql_queries_string = sql_init_query;
    ppl_queries_string = "";
    queries = [];
    query_translations = [];
    query_results_table = [];
    query_results = [];
    query_results_json = [];
    query_results_csv = [];
    query_results_text = [];
    selected_tab_name = some message_tab_label;
    selected_tab_id = message_tab_label;
    search_query = "";
    item_id_to_expanded_row_map = [];
    messages = [];
    is_result_full_screen = false;
    selected_datasource = open_search;
    async_loading = false;
    async_loading_status = "success";
    async_query_error = some "";
    cancel_query_handler = none;
    refresh_tree = false;
    is_acceleration_flyout_opened = false;
    is_call_out_visible = false;
    selected_mds_data_connection_id = props.data_source_mds_id;
    cluster = if is_blank props.url_data_source then "Indexes" else "Data source Connections";
    mds_cluster_name = "";
    flint_data_connections = false;
    new_nav_enabled = props.new_nav_enabled;
    caps = default_capabilities;
    waiting_sql = none;
    waiting_ppl = none;
  }

  unfoldable pub on_selected_tab_id_change : Tab → MainState J E → MainState J E
  on_selected_tab_id_change tab s = record s {
    selected_tab_id = tab.id;
    selected_tab_name = tab.name;
    search_query = "";
    item_id_to_expanded_row_map = [];
  }

  unfoldable pub on_query_change : String → MainState J E → MainState J E
  on_query_change query s = record s { search_query = query; item_id_to_expanded_row_map = [] }

  unfoldable pub update_expanded_map : List (String × E) → MainState J E → MainState J E
  update_expanded_map map s = record s { item_id_to_expanded_row_map = map }

  unfoldable pub on_clear : MainState J E → MainState J E
  on_clear s = record s {
    queries = [];
    query_translations = [];
    query_results_table = [];
    query_results = [];
    query_results_json = [];
    query_results_csv = [];
    query_results_text = [];
    messages = [];
    selected_tab_id = message_tab_label;
    selected_tab_name = some message_tab_label;
    item_id_to_expanded_row_map = [];
    async_loading = false;
    async_loading_status = "success";
    is_call_out_visible = false;
  }

  -- of the switch between the languages
  unfoldable pub on_change : String → MainState J E → MainState J E
  on_change id s = record s { language = id; query_results_table = [] }

  -- `_.debounce`: only the last text of a burst of calls is stored, when the time is over.
  unfoldable pub update_sql_queries : String → MainState J E → MainState J E
  update_sql_queries query s = record s { waiting_sql = some query }

  unfoldable pub update_ppl_queries : String → MainState J E → MainState J E
  update_ppl_queries query s = record s { waiting_ppl = some query }

  unfoldable pub store_sql_queries : MainState J E → MainState J E
  store_sql_queries s = elim s.waiting_sql [
    | none ↦ s
    | some query ↦ record s { sql_queries_string = query; waiting_sql = none }
  ]

  unfoldable pub store_ppl_queries : MainState J E → MainState J E
  store_ppl_queries s = elim s.waiting_ppl [
    | none ↦ s
    | some query ↦ record s { ppl_queries_string = query; waiting_ppl = none }
  ]

  unfoldable pub set_is_result_full_screen : Bool → MainState J E → MainState J E
  set_is_result_full_screen is_full_screen s = record s { is_result_full_screen = is_full_screen }

  -- the language and the query of a redirection; its state is cleared after a query in SQL
  unfoldable pub check_history_state : Option (String × String) → MainState J E → MainState J E
  unfolding update_sql_queries
  check_history_state none s = s
  check_history_state (some (language, query_to_run)) s =
      if language == "sql" then update_sql_queries query_to_run s else s

  -- the starter query of `handleDataSelect`
  unfoldable pub seed_sql_query : DataSourceChoice → MainState J E → MainState J E
  unfolding update_sql_queries get_open_search_sql_init_query
  seed_sql_query item s =
      if (item.label == "OpenSearch") && (s.language == "SQL")
      then update_sql_queries (get_open_search_sql_init_query s.caps.uses_legacy_open_distro_sql) s
      else s

  unfoldable pub handle_data_select :
      Option (String × String) → List DataSourceChoice → MainState J E → MainState J E
  unfolding update_sql_queries update_ppl_queries on_clear check_history_state seed_sql_query
  handle_data_select history selected_items s =
      let cleared = on_clear (update_ppl_queries "" (update_sql_queries "" s)) in
      elim selected_items [
        | [] ↦ cleared
        | item ∷ items ↦
            check_history_state history
              (record (seed_sql_query item cleared) { selected_datasource = item ∷ items })
      ]

  unfoldable pub handle_reload_tree : MainState J E → MainState J E
  handle_reload_tree s = record s { refresh_tree = not s.refresh_tree }

  unfoldable pub set_is_acceleration_flyout_opened : Bool → MainState J E → MainState J E
  set_is_acceleration_flyout_opened value s = record s { is_acceleration_flyout_opened = value }

  unfoldable pub on_change_cluster : String → MainState J E → MainState J E
  on_change_cluster id s =
      let t = record s { cluster = id; query_results_table = [] } in
      if id == "Indexes" then record t { selected_datasource = open_search } else t

-- ===== src/Main/Background.antt =====
-- public/components/Main/main.tsx: onRunAsync, and the callbacks that it gives to executeAsyncQuery.
use dashboards_query_workben.Common.{
  String, Bool, true, false, not, ◌||◌, Option, none, some, List, [], ◌∷◌, if◌then◌else◌, ◌==◌,
  is_empty, head?,
}
use dashboards_query_workben.Async.{Execution}
use dashboards_query_workben.Queries.{get_queries}
use dashboards_query_workben.Results.{
  QueryResponse, ResponseBody, text, object, ResponseDetail, QueryResult,
  get_query_results_for_table,
}
use dashboards_query_workben.Tabs.{message_tab_label, get_default_tab_id, get_default_tab_label}
use dashboards_query_workben.Main.{MainState}
use dashboards_query_workben.Main.Replies.{process_query_response, get_message}

-- `AsyncApiResponse`, its status in lower case
pub record AsyncReply (J : Type 0) : Type 0 where
  pub ok : Bool
  pub status : String
  pub error : Option String
  pub resp : QueryResponse J
  pub body : Option String

-- The page with the queries that it has started, the latest first.
pub record Started (J E : Type 0) : Type 0 where
  pub page : MainState J E
  pub executions : List Execution

module _ {J : Type 0} where
  unfoldable pub async_detail : String → AsyncReply J → ResponseDetail (ResponseBody J)
  unfolding process_query_response
  async_detail object_text reply =
      process_query_response object_text
        (some (record { ok = reply.ok; resp = object reply.resp; body = reply.body }))

  -- `result?.data?.schema.length > 0`; a text has no schema
  abbrev pub has_schema : Option (ResponseBody J) → Option Bool
  has_schema none = some false
  has_schema (some (text s)) = none
  has_schema (some (object r)) = elim r.schema [
    | none ↦ none
    | some schema ↦ some (not (is_empty schema))
  ]

  -- `result?.data?.error`, where a text has none
  abbrev pub error_of : AsyncReply J → Option String
  error_of reply = if reply.ok then reply.error else none

module _ {J E : Type 0} where
  unfoldable pub start_loading : MainState J E → MainState J E
  start_loading s = record s {
    query_translations = [];
    query_results_table = [];
    query_results = [];
    query_results_json = [];
    query_results_csv = [];
    query_results_text = [];
    messages = [];
    selected_tab_id = message_tab_label;
    selected_tab_name = some message_tab_label;
    item_id_to_expanded_row_map = [];
    async_loading = true;
    async_loading_status = "scheduled";
    cancel_query_handler = none;
    is_call_out_visible = false;
  }

  -- the arguments of `executeAsyncQuery`
  abbrev pub execution_of : String → String → MainState J E → Execution
  execution_of current_data_source query s = record {
    current_data_source = current_data_source;
    query = record { lang = s.language; query = query; datasource = current_data_source };
    caps = s.caps;
    data_source_mds_id = s.selected_mds_data_connection_id;
    has_on_error = true;
  }

  -- one round of `queries.map`
  abbrev pub start_query : String → String → Started J E → Started J E
  start_query current_data_source query s =
      let x = execution_of current_data_source query s.page in
      record {
        page = record (start_loading s.page) { cancel_query_handler = some x };
        executions = x ∷ s.executions;
      }

  unfoldable pub start_queries : String → List String → Started J E → Started J E
  unfolding start_loading
  start_queries current_data_source [] s = s
  start_queries current_data_source (query ∷ queries) s =
      start_queries current_data_source queries (start_query current_data_source query s)

  unfoldable pub on_run_async : String → MainState J E → Started J E
  unfolding get_queries start_queries
  on_run_async queries_string s =
      let idle : Started J E = record { page = s; executions = [] } in
      elim s.selected_datasource [
        | [] ↦ idle
        | source ∷ sources ↦ start_queries source.label (get_queries queries_string) idle
      ]

  unfoldable pub on_async_error : String → MainState J E → MainState J E
  on_async_error error_details s = record s {
    async_loading = false;
    async_loading_status = "failed";
    async_query_error = some error_details;
  }

  -- `cancelQueryRequester`, which then calls the query's own `cancelQuery`
  unfoldable pub cancel_query_requester : MainState J E → MainState J E
  cancel_query_requester s = record s { async_loading = false; async_loading_status = "cancelled" }

  -- a call of the state's `cancelQueryHandler`
  unfoldable pub cancel_async_query : MainState J E → MainState J E
  unfolding cancel_query_requester
  cancel_async_query s = elim s.cancel_query_handler [
    | none ↦ s
    | some x ↦ cancel_query_requester s
  ]

  module _ (to_lower_case : String → String) (json_parse : String → Option (QueryResponse J))
      (object_text : String) where
    abbrev pub on_success :
        List String
        → ResponseDetail (ResponseBody J)
        → String
        → List (ResponseDetail (QueryResult J))
        → Bool
        → MainState J E
        → MainState J E
    on_success queries result status result_table shows s = record s {
      queries = queries;
      query_results = result ∷ [];
      query_results_table = if shows then result_table else [];
      selected_tab_id = get_default_tab_id (result ∷ []);
      selected_tab_name = get_default_tab_label to_lower_case (result ∷ []) (head? queries);
      messages = get_message result_table;
      item_id_to_expanded_row_map = [];
      query_results_json = [];
      query_results_csv = [];
      query_results_text = [];
      search_query = "";
      async_loading = false;
      async_loading_status = status;
      is_call_out_visible = not shows;
    }

    unfoldable pub on_async_reply : List String → AsyncReply J → MainState J E → MainState J E
    unfolding async_detail get_query_results_for_table get_message get_default_tab_id
        get_default_tab_label
    on_async_reply queries reply s =
        let result = async_detail object_text reply in
        if reply.status == "success"
        then (elim (get_query_results_for_table json_parse object_text (result ∷ []) false) [
          | none ↦ s
          | some result_table ↦ elim (has_schema result.contents) [
            | none ↦ s
            | some shows ↦ on_success queries result reply.status result_table shows s
          ]
        ])
        else if (reply.status == "failed") || (reply.status == "cancelled")
        then record s {
          async_loading = false;
          async_loading_status = reply.status;
          messages = record { text = some reply.status; class_name = "error-message" } ∷ [];
          async_query_error = error_of reply;
        }
        else record s { async_loading = true; async_loading_status = reply.status }

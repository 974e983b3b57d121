-- ===== src/Main/Queries.antt =====
-- public/components/Main/main.tsx: the handlers that send the queries of the editor, and what they do with the
-- responses when all are in.
pub mod Shown
use dashboards_query_workben.Common.{
  String, Bool, true, false, Option, none, some, List, [], ◌∷◌, map, head?, if◌then◌else◌, ◌==◌,
  ◌⧺◌,
}
use dashboards_query_workben.Queries.{get_queries}
use dashboards_query_workben.Results.{
  QueryResponse, ResponseBody, ResponseDetail, get_query_results_for_table,
}
use dashboards_query_workben.Tabs.{get_default_tab_id, get_default_tab_label}
use dashboards_query_workben.Main.{MainProps, MainState}
use dashboards_query_workben.Main.Replies.{
  ResponseData, process_query_response, process_translate_response, get_message,
  get_translate_message,
}

-- `http.post(endpoint, { body, query })`; the id is `undefined` also where `query` is empty.
pub record Post : Type 0 where
  pub endpoint : String
  pub query : String
  pub data_source_mds_id : Option String

pub data Answer (J : Type 0) : Type 0 where
  response : ResponseData J → Answer J
  rejected : String → Answer J

-- What `.catch` leaves of an answer.
abbrev pub settled : {J : Type 0} → Answer J → Option (ResponseData J)
settled (response r) = some r
settled (rejected message) = none

-- The six handlers differ in the endpoints for SQL and PPL.
pub data Purpose : Type 0 where
  run translate jdbc json csv txt : Purpose

abbrev pub action_for : Purpose → Bool → String
action_for run is_sql = if is_sql then "sqlquery" else "pplquery"
action_for translate is_sql = if is_sql then "translatesql" else "translateppl"
action_for jdbc is_sql = if is_sql then "sqlquery" else "pplquery"
action_for json is_sql = if is_sql then "sqljson" else "ppljson"
action_for csv is_sql = if is_sql then "sqlcsv" else "pplcsv"
action_for txt is_sql = if is_sql then "sqltext" else "ppltext"

module _ {J : Type 0} (object_text : String) where
  unfoldable pub query_details : List (Answer J) → List (ResponseDetail (ResponseBody J))
  unfolding process_query_response
  query_details answers = map (λ a. process_query_response object_text (settled a)) answers

  unfoldable pub translate_details : List (Answer J) → List (ResponseDetail (ResponseBody J))
  unfolding process_translate_response
  translate_details answers = map (λ a. process_translate_response object_text (settled a)) answers

module _ {J E : Type 0} where
  unfoldable pub posts_for : Purpose → MainProps → List String → MainState J E → List Post
  posts_for purpose props queries s =
      map
        (λ query. record {
          endpoint = "/api/sql_console/" ⧺ action_for purpose (s.language == "SQL");
          query = query;
          data_source_mds_id =
              if props.data_source_enabled then s.selected_mds_data_connection_id else none;
        })
        queries

  -- the `.catch` of each request
  unfoldable pub on_rejected : String → MainState J E → MainState J E
  on_rejected message s = record s {
    messages = record { text = some message; class_name = "error-message" } ∷ [];
  }

  -- the answers as they come, each rejection handled at once
  unfoldable pub on_answers : List (Answer J) → MainState J E → MainState J E
  unfolding on_rejected
  on_answers [] s = s
  on_answers (response r ∷ answers) s = on_answers answers s
  on_answers (rejected message ∷ answers) s = on_answers answers (on_rejected message s)

  module _ (object_text : String) where
    unfoldable pub on_translate_answered :
        List String → List (Answer J) → MainState J E → MainState J E
    unfolding on_answers translate_details get_translate_message
    on_translate_answered queries answers s =
        let t = on_answers answers s in
        let translation_result = translate_details object_text answers in
        record t {
          queries = queries;
          query_translations = translation_result;
          messages = get_translate_message translation_result;
        }

    unfoldable pub on_jdbc_answered : List String → List (Answer J) → MainState J E → MainState J E
    unfolding on_answers query_details
    on_jdbc_answered queries answers s = record (on_answers answers s) {
      queries = queries;
      query_results = query_details object_text answers;
    }

    unfoldable pub on_json_answered : List String → List (Answer J) → MainState J E → MainState J E
    unfolding on_answers query_details
    on_json_answered queries answers s = record (on_answers answers s) {
      queries = queries;
      query_results_json = query_details object_text answers;
    }

    unfoldable pub on_csv_answered : List String → List (Answer J) → MainState J E → MainState J E
    unfolding on_answers query_details
    on_csv_answered queries answers s = record (on_answers answers s) {
      queries = queries;
      query_results_csv = query_details object_text answers;
    }

    unfoldable pub on_text_answered : List String → List (Answer J) → MainState J E → MainState J E
    unfolding on_answers query_details
    on_text_answered queries answers s = record (on_answers answers s) {
      queries = queries;
      query_results_text = query_details object_text answers;
    }

    module _ (to_lower_case : String → String)
        (json_parse : String → Option (QueryResponse J)) where
      -- the page when the results are in, unless making the tables throws
      unfoldable pub on_results :
          List String → List (ResponseDetail (ResponseBody J)) → MainState J E → MainState J E
      unfolding get_query_results_for_table get_message get_default_tab_id get_default_tab_label
      on_results queries results s =
          elim (get_query_results_for_table json_parse object_text results true) [
            | none ↦ s
            | some result_table ↦ record s {
              queries = queries;
              query_results = results;
              query_results_table = result_table;
              selected_tab_id = get_default_tab_id results;
              selected_tab_name = get_default_tab_label to_lower_case results (head? queries);
              messages = get_message result_table;
              item_id_to_expanded_row_map = [];
              query_results_json = [];
              query_results_csv = [];
              query_results_text = [];
              search_query = "";
              async_loading = false;
              async_loading_status = "success";
              is_call_out_visible = false;
            }
          ]

      unfoldable pub on_run_answered : List String → List (Answer J) → MainState J E → MainState J E
      unfolding on_answers query_details on_results
      on_run_answered queries answers s =
          on_results queries (query_details object_text answers) (on_answers answers s)

  -- `onRun`: the requests that it sends for the editor's text
  unfoldable pub on_run : MainProps → String → MainState J E → List Post
  unfolding get_queries posts_for
  on_run props queries_string s = posts_for run props (get_queries queries_string) s

  unfoldable pub on_translate : MainProps → String → MainState J E → List Post
  unfolding get_queries posts_for
  on_translate props queries_string s = posts_for translate props (get_queries queries_string) s

  unfoldable pub get_jdbc : MainProps → List String → MainState J E → List Post
  unfolding posts_for
  get_jdbc props queries s = posts_for jdbc props queries s

  unfoldable pub get_json : MainProps → List String → MainState J E → List Post
  unfolding posts_for
  get_json props queries s = posts_for json props queries s

  unfoldable pub get_csv : MainProps → List String → MainState J E → List Post
  unfolding posts_for
  get_csv props queries s = posts_for csv props queries s

  unfoldable pub get_text : MainProps → List String → MainState J E → List Post
  unfolding posts_for
  get_text props queries s = posts_for txt props queries s

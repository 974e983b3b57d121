-- ===== src/Main/Events.antt =====
-- public/components/Main/main.tsx: the handlers of the main page as one type of events, the selection of a cluster
-- and its capabilities left out.
pub mod Kept
use dashboards_query_workben.Common.{String, Bool, Option, none, some, List, [], ◌∷◌}
use dashboards_query_workben.Results.{QueryResponse}
use dashboards_query_workben.Tabs.{Tab}
use dashboards_query_workben.Main.{
  DataSourceChoice, MainState, on_selected_tab_id_change, on_query_change, update_expanded_map,
  on_clear, on_change, update_sql_queries, update_ppl_queries, store_sql_queries, store_ppl_queries,
  set_is_result_full_screen, handle_data_select, handle_reload_tree,
  set_is_acceleration_flyout_opened, on_change_cluster,
}
use dashboards_query_workben.Main.Queries.{
  Answer, on_rejected, on_run_answered, on_translate_answered, on_jdbc_answered, on_json_answered,
  on_csv_answered, on_text_answered,
}
use dashboards_query_workben.Main.Background.{
  AsyncReply, Started, on_run_async, on_async_reply, on_async_error, cancel_async_query,
}

pub data Event (J E : Type 0) : Type 0 where
  selects_tab : Tab → Event J E
  searches : String → Event J E
  expands : List (String × E) → Event J E
  clears : Event J E
  switches_language : String → Event J E
  types_sql : String → Event J E
  types_ppl : String → Event J E
  sql_settles : Event J E
  ppl_settles : Event J E
  full_screen : Bool → Event J E
  selects_data : Option (String × String) → List DataSourceChoice → Event J E
  reloads_tree : Event J E
  opens_flyout : Bool → Event J E
  changes_cluster : String → Event J E
  one_rejected : String → Event J E
  run_answered : List String → List (Answer J) → Event J E
  translate_answered : List String → List (Answer J) → Event J E
  jdbc_answered : List String → List (Answer J) → Event J E
  json_answered : List String → List (Answer J) → Event J E
  csv_answered : List String → List (Answer J) → Event J E
  text_answered : List String → List (Answer J) → Event J E
  runs_async : String → Event J E
  async_replied : List String → AsyncReply J → Event J E
  async_failed : String → Event J E
  cancels : Event J E

module _ {J E : Type 0} (to_lower_case : String → String)
    (json_parse : String → Option (QueryResponse J)) (object_text : String) where
  unfoldable pub handle : Event J E → MainState J E → MainState J E
  unfolding on_selected_tab_id_change on_query_change update_expanded_map on_clear on_change
      update_sql_queries update_ppl_queries store_sql_queries store_ppl_queries
      set_is_result_full_screen handle_data_select handle_reload_tree
      set_is_acceleration_flyout_opened on_change_cluster on_rejected on_run_answered
      on_translate_answered on_jdbc_answered on_json_answered on_csv_answered on_text_answered
      on_run_async on_async_reply on_async_error cancel_async_query
  handle (selects_tab tab) = on_selected_tab_id_change tab
  handle (searches query) = on_query_change query
  handle (expands map) = update_expanded_map map
  handle clears = on_clear
  handle (switches_language id) = on_change id
  handle (types_sql query) = update_sql_queries query
  handle (types_ppl query) = update_ppl_queries query
  handle sql_settles = store_sql_queries
  handle ppl_settles = store_ppl_queries
  handle (full_screen on) = set_is_result_full_screen on
  handle (selects_data history items) = handle_data_select history items
  handle reloads_tree = handle_reload_tree
  handle (opens_flyout value) = set_is_acceleration_flyout_opened value
  handle (changes_cluster id) = on_change_cluster id
  handle (one_rejected message) = on_rejected message
  handle (run_answered queries answers) =
      on_run_answered object_text to_lower_case json_parse queries answers
  handle (translate_answered queries answers) = on_translate_answered object_text queries answers
  handle (jdbc_answered queries answers) = on_jdbc_answered object_text queries answers
  handle (json_answered queries answers) = on_json_answered object_text queries answers
  handle (csv_answered queries answers) = on_csv_answered object_text queries answers
  handle (text_answered queries answers) = on_text_answered object_text queries answers
  handle (runs_async queries_string) = λ s. (on_run_async queries_string s).page
  handle (async_replied queries reply) =
      on_async_reply to_lower_case json_parse object_text queries reply
  handle (async_failed error_details) = on_async_error error_details
  handle cancels = cancel_async_query

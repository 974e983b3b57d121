-- ===== src/Main/Queries/Shown.antt =====
-- public/components/Main/main.tsx: the page after the responses to `onRun` are in.
use dashboards_query_workben.Common.{
  String, Bool, true, false, Option, List, map, ◌≡◌, length, All2, ◌⊎◌, some,
}
use dashboards_query_workben.Results.{QueryResponse, ResponseBody, ResponseDetail}
use dashboards_query_workben.Results.Aligned.{IsResultOf, message_of, message_with}
use dashboards_query_workben.Tabs.{QueryMessage, render_tabs}
use dashboards_query_workben.Tabs.Offered.{has_tab}
use dashboards_query_workben.Main.{MainState}

abbrev flags : {T : Type 0} → List (ResponseDetail T) → List Bool
flags = map (λ r. r.fulfilled)

module _ {J : Type 0} (json_parse : String → Option (QueryResponse J)) (object_text : String) where
  -- The message of a response: the error of one that failed, or that it succeeded.
  abbrev pub IsMessageOf : ResponseDetail (ResponseBody J) → QueryMessage → Type 0
  IsMessageOf detail m =
      ((detail.fulfilled ≡ false)
        × (m.text
            ≡ some (
                message_with json_parse object_text
                  (message_of json_parse object_text detail.error_message) detail.contents))
        × (m.class_name ≡ "error-message"))
      ⊎ ((detail.fulfilled ≡ true)
          × (m.text ≡ some "Success")
          × (m.class_name ≡ "successful-message"))

module _ {J E : Type 0} (to_lower_case : String → String)
    (json_parse : String → Option (QueryResponse J)) (object_text : String) where
  -- The page shows each of the queries, in their order.
  pub record Shows (queries : List String) (details : List (ResponseDetail (ResponseBody J)))
      (t : MainState J E) : Type 0 where
    pub as_many : length t.query_results_table ≡ length queries
    pub tables : All2 (IsResultOf json_parse object_text true) details t.query_results_table
    pub messages : All2 (IsMessageOf json_parse object_text) details t.messages
    pub tab :
        has_tab t.selected_tab_id
          (render_tabs to_lower_case t.language t.queries t.query_results_table)
        ≡ true
    pub loaded : t.async_loading ≡ false

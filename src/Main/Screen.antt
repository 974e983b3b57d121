-- ===== src/Main/Screen.antt =====
-- public/components/Main/main.tsx: `render`, with the controls that SQLPage.tsx, PPLPage.tsx, CreateButton.tsx, Switch.tsx,
-- ClusterTabs.tsx, QueryResults.tsx and async_query_body.tsx offer in a state of the page. `none` is an exception.
pub mod Consistent
use dashboards_query_workben.Common.{
  String, Bool, true, false, not, ◌&&◌, ◌||◌, Option, none, some, List, [], ◌∷◌, map, filter,
  if◌then◌else◌, ◌==◌, is_empty, join,
}
use dashboards_query_workben.Results.{ResponseDetail}
use dashboards_query_workben.Capabilities.{DeploymentCapabilities}
use dashboards_query_workben.Main.{
  MainState, DataSourceChoice, on_clear, update_sql_queries, update_ppl_queries,
  set_is_acceleration_flyout_opened,
}

abbrev pub sample_sql_query : String
sample_sql_query = "select * from <datasource>.<database>.<table> limit 10"

abbrev pub sample_ppl_query : String
sample_ppl_query = "source = <datasource>.<database>.<table> | head 10"

-- `onRun` or `onRunAsync`
pub data Runner : Type 0 where
  on_run on_run_async : Runner

-- the button beside Run and Clear, with the query that it puts into the editor
pub data ThirdButton : Type 0 where
  explain : ThirdButton
  sample_query : String → ThirdButton

-- The editor of a page: its text, what Run calls and shows, whether the other buttons are disabled, and whether a table
-- can be accelerated.
pub record Editor : Type 0 where
  pub text : String
  pub runner : Runner
  pub is_loading : Bool
  pub run_label : String
  pub is_disabled : Bool
  pub third : ThirdButton
  pub accelerates : Bool

-- What stands to the left of the editor and above it.
pub record Controls : Type 0 where
  pub clusters : List String
  pub selects_data : Bool
  pub creates : Bool
  pub languages : List String
  pub documentation : String
  pub is_disabled : Bool

-- The results: a table or none, the status of a running query, with whether it can be cancelled, or the error of one
-- that failed.
pub data Pane : Type 0 where
  no_result : Pane
  table : Pane
  running : String → Bool → Pane
  failed : Option String → Pane

pub data Screen : Type 0 where
  full_screen : Pane → Screen
  page : Editor → Controls → Pane → Screen

module _ {T : Type 0} where
  -- the text of the modal of Explain, with `JSON.stringify`
  unfoldable pub explain_content : (Option T → String) → List (ResponseDetail T) → String
  unfolding join
  explain_content stringify [] = "This query is not explainable."
  explain_content stringify (r ∷ rs) =
      if r.fulfilled
      then join "\n" (map (λ (t : ResponseDetail T). stringify t.contents) (r ∷ rs))
      else "This query is not explainable."

-- `SQLPage` for the label of the first data source
unfoldable pub sql_page : String → String → Bool → Editor
sql_page label text async_loading =
    let is_open_search = label == "OpenSearch" in
    record {
      text = text;
      runner = if is_open_search then on_run else on_run_async;
      is_loading = async_loading;
      run_label = if async_loading then "Running" else "Run";
      is_disabled = async_loading;
      third = if is_open_search then explain else sample_query sample_sql_query;
      accelerates = not is_open_search;
    }

unfoldable pub ppl_page : String → String → Bool → Editor
ppl_page label text async_loading =
    let is_open_search = label == "OpenSearch" in
    record {
      text = text;
      runner = if is_open_search then on_run else on_run_async;
      is_loading = async_loading;
      run_label = if async_loading then "Running" else "Run";
      is_disabled = async_loading;
      third = if is_open_search then explain else sample_query sample_ppl_query;
      accelerates = false;
    }

unfoldable pub toggle_buttons : Bool → List String
toggle_buttons has_ppl =
    let both = "SQL" ∷ "PPL" ∷ [] in if has_ppl then both else filter (λ id. not (id == "PPL")) both

unfoldable pub async_query_body : String → Option String → Pane
async_query_body async_loading_status async_query_error =
    if async_loading_status == "failed"
    then failed async_query_error
    else running async_loading_status (not (async_loading_status == "scheduled"))

module _ {J E : Type 0} where
  unfoldable pub query_results : MainState J E → Pane
  unfolding async_query_body
  query_results s =
      if (s.async_loading_status == "success") || (s.async_loading_status == "cancelled")
      then (if is_empty s.query_results_table then no_result else table)
      else async_query_body s.async_loading_status s.async_query_error

  unfoldable pub controls : String → MainState J E → Controls
  unfolding toggle_buttons
  controls label s =
      let connections = s.cluster == "Data source Connections" in
      record {
        clusters =
            if s.flint_data_connections then "Indexes" ∷ "Data source Connections" ∷ [] else [];
        selects_data = connections;
        creates =
            connections
            && ((s.language == "SQL")
                && (s.caps.has_acceleration_flyout && not (label == "OpenSearch")));
        languages = toggle_buttons s.caps.has_ppl;
        documentation = if s.language == "SQL" then "SQL documentation" else "PPL documentation";
        is_disabled = s.async_loading;
      }

  unfoldable pub editor : String → MainState J E → Editor
  unfolding sql_page ppl_page
  editor label s =
      if s.language == "SQL"
      then sql_page label s.sql_queries_string s.async_loading
      else ppl_page label s.ppl_queries_string s.async_loading

  unfoldable pub screen_of : List DataSourceChoice → MainState J E → Option Screen
  unfolding query_results controls editor
  screen_of [] s = none
  screen_of (source ∷ sources) s = some (
      if s.is_result_full_screen
      then full_screen (query_results s)
      else page (editor source.label s) (controls source.label s) (query_results s))

  -- the label of the first data source is read before anything is shown
  unfoldable pub render : MainState J E → Option Screen
  unfolding screen_of
  render s = screen_of s.selected_datasource s

  -- a click on Clear, or beside it
  unfoldable pub on_click_clear : MainState J E → MainState J E
  unfolding on_clear update_sql_queries update_ppl_queries
  on_click_clear s =
      if s.language == "SQL"
      then on_clear (update_sql_queries "" s)
      else on_clear (update_ppl_queries "" s)

  -- Whether the page of SQL opens the flyout of an acceleration by itself when it is updated, with the main page's
  -- property and the labels of the data sources before and now.
  unfoldable pub opens_flyout_by_itself : Bool → String → String → MainState J E → Bool
  opens_flyout_by_itself is_acceleration_flyout_open prev_data_source current_data_source s =
      not (current_data_source == prev_data_source)
      && (not (current_data_source == "OpenSearch")
          && (is_acceleration_flyout_open && not s.is_acceleration_flyout_opened))

  unfoldable pub sql_page_did_update : Bool → String → String → MainState J E → MainState J E
  unfolding opens_flyout_by_itself set_is_acceleration_flyout_opened
  sql_page_did_update is_acceleration_flyout_open prev_data_source current_data_source s =
      if opens_flyout_by_itself is_acceleration_flyout_open prev_data_source current_data_source s
      then set_is_acceleration_flyout_opened true s
      else s

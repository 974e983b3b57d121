-- ===== src/Main/Tests.antt =====
-- Concrete runs of the main page, with texts for values and nothing kept of expanded rows.
use dashboards_query_workben.Common.{
  String, true, false, Option, none, some, List, [], ◌∷◌, ◌≡◌, refl, if◌then◌else◌,
}
use dashboards_query_workben.Capabilities.{DeploymentCapabilities, get_deployment_capabilities}
use dashboards_query_workben.Capabilities.Resolve.{Backend, resolve_deployment_capabilities}
use dashboards_query_workben.Capabilities.Samples.{sample_semver}
use dashboards_query_workben.Results.{value, QueryResponse, text}
use dashboards_query_workben.Main.{
  DataSourceOption, MainProps, MainState, initial, sql_init_query_legacy, update_sql_queries,
  store_sql_queries, get_open_search_sql_init_query,
}
use dashboards_query_workben.Main.Queries.{Answer, response, rejected}
use dashboards_query_workben.Main.Events.{runs_async, handle}
use dashboards_query_workben.Main.Screen.{Screen, render}
use dashboards_query_workben.Main.Screen.Consistent.{IsConsistent, render-IsConsistent}
use dashboards_query_workben.Main.Caps.{
  CapsRequest, Mounted, component_did_mount, on_selected_data_source, on_resolved,
  fetch_and_set_caps, on_caps, sync_seeded_sql_query, fetch_flint_data_sources,
}
use dashboards_query_workben.Main.Caps.Steps.{selects, resolves, handles, Reach, mounts, later}
use dashboards_query_workben.Main.Caps.Selected.{caps_are_of_the_selected}
use dashboards_query_workben.Main.Caps.Seeded.{
  sync_all, seed_for, is_starter, starter_query_is_for_the_engine,
}

abbrev Page : Type 0
Page = MainState String Unit

abbrev same_text : String → String
same_text s = s

abbrev sample_response : QueryResponse String
sample_response = record {
  schema = some (record { name = "n"; alias = none } ∷ []);
  datarows = some ((value "7" ∷ []) ∷ []);
}

-- every text parses to one and the same response
abbrev parse : String → Option (QueryResponse String)
parse s = some sample_response

abbrev props : MainProps
props = record {
  url_data_source = "";
  data_source_enabled = true;
  data_source_mds_id = none;
  new_nav_enabled = none;
}

-- An old data source beside a local cluster that does not answer.
abbrev backend : Backend
backend = record {
  saved_object =
      λ id. some (record { data_source_version = some "7.10.2"; data_source_engine_type = none });
  cluster_info = λ id. none;
}

abbrev resolve : Option String → DeploymentCapabilities
resolve = resolve_deployment_capabilities sample_semver backend true

abbrev Gives : Option String → DeploymentCapabilities → Type 0
Gives mds_id caps = resolve mds_id ≡ caps

abbrev old_source : List DataSourceOption
old_source = record { id = "elastic"; label = "Elastic" } ∷ []

abbrev first_request : CapsRequest
first_request = record { token = 1; mds_id = none }

abbrev second_request : CapsRequest
second_request = record { token = 2; mds_id = some "elastic" }

abbrev Session : Mounted String Unit → Type 0
Session = Reach same_text parse "[object Object]" Gives props

-- The data source is selected before the first answer is in, and its own answer comes first.
abbrev mounted : Mounted String Unit
mounted = component_did_mount props

abbrev selected : Mounted String Unit
selected = on_selected_data_source old_source mounted

abbrev answered : Mounted String Unit
answered =
    on_resolved 2 (resolve (some "elastic"))
      (record selected { caps_requests = first_request ∷ [] })

abbrev all_answered : Mounted String Unit
all_answered = on_resolved 1 (resolve none) (record answered { caps_requests = [] })

selected-Session : Session selected
selected-Session = later mounts (selects old_source)

all_answered-Session : Session all_answered
unfolding component_did_mount fetch_and_set_caps on_selected_data_source on_resolved on_caps
    fetch_flint_data_sources sync_seeded_sql_query resolve_deployment_capabilities
    get_deployment_capabilities sample_semver
all_answered-Session =
    later
      (later selected-Session
        (resolves [] second_request (first_request ∷ []) (resolve (some "elastic")) refl refl))
      (resolves [] first_request [] (resolve none) refl refl)

caps_are_of_the_selected_example :
    Gives all_answered.page.selected_mds_data_connection_id all_answered.page.caps
unfolding component_did_mount fetch_and_set_caps on_selected_data_source on_resolved on_caps
    fetch_flint_data_sources sync_seeded_sql_query resolve_deployment_capabilities
    get_deployment_capabilities sample_semver
caps_are_of_the_selected_example =
    caps_are_of_the_selected same_text parse "[object Object]" Gives props all_answered-Session refl

-- The first answer is too late for the capabilities, but still makes the page ask for data sources.
late_answer_asks :
    (all_answered.source_requests ≡ 1) × (all_answered.page.caps.has_data_sources ≡ false)
unfolding component_did_mount fetch_and_set_caps on_selected_data_source on_resolved on_caps
    fetch_flint_data_sources sync_seeded_sql_query resolve_deployment_capabilities
    get_deployment_capabilities sample_semver
late_answer_asks = (refl, refl)

abbrev running_page : Mounted String Unit
running_page = record selected {
  page = handle same_text parse "[object Object]" (runs_async "select 1") selected.page;
}

render-IsConsistent_example :
    (screen : Screen) × (render running_page.page ≡ some screen)
    × IsConsistent running_page.page screen
render-IsConsistent_example =
    render-IsConsistent same_text parse "[object Object]" Gives props
      (later selected-Session (handles (runs_async "select 1")))

start : Page
unfolding initial
start = initial props

old_caps : DeploymentCapabilities
unfolding get_deployment_capabilities
old_caps = get_deployment_capabilities sample_semver (some "7.10.2") none

starter_query_is_for_the_engine_example :
    (sync_all
      (get_deployment_capabilities sample_semver none none ∷ old_caps ∷ [])
      start).sql_queries_string
    ≡ (if is_starter start.sql_queries_string then seed_for old_caps else start.sql_queries_string)
unfolding start initial
starter_query_is_for_the_engine_example =
    starter_query_is_for_the_engine (get_deployment_capabilities sample_semver none none ∷ [])
      old_caps start refl

-- A text that is typed just before the capabilities come is lost.
typed_text_is_lost :
    (store_sql_queries
      (sync_seeded_sql_query old_caps (update_sql_queries "select 1" start))).sql_queries_string
    ≡ sql_init_query_legacy
unfolding start initial update_sql_queries store_sql_queries sync_seeded_sql_query old_caps
    get_deployment_capabilities sample_semver get_open_search_sql_init_query
typed_text_is_lost = refl

-- Of two answers within the time of one update, the first one's query is left.
two_quick_answers :
    (store_sql_queries (
      sync_seeded_sql_query
        (get_deployment_capabilities sample_semver none none)
        (sync_seeded_sql_query old_caps start))).sql_queries_string
    ≡ sql_init_query_legacy
unfolding start initial update_sql_queries store_sql_queries sync_seeded_sql_query old_caps
    get_deployment_capabilities sample_semver get_open_search_sql_init_query
two_quick_answers = refl

abbrev two_queries : List String
two_queries = "select 1" ∷ "select" ∷ []

abbrev two_answers : List (Answer String)
two_answers =
    response (record { ok = true; resp = text "{}"; body = none }) ∷ rejected "Bad Gateway" ∷ []

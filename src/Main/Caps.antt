-- ===== src/Main/Caps.antt =====
-- public/components/Main/main.tsx: the selection of a cluster, and the requests for its capabilities and its data
-- sources that are out.
pub mod Steps
pub mod Selected
pub mod Seeded
use dashboards_query_workben.Common.{
  ℕ, suc, ◌+◌, String, Bool, true, false, not, ◌&&◌, ◌||◌, Option, none, some, List, [], ◌∷◌,
  if◌then◌else◌, ◌==◌, eqb, is_empty,
}
use dashboards_query_workben.Capabilities.{DeploymentCapabilities}
use dashboards_query_workben.DataSources.{Outcome, on_success, on_error}
use dashboards_query_workben.Main.{
  DataSourceOption, MainProps, MainState, initial, open_search, sql_init_query,
  sql_init_query_legacy, get_open_search_sql_init_query, update_sql_queries,
}

-- `resolveDeploymentCapabilities` for a cluster, with the token of the call
pub record CapsRequest : Type 0 where
  pub token : ℕ
  pub mds_id : Option String

-- The component with its field and what it waits for; of `fetchDataSources` only the number is kept.
pub record Mounted (J E : Type 0) : Type 0 where
  pub page : MainState J E
  pub caps_request_token : ℕ
  pub caps_requests : List CapsRequest
  pub source_requests : ℕ

-- the text is one of the seeded queries
abbrev pub is_untouched : String → Bool
is_untouched current = (current == sql_init_query) || (current == sql_init_query_legacy)

abbrev pub selected_id : List DataSourceOption → Option String
selected_id [] = none
selected_id (e ∷ es) = some e.id

abbrev pub selected_label : List DataSourceOption → String
selected_label [] = ""
selected_label (e ∷ es) = e.label

module _ {J E : Type 0} where
  unfoldable pub fetch_and_set_caps : Option String → Mounted J E → Mounted J E
  fetch_and_set_caps mds_id p =
      let token = suc p.caps_request_token in
      record p {
        caps_request_token = token;
        caps_requests = record { token = token; mds_id = mds_id } ∷ p.caps_requests;
      }

  unfoldable pub sync_seeded_sql_query : DeploymentCapabilities → MainState J E → MainState J E
  unfolding get_open_search_sql_init_query update_sql_queries
  sync_seeded_sql_query caps s =
      let seeded = get_open_search_sql_init_query caps.uses_legacy_open_distro_sql in
      if is_untouched s.sql_queries_string && not (s.sql_queries_string == seeded)
      then update_sql_queries seeded s
      else s

  unfoldable pub fetch_flint_data_sources : DeploymentCapabilities → Mounted J E → Mounted J E
  fetch_flint_data_sources caps p =
      if caps.has_data_sources
      then record p { source_requests = suc p.source_requests }
      else record p { page = record p.page { flint_data_connections = false } }

  -- a resolved request: what `fetchAndSetCaps` does after its `await`
  unfoldable pub on_caps : ℕ → DeploymentCapabilities → Mounted J E → Mounted J E
  unfolding sync_seeded_sql_query
  on_caps token caps p =
      if eqb token p.caps_request_token
      then record p { page = sync_seeded_sql_query caps (record p.page { caps = caps }) }
      else p

  -- and then what its callers do
  unfoldable pub on_resolved : ℕ → DeploymentCapabilities → Mounted J E → Mounted J E
  unfolding on_caps fetch_flint_data_sources
  on_resolved token caps p = fetch_flint_data_sources caps (on_caps token caps p)

  unfoldable pub on_data_sources : Outcome → Mounted J E → Mounted J E
  on_data_sources (on_success options found) p = record p {
    page = record p.page { flint_data_connections = not (is_empty options) };
  }
  on_data_sources on_error p = p

  unfoldable pub component_did_mount : MainProps → Mounted J E
  unfolding initial fetch_and_set_caps
  component_did_mount props =
      let page : MainState J E = initial props in
      fetch_and_set_caps page.selected_mds_data_connection_id
        (record { page = page; caps_request_token = 0; caps_requests = []; source_requests = 0 })

  unfoldable pub on_selected_data_source : List DataSourceOption → Mounted J E → Mounted J E
  unfolding fetch_and_set_caps
  on_selected_data_source e p = fetch_and_set_caps (selected_id e) (record p {
    page = record p.page {
      selected_mds_data_connection_id = selected_id e;
      mds_cluster_name = selected_label e;
      cluster = "Indexes";
      selected_datasource = open_search;
      is_acceleration_flyout_opened = false;
    };
  })

-- ===== src/ClusterInfo/Agreement.antt =====
-- ClusterInfoService.ts on the server and resolve_capabilities.ts in the browser, side by side.
use dashboards_query_workben.Common.{
  String, Bool, true, false, Option, none, some, ◌≡◌, refl, arith, is_blank,
}
use dashboards_query_workben.Capabilities.{
  Semver, get_deployment_capabilities, DeploymentCapabilities,
}
use dashboards_query_workben.Capabilities.Resolve.{
  DataSourceAttributes, Backend, resolve_deployment_capabilities,
}
use dashboards_query_workben.ClusterInfo.{
  ClusterEngineInfo, InfoResponse, probe, probe_data_source, answer, cluster_info_route,
}

-- What the server derives its choice of endpoint from.
abbrev pub server_capabilities : Semver → ClusterEngineInfo → DeploymentCapabilities
server_capabilities s info = get_deployment_capabilities s (some info.version) info.is_open_search

-- An empty version says nothing, whatever the engine is said to be.
unreadable :
    (s : Semver) (version : String) (signal : Option Bool)
    → is_blank version ≡ true
    → get_deployment_capabilities s (some version) signal ≡ get_deployment_capabilities s none none
unfolding get_deployment_capabilities
unreadable s version signal h = rw (h, get_deployment_capabilities)

-- If the browser can read a data source's saved object exactly when the server can, and
-- its `cluster_info` request reaches the server, then for that data source it resolves the
-- capabilities that the server resolves, whether or not the saved object has a version and whether
-- or not the live probe succeeds.
pub resolve_data_source_agrees :
    (s : Semver) (b : Backend) (id : String) (saved : Option DataSourceAttributes)
    (live : Option InfoResponse)
    → is_blank id ≡ false
    → b.saved_object id ≡ saved
    → b.cluster_info (some id) ≡ some (cluster_info_route (answer (probe_data_source saved live)))
    → resolve_deployment_capabilities s b true (some id)
      ≡ server_capabilities s (answer (probe_data_source saved live))
unfolding resolve_deployment_capabilities cluster_info_route probe_data_source
resolve_data_source_agrees s b id none live named read sent =
    ground (arith, unreadable s "" none refl)
resolve_data_source_agrees s b id (some attrs) live named read sent =
    ground (arith, unreadable s "" none refl)

-- Without a data source, a `cluster_info` request that reaches the server gives the browser the
-- capabilities that the server resolves for its own cluster.
pub resolve_local_agrees :
    (s : Semver) (b : Backend) (enabled : Bool) (live : Option InfoResponse)
    → b.cluster_info none ≡ some (cluster_info_route (answer (probe live)))
    → resolve_deployment_capabilities s b enabled none ≡ server_capabilities s (answer (probe live))
unfolding resolve_deployment_capabilities cluster_info_route
resolve_local_agrees s b enabled live sent = ground arith

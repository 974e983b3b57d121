-- ===== src/Capabilities/Resolve.antt =====
-- common/utils/resolve_capabilities.ts: where the browser reads a cluster's version from.
use dashboards_query_workben.Common.{String, Bool, not, Option, none, some, if◌then◌else◌, ◌==◌}
use dashboards_query_workben.Capabilities.{
  Semver, DeploymentCapabilities, truthy, get_deployment_capabilities,
}

-- The attributes of a data-source saved object that are read.
pub record DataSourceAttributes : Type 0 where
  pub data_source_version : Option String
  pub data_source_engine_type : Option String

-- `data` of a reply of `GET /api/sql_console/cluster_info`.
pub record ClusterInfoReply : Type 0 where
  pub ok : Bool
  pub version : Option String
  pub is_open_search : Option Bool

-- `engineType ? engineType !== 'Elasticsearch' : undefined`
abbrev pub engine_signal : Option String → Option Bool
engine_signal engine_type = elim (truthy engine_type) [
  | none ↦ none
  | some t ↦ some (not (t == "Elasticsearch"))
]

-- What the browser can ask; `none` is a rejected request.
pub record Backend : Type 0 where
  pub saved_object : String → Option DataSourceAttributes
  pub cluster_info : Option String → Option ClusterInfoReply

module _ (s : Semver) where
  -- the probe of the data source's cluster, when its saved object has no version
  probe_data_source_reply : Option ClusterInfoReply → DeploymentCapabilities
  probe_data_source_reply none = get_deployment_capabilities s none none
  probe_data_source_reply (some res) = elim (truthy res.version) [
    | none ↦ get_deployment_capabilities s none none
    | some v ↦
        if res.ok
        then get_deployment_capabilities s (some v) res.is_open_search
        else get_deployment_capabilities s none none
  ]

  -- the probe of the local cluster
  probe_local_reply : Option ClusterInfoReply → DeploymentCapabilities
  probe_local_reply none = get_deployment_capabilities s none none
  probe_local_reply (some res) =
      if res.ok
      then get_deployment_capabilities s res.version res.is_open_search
      else get_deployment_capabilities s none none

  resolve_data_source : Backend → String → DeploymentCapabilities
  unfolding probe_data_source_reply
  resolve_data_source b mds_id = elim (b.saved_object mds_id) [
    | none ↦ probe_data_source_reply (b.cluster_info (some mds_id))
    | some attributes ↦ elim (truthy attributes.data_source_version) [
      | none ↦ probe_data_source_reply (b.cluster_info (some mds_id))
      | some saved_version ↦
          get_deployment_capabilities s (some saved_version)
            (engine_signal attributes.data_source_engine_type)
    ]
  ]

  unfoldable pub resolve_deployment_capabilities :
      Backend → Bool → Option String → DeploymentCapabilities
  unfolding resolve_data_source probe_local_reply
  resolve_deployment_capabilities b data_source_enabled mds_id = elim (truthy mds_id) [
    | none ↦ probe_local_reply (b.cluster_info none)
    | some id ↦
        if data_source_enabled
        then resolve_data_source b id
        else probe_local_reply (b.cluster_info none)
  ]

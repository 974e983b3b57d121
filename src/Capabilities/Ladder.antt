-- ===== src/Capabilities/Ladder.antt =====
-- common/utils/deployment_capabilities.ts: the gate state and the features of a deployment.
use dashboards_query_workben.Common.{
  String, Bool, true, false, Option, ◌≡◌, ◌↔◌, ◌&&◌, not, inl, inr, arith, Option-cases,
}
use dashboards_query_workben.Capabilities.{
  Semver, SemverLaws, Coerced, s_min, s_async, s_full, DeploymentCapabilities,
  get_deployment_capabilities, coerce_version, is_open_search, capabilities_of,
}

-- What the gate state and the flags say of each other.
pub record IsLadder (c : DeploymentCapabilities) : Type 0 where
  pub full : (c.state ≡ s_full) ↔ (c.has_flint_ddl ≡ true)
  pub minimal : (c.state ≡ s_min) ↔ (c.has_async_query ≡ false)
  pub asynchronous : (c.state ≡ s_async) ↔ (c.has_async_query && not c.has_session_id ≡ true)
  pub session_needs_async : c.has_session_id ≡ c.has_session_id && c.has_async_query
  pub flint_needs_session : c.has_flint_ddl ≡ c.has_flint_ddl && c.has_session_id
  pub sources_are_async : c.has_data_sources ≡ c.has_async_query
  pub cache_is_flint : c.has_catalog_cache ≡ c.has_flint_ddl
  pub flyout_is_flint : c.has_acceleration_flyout ≡ c.has_flint_ddl

module _ (s : Semver) (laws : SemverLaws s) where
  capabilities_of-IsLadder :
      (coerced : Coerced) (is_os : Bool) → IsLadder (capabilities_of s coerced is_os)
  unfolding capabilities_of
  capabilities_of-IsLadder coerced is_os =
      let v = coerced.version in
      ground (
        arith,
        laws.gte_12_11,
        laws.gte_13_12,
        laws.gte_trans v "2.12.0" "2.11.0",
        laws.gte_trans v "2.13.0" "2.12.0",
      )

  -- Whatever version and engine are reported, the gate state is `S-full` exactly when Flint DDL is
  -- available, `S-min` exactly when asynchronous queries are not, and `S-async` exactly when
  -- asynchronous queries come without sessions; sessions need asynchronous queries and Flint DDL needs sessions; data sources, the catalog cache and the flyout follow.
  pub get_deployment_capabilities-IsLadder :
      (version : Option String) (signal : Option Bool)
      → IsLadder (get_deployment_capabilities s version signal)
  unfolding get_deployment_capabilities
  get_deployment_capabilities-IsLadder version signal =
      elim (Option-cases (coerce_version s version)) [
        | inl unknown ↦ rw (unknown, get_deployment_capabilities) (ground arith)
        | inr (coerced, known) ↦
            rw (known, get_deployment_capabilities)
              (capabilities_of-IsLadder coerced (is_open_search s coerced signal))
      ]

-- ===== src/Capabilities.antt =====
-- common/utils/deployment_capabilities.ts: which features of the workbench a cluster supports.
pub mod Ladder
pub mod Engine
pub mod Resolve
pub mod Samples
mod Tests
use dashboards_query_workben.Common.{
  ℕ, String, Bool, true, false, not, ◌&&◌, ◌||◌, Option, none, some, ◌≡◌, if◌then◌else◌, eqb,
  is_blank,
}

-- `semver.coerce` returns a version with its text and its major number.
pub record Coerced : Type 0 where
  pub version : String
  pub major : ℕ

-- The operations of the `semver` package that the program calls; `none` is `null`.
pub record Semver : Type 0 where
  pub coerce : String → Option Coerced
  pub gte : String → String → Bool
  pub lt : String → String → Bool

-- What `semver` documents of them: an order of versions.
pub record SemverLaws (s : Semver) : Type 0 where
  pub gte_trans : (a b c : String) → s.gte a b ≡ true → s.gte b c ≡ true → s.gte a c ≡ true
  pub lt_not_gte :
      (raw : String) (c : Coerced) (b : String)
      → s.coerce raw ≡ some c
      → s.lt c.version b ≡ not (s.gte c.version b)
  pub gte_12_11 : s.gte "2.12.0" "2.11.0" ≡ true
  pub gte_13_12 : s.gte "2.13.0" "2.12.0" ≡ true

pub data GateState : Type 0 where
  s_min s_async s_flint_none s_full : GateState

pub record DeploymentCapabilities : Type 0 where
  pub version : String
  pub state : GateState
  pub has_data_sources : Bool
  pub has_async_query : Bool
  pub has_session_id : Bool
  pub has_flint_ddl : Bool
  pub has_catalog_cache : Bool
  pub has_acceleration_flyout : Bool
  pub has_dsl_json_format : Bool
  pub uses_legacy_open_distro_sql : Bool
  pub has_ppl : Bool

abbrev pub default_capabilities : DeploymentCapabilities
default_capabilities = record {
  version = "";
  state = s_full;
  has_data_sources = true;
  has_async_query = true;
  has_session_id = true;
  has_flint_ddl = true;
  has_catalog_cache = true;
  has_acceleration_flyout = true;
  has_dsl_json_format = false;
  uses_legacy_open_distro_sql = false;
  has_ppl = true;
}

-- `version ? … : null`: the empty text counts as no version.
abbrev pub truthy : Option String → Option String
truthy none = none
truthy (some s) = if is_blank s then none else some s

module _ (s : Semver) where
  unfoldable pub coerce_version : Option String → Option Coerced
  coerce_version version = elim (truthy version) [ none ↦ none | some v ↦ s.coerce v ]

  -- `isOpenSearchDistribution ?? (major !== 6 && major !== 7)`
  unfoldable pub is_open_search : Coerced → Option Bool → Bool
  is_open_search coerced none = not (eqb coerced.major 6) && not (eqb coerced.major 7)
  is_open_search coerced (some b) = b

  gate_state : Bool → Bool → Bool → GateState
  gate_state has_async_query has_session_id has_flint_ddl =
      if not has_async_query
      then s_min
      else if not has_session_id
      then s_async
      else if not has_flint_ddl
      then s_flint_none
      else s_full

  unfoldable pub capabilities_of : Coerced → Bool → DeploymentCapabilities
  unfolding gate_state
  capabilities_of coerced is_os =
      let v = coerced.version in
      let has_async_query = is_os && s.gte v "2.11.0" in
      let has_session_id = is_os && s.gte v "2.12.0" in
      let has_flint_ddl = is_os && s.gte v "2.13.0" in
      record {
        version = v;
        state = gate_state has_async_query has_session_id has_flint_ddl;
        has_data_sources = has_async_query;
        has_async_query = has_async_query;
        has_session_id = has_session_id;
        has_flint_ddl = has_flint_ddl;
        has_catalog_cache = is_os && s.gte v "2.13.0";
        has_acceleration_flyout = is_os && s.gte v "2.13.0";
        has_dsl_json_format = s.lt v "3.0.0";
        uses_legacy_open_distro_sql = not is_os;
        has_ppl = is_os || s.gte v "7.9.0";
      }

  unfoldable pub get_deployment_capabilities : Option String → Option Bool → DeploymentCapabilities
  unfolding coerce_version is_open_search capabilities_of
  get_deployment_capabilities version is_open_search_distribution = elim (coerce_version version) [
    | none ↦ default_capabilities
    | some coerced ↦ capabilities_of coerced (is_open_search coerced is_open_search_distribution)
  ]

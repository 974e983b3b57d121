-- ===== src/Capabilities/Engine.antt =====
-- common/utils/deployment_capabilities.ts: the engine, the legacy API and later versions.
use dashboards_query_workben.Common.{
  String, Bool, true, false, Option, none, some, ◌≡◌, refl, ◌↔◌, ◌⊎◌, inl, inr, arith, Option-cases,
  not, ◌&&◌,
}
use dashboards_query_workben.Capabilities.{
  Semver, SemverLaws, Coerced, s_min, DeploymentCapabilities, get_deployment_capabilities,
  coerce_version, is_open_search, capabilities_of,
}

-- An explicit engine signal says Elasticsearch, or there is none and the major version is 6 or 7.
abbrev pub IsElasticsearch : Coerced → Option Bool → Type 0
IsElasticsearch coerced signal =
    (signal ≡ some false) ⊎ (signal ≡ none) × ((coerced.major ≡ 6) ⊎ (coerced.major ≡ 7))

is_open_search_iff :
    (s : Semver) (coerced : Coerced) (signal : Option Bool)
    → (not (is_open_search s coerced signal) ≡ true) ↔ IsElasticsearch coerced signal
unfolding is_open_search
is_open_search_iff s coerced none = ground arith
is_open_search_iff s coerced (some b) = ground arith

-- Nothing that an OpenDistro cluster lacks is switched on.
pub record IsBare (c : DeploymentCapabilities) : Type 0 where
  pub minimal : c.state ≡ s_min
  pub no_sources : c.has_data_sources ≡ false
  pub no_async : c.has_async_query ≡ false
  pub no_session : c.has_session_id ≡ false
  pub no_flint : c.has_flint_ddl ≡ false
  pub no_cache : c.has_catalog_cache ≡ false
  pub no_flyout : c.has_acceleration_flyout ≡ false

-- Every feature of the first is one of the second; only the legacy JSON format may be lost.
pub record IsBelow (c d : DeploymentCapabilities) : Type 0 where
  pub sources : c.has_data_sources && d.has_data_sources ≡ c.has_data_sources
  pub asynchronous : c.has_async_query && d.has_async_query ≡ c.has_async_query
  pub session : c.has_session_id && d.has_session_id ≡ c.has_session_id
  pub flint : c.has_flint_ddl && d.has_flint_ddl ≡ c.has_flint_ddl
  pub cache : c.has_catalog_cache && d.has_catalog_cache ≡ c.has_catalog_cache
  pub flyout : c.has_acceleration_flyout && d.has_acceleration_flyout ≡ c.has_acceleration_flyout
  pub ppl : c.has_ppl && d.has_ppl ≡ c.has_ppl
  pub dsl_json : d.has_dsl_json_format && c.has_dsl_json_format ≡ d.has_dsl_json_format

module _ (s : Semver) where
  -- The legacy API is used exactly for a cluster with a readable version that is Elasticsearch: by
  -- the engine signal if there is one, else by major version 6 or 7.
  pub uses_legacy_open_distro_sql_iff :
      (version : Option String) (signal : Option Bool)
      → ((get_deployment_capabilities s version signal).uses_legacy_open_distro_sql ≡ true)
        ↔ ((c : Coerced) × (coerce_version s version ≡ some c) × IsElasticsearch c signal)
  unfolding get_deployment_capabilities capabilities_of
  uses_legacy_open_distro_sql_iff version signal = elim (Option-cases (coerce_version s version)) [
    | inl unknown ↦ rw (unknown, get_deployment_capabilities) ((λ h. cc), (λ h. cc (h.1)))
    | inr (coerced, known) ↦
        rw (known, get_deployment_capabilities)
          (
            (λ h. (coerced, refl, (is_open_search_iff s coerced signal).0 h)),
            (λ h. (is_open_search_iff s coerced signal).1 (same coerced h.0 h.1 h.2)),
          )
  ]
    where
      same : (c d : Coerced) → some c ≡ some d → IsElasticsearch d signal → IsElasticsearch c signal
      same c d e h = ground arith

  -- A cluster that is called by the legacy API has none of the features that OpenSearch added:
  -- its gate state is `S-min`, and data sources, asynchronous queries, sessions, Flint DDL, the
  -- catalog cache and the acceleration flyout are off.
  pub legacy-IsBare :
      (version : Option String) (signal : Option Bool)
      → (get_deployment_capabilities s version signal).uses_legacy_open_distro_sql ≡ true
      → IsBare (get_deployment_capabilities s version signal)
  unfolding get_deployment_capabilities capabilities_of
  legacy-IsBare version signal h = ground (arith, Option-cases (coerce_version s version))

  readable :
      (raw : Option String) (c : Coerced)
      → coerce_version s raw ≡ some c
      → (text : String) × (s.coerce text ≡ some c)
  unfolding coerce_version
  readable (some text) c h = (text, ground arith)
  readable none c h = cc

  capabilities_of_mono :
      (laws : SemverLaws s) (c c' : Coerced) (engine : Bool)
      → (text : String) × (s.coerce text ≡ some c)
      → (text : String) × (s.coerce text ≡ some c')
      → s.gte c'.version c.version ≡ true
      → IsBelow (capabilities_of s c engine) (capabilities_of s c' engine)
  unfolding capabilities_of
  capabilities_of_mono laws c c' engine (text, from) (text', from') later =
      let up = λ (bound : String). laws.gte_trans c'.version c.version bound later in
      ground (
        arith,
        up "2.11.0",
        up "2.12.0",
        up "2.13.0",
        up "7.9.0",
        up "3.0.0",
        laws.lt_not_gte text c "3.0.0" from,
        laws.lt_not_gte text' c' "3.0.0" from',
      )

  -- For two readable versions and one explicit engine signal, a cluster of the later version has data
  -- sources, asynchronous queries, sessions, Flint statements, the catalog cache, the flyout and PPL where
  -- the earlier one has them, and the legacy JSON format only if the earlier one has it.
  pub get_deployment_capabilities_mono :
      (laws : SemverLaws s) (raw raw' : Option String) (c c' : Coerced) (engine : Bool)
      → coerce_version s raw ≡ some c
      → coerce_version s raw' ≡ some c'
      → s.gte c'.version c.version ≡ true
      → IsBelow
          (get_deployment_capabilities s raw (some engine))
          (get_deployment_capabilities s raw' (some engine))
  unfolding get_deployment_capabilities
  get_deployment_capabilities_mono laws raw raw' c c' engine known known' later =
      rw (known, known', get_deployment_capabilities)
        (capabilities_of_mono laws c c' engine (readable raw c known) (readable raw' c' known')
          later)

-- ===== src/Server/Routing.antt =====
-- server/routes/ and server/services/: which cluster and which endpoint each route reaches.
use dashboards_query_workben.Common.{
  String, Bool, true, false, Option, none, some, [], ◌≡◌, refl, ◌↔◌, ◌&&◌, arith, All, ◌⧺◌, length,
  ◌≤◌, subst, Bool-cases, inl, inr,
}
use dashboards_query_workben.Common.Dict.{lookup}
use dashboards_query_workben.Capabilities.{
  Semver, get_deployment_capabilities, DeploymentCapabilities,
}
use dashboards_query_workben.Capabilities.Engine.{legacy-IsBare}
use dashboards_query_workben.ClusterInfo.{ClusterEngineInfo, Target, local, data_source}
use dashboards_query_workben.Server.SqlPlugin.{ClientAction, sql_plugin}
use dashboards_query_workben.Server.Client.{Call, Request, Runtime, target_of, raw}
use dashboards_query_workben.Server.Translate.{resolve_action, translate_sql, translate_ppl}
use dashboards_query_workben.Server.Query.{
  ResponseFormat, json, plain, describe_sql_query, describe_ppl_query, describe_sql_csv,
  describe_ppl_csv, describe_sql_json, describe_ppl_json, describe_sql_text, describe_ppl_text,
  describe_sql_async_query, describe_sql_async_get_query, describe_async_delete_query,
  describe_sync_query_data_sources, is_legacy, is_legacy_eligible, legacy_action_for,
  describe_query_post_internal,
}
use dashboards_query_workben.Server.Routes.{
  Route, sql_query, ppl_query, sql_csv, ppl_csv, sql_json, ppl_json, sql_text, ppl_text,
  spark_sql_query, spark_sql_get, spark_sql_delete, get_datasources, translate_sql_route,
  translate_ppl_route, ok, service, handle,
}
use dashboards_query_workben.Server.Endpoints.{eligible-HasLegacyTwin}

-- The routes that have an OpenDistro counterpart: queries and translations.
abbrev pub is_query_route : Route → Bool
is_query_route spark_sql_query = false
is_query_route spark_sql_get = false
is_query_route spark_sql_delete = false
is_query_route get_datasources = false
is_query_route _ = true

abbrev pub namespace : Bool → String
namespace true = "/_opendistro"
namespace false = "/_plugins"

-- The call is of a declared action, whose endpoint is in the namespace.
pub record Reaches (space : String) (c : Call) : Type 0 where
  pub action : ClientAction
  pub rest : String
  pub declared : lookup c.action sql_plugin ≡ some action
  pub fmt : action.fmt ≡ space ⧺ rest

legacy_action_for-Reaches :
    (s : Semver) (action : String) (info : ClusterEngineInfo) (c : Call)
    → is_legacy_eligible action ≡ true
    → c.action ≡ legacy_action_for s action info
    → Reaches (namespace (is_legacy s info)) c
unfolding legacy_action_for
legacy_action_for-Reaches s action info c eligible e =
    let twin = eligible-HasLegacyTwin action eligible in
    elim (Bool-cases (is_legacy s info)) [
      | inl old ↦ rw old (record {
        action = twin.legacy;
        rest = twin.rest;
        declared = ground (arith, twin.legacy_declared);
        fmt = twin.legacy_fmt;
      })
      | inr modern ↦ rw modern (record {
        action = twin.modern;
        rest = twin.rest;
        declared = ground (arith, twin.modern_declared);
        fmt = twin.modern_fmt;
      })
    ]

-- The data source that is named, where data sources are enabled and the name is not empty, else the local cluster.
abbrev pub meant : (enabled : Bool) → Option String → Target
meant false name = local
meant true none = local
meant true (some String.[]) = local
meant true (some (String.◌∷◌ c name)) = data_source (String.◌∷◌ c name)

target_of_lem :
    (enabled : Bool) (name : Option String) → target_of enabled name ≡ meant enabled name
target_of_lem false none = refl
target_of_lem false (some String.[]) = refl
target_of_lem false (some (String.◌∷◌ c name)) = refl
target_of_lem true none = refl
target_of_lem true (some String.[]) = refl
target_of_lem true (some (String.◌∷◌ c name)) = refl

-- What the server takes a cluster to be able to do.
abbrev pub caps_at : {J : Type 0} → Runtime J → Semver → Target → DeploymentCapabilities
caps_at rt s target =
    let info = rt.engine target in
    get_deployment_capabilities s (some info.version) info.is_open_search

module _ {J : Type 0} (rt : Runtime J) (s : Semver) (enabled : Bool) where
  -- The data source that a request names, where its route looks for it.
  abbrev pub named : Route → Request J → Option String
  named spark_sql_get request = request.params_data_source
  named spark_sql_delete request = request.params_data_source
  named get_datasources request = request.params_data_source
  named _ request = request.query_data_source

  post-Reaches :
      (request : Request J) (action : String) (format : ResponseFormat) (payload : J)
      → is_legacy_eligible action ≡ true
      → All
          (λ c. Reaches (namespace (is_legacy s (rt.engine c.target))) c)
          (describe_query_post_internal rt s enabled request action format payload).calls
  unfolding describe_query_post_internal
  post-Reaches request action format payload eligible =
      (legacy_action_for-Reaches s action _ _ eligible refl, tt)

  resolve_action_lem :
      (action : String) (info : ClusterEngineInfo)
      → is_legacy_eligible action ≡ true
      → resolve_action s action info ≡ legacy_action_for s action info
  unfolding resolve_action legacy_action_for
  resolve_action_lem action info h = ground arith

  -- Whatever is requested on whatever route, each call that the server makes is of an action that
  -- the cluster client declares. Its endpoint is under `/_opendistro` exactly when the route is a
  -- query or a translation and the cluster that is called uses the legacy API, else under
  -- `/_plugins`.
  pub calls-Reaches :
      (route : Route) (request : Request J)
      → All
          (λ c. Reaches (namespace (is_query_route route && is_legacy s (rt.engine c.target))) c)
          (service rt s enabled route request).calls
  unfolding service is_legacy_eligible sql_plugin lookup
  calls-Reaches sql_query request =
      unfold describe_sql_query in post-Reaches request "sql.sqlQuery" json request.body refl
  calls-Reaches ppl_query request =
      unfold describe_ppl_query in post-Reaches request "sql.pplQuery" json request.body refl
  calls-Reaches sql_csv request =
      unfold describe_sql_csv in post-Reaches request "sql.sqlCsv" plain request.body refl
  calls-Reaches ppl_csv request =
      unfold describe_ppl_csv in post-Reaches request "sql.pplCsv" plain request.body refl
  calls-Reaches sql_json request =
      unfold describe_sql_json in post-Reaches request "sql.sqlJson" json request.body refl
  calls-Reaches ppl_json request =
      unfold describe_ppl_json in post-Reaches request "sql.pplJson" json request.body refl
  calls-Reaches sql_text request =
      unfold describe_sql_text in post-Reaches request "sql.sqlText" plain request.body refl
  calls-Reaches ppl_text request =
      unfold describe_ppl_text in post-Reaches request "sql.pplText" plain request.body refl
  calls-Reaches spark_sql_query request =
      unfold describe_sql_async_query legacy_action_for in
      (record { action = _; rest = "/_async_query"; declared = refl; fmt = refl }, tt)
  calls-Reaches spark_sql_get request =
      unfold describe_sql_async_get_query in
      (record { action = _; rest = "/_async_query/<%=jobId%>"; declared = refl; fmt = refl }, tt)
  calls-Reaches spark_sql_delete request =
      unfold describe_async_delete_query in
      (record { action = _; rest = "/_async_query/<%=jobId%>"; declared = refl; fmt = refl }, tt)
  calls-Reaches get_datasources request =
      unfold describe_sync_query_data_sources in
      let target = target_of enabled request.params_data_source in
      elim (Bool-cases (caps_at rt s target).has_data_sources) [
        | inl has ↦
            rw has (
              record { action = _; rest = "/_query/_datasources"; declared = refl; fmt = refl },
              tt,
            )
        | inr lacks ↦ rw lacks tt
      ]
  calls-Reaches translate_sql_route request =
      unfold translate_sql in
      (
        legacy_action_for-Reaches s "sql.translateSQL" _ _ refl
            (resolve_action_lem "sql.translateSQL" _ refl),
        tt,
      )
  calls-Reaches translate_ppl_route request =
      unfold translate_ppl in
      (
        legacy_action_for-Reaches s "sql.translatePPL" _ _ refl
            (resolve_action_lem "sql.translatePPL" _ refl),
        tt,
      )

  calls-target_of :
      (route : Route) (request : Request J)
      → let calls = (service rt s enabled route request).calls in
        let target = target_of enabled (named route request) in
        All (λ c. c.target ≡ target) calls
        × (length calls ≤ 1)
        × ((calls ≡ [])
            ↔ (route ≡ get_datasources) × ((caps_at rt s target).has_data_sources ≡ false))
  unfolding service
  calls-target_of sql_query request = unfold describe_sql_query in ground arith
  calls-target_of ppl_query request = unfold describe_ppl_query in ground arith
  calls-target_of sql_csv request = unfold describe_sql_csv in ground arith
  calls-target_of ppl_csv request = unfold describe_ppl_csv in ground arith
  calls-target_of sql_json request = unfold describe_sql_json in ground arith
  calls-target_of ppl_json request = unfold describe_ppl_json in ground arith
  calls-target_of sql_text request = unfold describe_sql_text in ground arith
  calls-target_of ppl_text request = unfold describe_ppl_text in ground arith
  calls-target_of spark_sql_query request = unfold describe_sql_async_query in ground arith
  calls-target_of spark_sql_get request = unfold describe_sql_async_get_query in ground arith
  calls-target_of spark_sql_delete request = unfold describe_async_delete_query in ground arith
  calls-target_of get_datasources request =
      unfold describe_sync_query_data_sources in
      let target = target_of enabled request.params_data_source in
      elim (Bool-cases (caps_at rt s target).has_data_sources) [
        | inl has ↦ rw has (ground arith)
        | inr lacks ↦ rw lacks (ground arith)
      ]
  calls-target_of translate_sql_route request = unfold translate_sql in ground arith
  calls-target_of translate_ppl_route request = unfold translate_ppl in ground arith

  -- On every route each call goes to the data source that the request names, if data sources are
  -- enabled and the name is not empty, and to the local cluster otherwise. A route makes one call,
  -- but for `get_datasources`, which makes none exactly when the cluster has no data sources.
  pub calls-target :
      (route : Route) (request : Request J)
      → let calls = (service rt s enabled route request).calls in
        let target = meant enabled (named route request) in
        All (λ c. c.target ≡ target) calls
        × (length calls ≤ 1)
        × ((calls ≡ [])
            ↔ (route ≡ get_datasources) × ((caps_at rt s target).has_data_sources ≡ false))
  calls-target route request =
      subst
        (λ target.
          All (λ c. c.target ≡ target) (service rt s enabled route request).calls
          × (length (service rt s enabled route request).calls ≤ 1)
          × (((service rt s enabled route request).calls ≡ [])
              ↔ (route ≡ get_datasources) × ((caps_at rt s target).has_data_sources ≡ false)))
        (target_of_lem enabled (named route request)) (calls-target_of route request)

  -- A cluster that uses the legacy API is never asked for its data sources: the answer is an empty
  -- list, with no call made.
  pub legacy_data_sources :
      (request : Request J)
      → is_legacy s (rt.engine (target_of enabled request.params_data_source)) ≡ true
      → ((service rt s enabled get_datasources request).calls ≡ [])
        × (handle rt s enabled get_datasources request
            ≡ ok (record { ok = true; resp = raw rt.empty_list; body = none; status_code = none }))
  unfolding service handle describe_sync_query_data_sources
  legacy_data_sources request h =
      let info = rt.engine (target_of enabled request.params_data_source) in
      let bare = legacy-IsBare s (some info.version) info.is_open_search h in
      rw (bare.no_sources) (refl, refl)

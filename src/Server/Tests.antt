-- ===== src/Server/Tests.antt =====
-- Concrete requests, with texts for JSON values.
use dashboards_query_workben.Common.{
  String, true, false, ◌&&◌, none, some, [], ◌≡◌, ◌↔◌, refl, All, length, ◌≤◌,
}
use dashboards_query_workben.Capabilities.{
  get_deployment_capabilities, coerce_version, capabilities_of, is_open_search,
}
use dashboards_query_workben.Capabilities.Samples.{sample_semver, rank}
use dashboards_query_workben.ClusterInfo.{local, data_source}
use dashboards_query_workben.Server.Client.{
  Call, returned, thrown, ClientError, Request, Runtime, Reply, text, target_of, body,
}
use dashboards_query_workben.Server.Query.{
  is_legacy_eligible, is_legacy, describe_sql_query, legacy_action_for,
}
use dashboards_query_workben.Server.Routes.{sql_query, get_datasources, ok, service, handle}
use dashboards_query_workben.Server.Endpoints.{HasLegacyTwin, eligible-HasLegacyTwin}
use dashboards_query_workben.Server.Routing.{
  is_query_route, namespace, Reaches, caps_at, named, calls-Reaches, calls-target,
}
use dashboards_query_workben.Server.Responses.{IsFailure, handle-IsFailure, handle-success}

abbrev refused : ClientError
refused = record { message = "refused"; body = some "no such index"; status_code = some 404 }

-- The local cluster is OpenSearch 2.13; each data source is an OpenDistro cluster, which refuses.
abbrev runtime : Runtime String
runtime = record {
  stringify = λ j. j;
  query_request = λ j. j;
  empty_list = "[]";
  perform = λ c. elim c.target [ local ↦ returned "rows" | data_source id ↦ thrown refused ];
  engine = λ t. elim t [
    | local ↦ record { version = "2.13.0"; is_open_search = some true }
    | data_source id ↦ record { version = "7.10.2"; is_open_search = some false }
  ];
}

abbrev local_request : Request String
local_request = record {
  query_data_source = none;
  params_data_source = none;
  params_id = "";
  body = "select 1";
}

abbrev legacy_request : Request String
legacy_request = record {
  query_data_source = some "old";
  params_data_source = some "old";
  params_id = "";
  body = "select 1";
}

eligible-HasLegacyTwin_example : HasLegacyTwin "sql.sqlCsv"
unfolding is_legacy_eligible
eligible-HasLegacyTwin_example = eligible-HasLegacyTwin "sql.sqlCsv" refl

calls-Reaches_example :
    All
      (λ c.
        Reaches
          (namespace
            (is_query_route sql_query && is_legacy sample_semver (runtime.engine c.target)))
          c)
      (service runtime sample_semver true sql_query legacy_request).calls
calls-Reaches_example = calls-Reaches runtime sample_semver true sql_query legacy_request

calls-target_example :
    let calls = (service runtime sample_semver true get_datasources legacy_request).calls in
    let target = target_of true (named runtime sample_semver true get_datasources legacy_request) in
    All (λ c. c.target ≡ target) calls
    × (length calls ≤ 1)
    × ((calls ≡ [])
        ↔ (get_datasources ≡ get_datasources)
          × ((caps_at runtime sample_semver target).has_data_sources ≡ false))
calls-target_example = calls-target runtime sample_semver true get_datasources legacy_request

abbrev legacy_call : Call
legacy_call = record {
  target = data_source "old";
  action = "sql.sqlQueryLegacy";
  params = body "select 1";
}

abbrev local_call : Call
local_call = record { target = local; action = "sql.sqlQuery"; params = body "select 1" }

handle-IsFailure_example :
    IsFailure false refused (handle runtime sample_semver true sql_query legacy_request)
unfolding service describe_sql_query legacy_action_for is_legacy_eligible
    get_deployment_capabilities coerce_version sample_semver rank capabilities_of is_open_search
handle-IsFailure_example =
    handle-IsFailure runtime sample_semver true sql_query legacy_request legacy_call refused refl
      refl

handle-success_example :
    (reply : Reply String) × (handle runtime sample_semver true sql_query local_request ≡ ok reply)
    × (reply.ok ≡ true)
    × (reply.resp ≡ text "rows")
unfolding service describe_sql_query legacy_action_for is_legacy_eligible
    get_deployment_capabilities coerce_version sample_semver rank capabilities_of is_open_search
handle-success_example =
    handle-success runtime sample_semver true sql_query local_request local_call "rows" refl refl

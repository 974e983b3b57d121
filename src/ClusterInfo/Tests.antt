-- ===== src/ClusterInfo/Tests.antt =====
-- Concrete clusters and calls.
use dashboards_query_workben.Common.{ℕ, true, none, some, ◌≡◌, refl, get_elem?, length}
use dashboards_query_workben.Capabilities.Samples.{sample_semver}
use dashboards_query_workben.Capabilities.Resolve.{
  Backend, DataSourceAttributes, resolve_deployment_capabilities,
}
use dashboards_query_workben.ClusterInfo.{
  ClusterEngineInfo, InfoResponse, probe, probe_data_source, answer, cluster_info_route, local,
  data_source, pending, failed, fulfilled, Service, new_service, get_version, on_probe_ok,
  on_probe_failed,
}
use dashboards_query_workben.ClusterInfo.Agreement.{server_capabilities, resolve_data_source_agrees}
use dashboards_query_workben.ClusterInfo.Cache.{
  asked, call, current, Reach, here, next, request, succeed,
}
use dashboards_query_workben.ClusterInfo.SingleFlight.{
  single_flight, answer_is_kept, failure_is_retried,
}

abbrev saved : DataSourceAttributes
saved = record {
  data_source_version = some "7.10.2";
  data_source_engine_type = some "Elasticsearch";
}

abbrev live : InfoResponse
live = record { number = some "2.13.0"; distribution = some "opensearch" }

-- A backend that has the saved object and whose requests reach the server.
abbrev backend : Backend
backend = record {
  saved_object = λ id. some saved;
  cluster_info = λ id. elim id [
    | none ↦ some (cluster_info_route (answer (probe (some live))))
    | some i ↦ some (cluster_info_route (answer (probe_data_source (some saved) (some live))))
  ];
}

resolve_data_source_agrees_example :
    resolve_deployment_capabilities sample_semver backend true (some "elastic")
    ≡ server_capabilities sample_semver (answer (probe_data_source (some saved) (some live)))
resolve_data_source_agrees_example =
    resolve_data_source_agrees sample_semver backend "elastic" (some saved) (some live) refl refl
      refl

abbrev called_once : Service
called_once = (call local new_service).0

abbrev engine : ClusterEngineInfo
engine = record { version = "2.13.0"; is_open_search = some true }

abbrev answered_once : Service
answered_once = on_probe_ok 0 engine called_once

called_once-Reach : Reach new_service called_once
called_once-Reach = next here (request local)

called_twice-Reach : Reach new_service (call local called_once).0
called_twice-Reach = next called_once-Reach (request local)

answered_once-Reach : Reach new_service answered_once
unfolding get_version
answered_once-Reach = next called_once-Reach (succeed 0 local engine refl)

single_flight_example : ◌≡◌ {A = ℕ} 0 0
unfolding get_version
single_flight_example =
    single_flight (call local called_once).0 0 0 local called_twice-Reach refl refl

answer_is_kept_example :
    (call local (call (data_source "a") answered_once).0
      ≡ ((call (data_source "a") answered_once).0, 0))
    × (get_elem? (call (data_source "a") answered_once).0.promises 0
        ≡ some (asked local (fulfilled engine)))
unfolding get_version on_probe_ok
answer_is_kept_example =
    answer_is_kept answered_once (call (data_source "a") answered_once).0 local 0 engine
      answered_once-Reach (next here (request (data_source "a"))) (refl, refl)

failure_is_retried_example :
    let v = on_probe_failed 0 local called_once in
    let n = length v.promises in
    ((call local v).1 ≡ n)
    × (current local (call local v).0 ≡ some n)
    × (get_elem? (call local v).0.promises n ≡ some (asked local pending))
    × (get_elem? (call local v).0.promises 0 ≡ some (asked local failed))
unfolding get_version
failure_is_retried_example = failure_is_retried called_once local 0 refl

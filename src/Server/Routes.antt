-- ===== src/Server/Routes.antt =====
-- server/routes/query.ts and server/routes/translate.ts: each handler, and the route that it serves.
-- A request's body and path are validated by the platform.
use dashboards_query_workben.Common.{ℕ, String, Bool, Option, if◌then◌else◌}
use dashboards_query_workben.Capabilities.{Semver}
use dashboards_query_workben.Server.Client.{Reply, Request, Runtime, Handled}
use dashboards_query_workben.Server.Query.{
  describe_sql_query, describe_ppl_query, describe_sql_csv, describe_ppl_csv, describe_sql_json,
  describe_ppl_json, describe_sql_text, describe_ppl_text, describe_sql_async_query,
  describe_sql_async_get_query, describe_sync_query_data_sources, describe_async_delete_query,
}
use dashboards_query_workben.Server.Translate.{translate_sql, translate_ppl}

pub data HttpResponse (J : Type 0) : Type 0 where
  ok : Reply J → HttpResponse J
  custom : Option String → Option ℕ → HttpResponse J

-- `retVal.data.ok ? response.ok(…) : response.custom(…)`
abbrev pub checked : {J : Type 0} → Handled J → HttpResponse J
checked handled =
    let reply = handled.reply in if reply.ok then ok reply else custom reply.body reply.status_code

abbrev pub unchecked : {J : Type 0} → Handled J → HttpResponse J
unchecked handled = ok handled.reply

-- The routes that call a service; `cluster_info` is in ClusterInfo.
pub data Route : Type 0 where
  sql_query ppl_query sql_csv ppl_csv sql_json ppl_json sql_text ppl_text spark_sql_query
        spark_sql_get spark_sql_delete get_datasources translate_sql_route translate_ppl_route :
      Route

module _ {J : Type 0} (rt : Runtime J) (s : Semver) (enabled : Bool) where
  -- The service method that a route's handler awaits.
  unfoldable pub service : Route → Request J → Handled J
  service sql_query request = describe_sql_query rt s enabled request
  service ppl_query request = describe_ppl_query rt s enabled request
  service sql_csv request = describe_sql_csv rt s enabled request
  service ppl_csv request = describe_ppl_csv rt s enabled request
  service sql_json request = describe_sql_json rt s enabled request
  service ppl_json request = describe_ppl_json rt s enabled request
  service sql_text request = describe_sql_text rt s enabled request
  service ppl_text request = describe_ppl_text rt s enabled request
  service spark_sql_query request = describe_sql_async_query rt s enabled request
  service spark_sql_get request =
      describe_sql_async_get_query rt s enabled request request.params_id request.params_data_source
  service spark_sql_delete request =
      describe_async_delete_query rt s enabled request request.params_id request.params_data_source
  service get_datasources request = describe_sync_query_data_sources rt s enabled request
  service translate_sql_route request = translate_sql rt s enabled request
  service translate_ppl_route request = translate_ppl rt s enabled request

  -- The handlers.
  abbrev pub on_sql_query : Request J → HttpResponse J
  on_sql_query request = checked (describe_sql_query rt s enabled request)

  abbrev pub on_ppl_query : Request J → HttpResponse J
  on_ppl_query request = unchecked (describe_ppl_query rt s enabled request)

  abbrev pub on_sql_csv : Request J → HttpResponse J
  on_sql_csv request = checked (describe_sql_csv rt s enabled request)

  abbrev pub on_ppl_csv : Request J → HttpResponse J
  on_ppl_csv request = checked (describe_ppl_csv rt s enabled request)

  abbrev pub on_sql_json : Request J → HttpResponse J
  on_sql_json request = checked (describe_sql_json rt s enabled request)

  abbrev pub on_ppl_json : Request J → HttpResponse J
  on_ppl_json request = checked (describe_ppl_json rt s enabled request)

  abbrev pub on_sql_text : Request J → HttpResponse J
  on_sql_text request = checked (describe_sql_text rt s enabled request)

  abbrev pub on_ppl_text : Request J → HttpResponse J
  on_ppl_text request = checked (describe_ppl_text rt s enabled request)

  abbrev pub on_spark_sql_query : Request J → HttpResponse J
  on_spark_sql_query request = checked (describe_sql_async_query rt s enabled request)

  abbrev pub on_spark_sql_get : Request J → HttpResponse J
  on_spark_sql_get request = checked (
      describe_sql_async_get_query rt s enabled request request.params_id
        request.params_data_source)

  abbrev pub on_spark_sql_delete : Request J → HttpResponse J
  on_spark_sql_delete request = unchecked (
      describe_async_delete_query rt s enabled request request.params_id request.params_data_source)

  abbrev pub on_get_datasources : Request J → HttpResponse J
  on_get_datasources request = checked (describe_sync_query_data_sources rt s enabled request)

  abbrev pub on_translate_sql_route : Request J → HttpResponse J
  on_translate_sql_route request = unchecked (translate_sql rt s enabled request)

  abbrev pub on_translate_ppl_route : Request J → HttpResponse J
  on_translate_ppl_route request = unchecked (translate_ppl rt s enabled request)

  unfoldable pub handle : Route → Request J → HttpResponse J
  handle sql_query request = on_sql_query request
  handle ppl_query request = on_ppl_query request
  handle sql_csv request = on_sql_csv request
  handle ppl_csv request = on_ppl_csv request
  handle sql_json request = on_sql_json request
  handle ppl_json request = on_ppl_json request
  handle sql_text request = on_sql_text request
  handle ppl_text request = on_ppl_text request
  handle spark_sql_query request = on_spark_sql_query request
  handle spark_sql_get request = on_spark_sql_get request
  handle spark_sql_delete request = on_spark_sql_delete request
  handle get_datasources request = on_get_datasources request
  handle translate_sql_route request = on_translate_sql_route request
  handle translate_ppl_route request = on_translate_ppl_route request

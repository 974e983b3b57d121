-- ===== src/Server/Query.antt =====
-- server/services/QueryService.ts
use dashboards_query_workben.Common.{
  String, Bool, true, false, not, Option, none, some, List, [], ◌∷◌, if◌then◌else◌, ◌==◌, any, ◌⧺◌,
}
use dashboards_query_workben.Capabilities.{Semver, get_deployment_capabilities}
use dashboards_query_workben.ClusterInfo.{ClusterEngineInfo}
use dashboards_query_workben.Server.Client.{
  body, job_id, no_params, Call, Answer, returned, thrown, text, raw, Reply, Request, Runtime,
  Handled, target_of, status_or_400,
}

abbrev pub legacy_eligible_actions : List String
legacy_eligible_actions =
    "sql.sqlQuery" ∷ "sql.sqlJson" ∷ "sql.sqlCsv" ∷ "sql.sqlText" ∷ "sql.translateSQL"
    ∷ "sql.pplQuery" ∷ "sql.pplJson" ∷ "sql.pplCsv" ∷ "sql.pplText" ∷ "sql.translatePPL" ∷ []

unfoldable pub is_legacy_eligible : String → Bool
is_legacy_eligible action = any (λ a. a == action) legacy_eligible_actions

-- The engine of a cluster is called by the OpenDistro API.
abbrev pub is_legacy : Semver → ClusterEngineInfo → Bool
is_legacy s info =
    let caps = get_deployment_capabilities s (some info.version) info.is_open_search in
    caps.uses_legacy_open_distro_sql

unfoldable pub legacy_action_for : Semver → String → ClusterEngineInfo → String
legacy_action_for s action info =
    if not (is_legacy_eligible action)
    then action
    else if is_legacy s info
    then action ⧺ "Legacy"
    else action

-- `_.isEqual(responseFormat, 'json')`
pub data ResponseFormat : Type 0 where
  json plain : ResponseFormat

module _ {J : Type 0} (rt : Runtime J) where
  abbrev pub ok_reply : ResponseFormat → J → Reply J
  ok_reply json answer = record {
    ok = true;
    resp = text (rt.stringify answer);
    body = none;
    status_code = none;
  }
  ok_reply plain answer = record { ok = true; resp = raw answer; body = none; status_code = none }

  -- the two ends of each `try … catch`
  abbrev pub reply_of : ResponseFormat → Answer J → Reply J
  reply_of format (returned answer) = ok_reply format answer
  reply_of format (thrown err) = record {
    ok = false;
    resp = text err.message;
    body = err.body;
    status_code = some (status_or_400 err.status_code);
  }

  abbrev pub perform_one : ResponseFormat → Call → Handled J
  perform_one format call = record { calls = call ∷ []; reply = reply_of format (rt.perform call) }

module _ {J : Type 0} (rt : Runtime J) (s : Semver) (data_source_enabled : Bool) where
  unfoldable pub describe_query_post_internal : Request J → String → ResponseFormat → J → Handled J
  describe_query_post_internal request format response_format payload =
      let target = target_of data_source_enabled request.query_data_source in
      perform_one rt response_format (record {
        target = target;
        action = legacy_action_for s format (rt.engine target);
        params = body (rt.stringify payload);
      })

  unfoldable pub describe_query_job_id_internal :
      Request J → String → String → ResponseFormat → Option String → Handled J
  describe_query_job_id_internal request format id response_format mds_id =
      perform_one rt response_format (record {
        target = target_of data_source_enabled mds_id;
        action = format;
        params = job_id id;
      })

  unfoldable pub describe_query_get_internal_sync : Request J → String → ResponseFormat → Handled J
  describe_query_get_internal_sync request format response_format =
      let target = target_of data_source_enabled request.params_data_source in
      let info = rt.engine target in
      let caps = get_deployment_capabilities s (some info.version) info.is_open_search in
      if not caps.has_data_sources
      then record {
        calls = [];
        reply = record { ok = true; resp = raw rt.empty_list; body = none; status_code = none };
      }
      else perform_one rt response_format
          (record { target = target; action = format; params = no_params })

  unfoldable pub describe_sql_query : Request J → Handled J
  unfolding describe_query_post_internal
  describe_sql_query request = describe_query_post_internal request "sql.sqlQuery" json request.body

  unfoldable pub describe_ppl_query : Request J → Handled J
  unfolding describe_query_post_internal
  describe_ppl_query request = describe_query_post_internal request "sql.pplQuery" json request.body

  unfoldable pub describe_sql_csv : Request J → Handled J
  unfolding describe_query_post_internal
  describe_sql_csv request = describe_query_post_internal request "sql.sqlCsv" plain request.body

  unfoldable pub describe_ppl_csv : Request J → Handled J
  unfolding describe_query_post_internal
  describe_ppl_csv request = describe_query_post_internal request "sql.pplCsv" plain request.body

  unfoldable pub describe_sql_json : Request J → Handled J
  unfolding describe_query_post_internal
  describe_sql_json request = describe_query_post_internal request "sql.sqlJson" json request.body

  unfoldable pub describe_ppl_json : Request J → Handled J
  unfolding describe_query_post_internal
  describe_ppl_json request = describe_query_post_internal request "sql.pplJson" json request.body

  unfoldable pub describe_sql_text : Request J → Handled J
  unfolding describe_query_post_internal
  describe_sql_text request = describe_query_post_internal request "sql.sqlText" plain request.body

  unfoldable pub describe_ppl_text : Request J → Handled J
  unfolding describe_query_post_internal
  describe_ppl_text request = describe_query_post_internal request "sql.pplText" plain request.body

  unfoldable pub describe_sql_async_query : Request J → Handled J
  unfolding describe_query_post_internal
  describe_sql_async_query request =
      describe_query_post_internal request "sql.sparkSqlQuery" plain request.body

  unfoldable pub describe_sql_async_get_query : Request J → String → Option String → Handled J
  unfolding describe_query_job_id_internal
  describe_sql_async_get_query request id mds_id =
      describe_query_job_id_internal request "sql.sparkSqlGetQuery" id plain mds_id

  unfoldable pub describe_sync_query_data_sources : Request J → Handled J
  unfolding describe_query_get_internal_sync
  describe_sync_query_data_sources request =
      describe_query_get_internal_sync request "sql.datasourcesGetQuery" plain

  unfoldable pub describe_async_delete_query : Request J → String → Option String → Handled J
  unfolding describe_query_job_id_internal
  describe_async_delete_query request id mds_id =
      describe_query_job_id_internal request "sql.asyncDeleteQuery" id plain mds_id

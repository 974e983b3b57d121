-- ===== src/Server/Translate.antt =====
-- server/services/TranslateService.ts
use dashboards_query_workben.Common.{String, Bool, true, false, none, [], ◌∷◌, if◌then◌else◌, ◌⧺◌}
use dashboards_query_workben.Capabilities.{Semver}
use dashboards_query_workben.ClusterInfo.{ClusterEngineInfo}
use dashboards_query_workben.Server.Client.{
  body, Call, Answer, returned, thrown, text, raw, Reply, Request, Runtime, Handled, target_of,
}
use dashboards_query_workben.Server.Query.{is_legacy}

-- the two resolvers, which differ in whose engine they ask for
unfoldable pub resolve_action : Semver → String → ClusterEngineInfo → String
resolve_action s action info = if is_legacy s info then action ⧺ "Legacy" else action

abbrev translate_reply : {J : Type 0} → Answer J → Reply J
translate_reply (returned answer) = record {
  ok = true;
  resp = raw answer;
  body = none;
  status_code = none;
}
translate_reply (thrown err) = record {
  ok = false;
  resp = text err.message;
  body = none;
  status_code = none;
}

module _ {J : Type 0} (rt : Runtime J) (s : Semver) (data_source_enabled : Bool) where
  unfoldable pub translate_sql : Request J → Handled J
  unfolding resolve_action
  translate_sql request =
      let target = target_of data_source_enabled request.query_data_source in
      let call : Call = record {
        target = target;
        action = resolve_action s "sql.translateSQL" (rt.engine target);
        params = body (rt.stringify (rt.query_request request.body));
      } in
      record { calls = call ∷ []; reply = translate_reply (rt.perform call) }

  unfoldable pub translate_ppl : Request J → Handled J
  unfolding resolve_action
  translate_ppl request =
      let target = target_of data_source_enabled request.query_data_source in
      let call : Call = record {
        target = target;
        action = resolve_action s "sql.translatePPL" (rt.engine target);
        params = body (rt.stringify (rt.query_request request.body));
      } in
      record { calls = call ∷ []; reply = translate_reply (rt.perform call) }

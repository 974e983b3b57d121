-- ===== src/Async/Tests.antt =====
-- Concrete runs.
use dashboards_query_workben.Common.{
  String, true, false, none, some, [], ◌∷◌, ◌≡◌, ◌⊎◌, refl, length, ◌≤◌,
}
use dashboards_query_workben.Capabilities.{default_capabilities}
use dashboards_query_workben.Async.{
  Execution, Run, PostReply, PollReply, execute_async_query, get_job_id, on_query_id, cancel_query,
  poll_query_status, post_body, status_of,
}
use dashboards_query_workben.Async.Steps.{
  Steps, stay, next, id_arrives, user_cancels, one_wait_at_a_time,
}
use dashboards_query_workben.Async.Cancelled.{polls, cancelled_runs_never_poll}
use dashboards_query_workben.Async.Runs.{Over, drive, every_reply_is_passed_on}
use dashboards_query_workben.Async.Session.{arrive, last_session_is_sent}

abbrev same_case : String → String
same_case s = s

abbrev execution : Execution
execution = record {
  current_data_source = "glue";
  query = record { lang = "sql"; query = "SHOW TABLES"; datasource = "glue" };
  caps = default_capabilities;
  data_source_mds_id = some "mds";
  has_on_error = true;
}

abbrev accepted : PostReply
accepted = record { ok = true; query_id = some "job"; session_id = some "session"; body = "" }

abbrev started : Run
started = execute_async_query execution []

abbrev polling : Run
polling = on_query_id execution accepted (record started { waits = [] })

polling-Steps : Steps same_case execution started polling
unfolding execute_async_query get_job_id
polling-Steps = next stay (id_arrives accepted [] [] refl)

one_wait_at_a_time_example :
    (length polling.waits ≤ 1) × ((polling.is_query_fulfilled ≡ false) ⊎ (polling.waits ≡ []))
one_wait_at_a_time_example = one_wait_at_a_time same_case execution [] polling polling-Steps

abbrev stopped : Run
stopped = cancel_query polling

cancelled_runs_never_poll_example :
    (polls (cancel_query stopped).effects ≡ polls stopped.effects)
    × ((cancel_query stopped).is_query_cancelled ≡ true)
unfolding cancel_query on_query_id poll_query_status execute_async_query get_job_id
cancelled_runs_never_poll_example =
    cancelled_runs_never_poll same_case execution stopped (cancel_query stopped)
      (next stay user_cancels) refl

abbrev running_reply : PollReply
running_reply = record { status = "running"; error = none; rest = "" }

abbrev success_reply : PollReply
success_reply = record { status = "success"; error = none; rest = "rows" }

every_reply_is_passed_on_example :
    Over 3
      (running_reply ∷ running_reply ∷ success_reply ∷ [])
      (drive same_case execution (running_reply ∷ running_reply ∷ success_reply ∷ []) polling)
unfolding status_of
every_reply_is_passed_on_example =
    every_reply_is_passed_on same_case execution [] accepted "job"
      (running_reply ∷ running_reply ∷ []) success_reply refl refl (refl, (refl, tt)) refl

abbrev elsewhere : Execution
elsewhere = record execution { current_data_source = "other" }

last_session_is_sent_example :
    (post_body execution (
      arrive
        ((execution, accepted)
          ∷ (elsewhere, record accepted { session_id = some "another" })
          ∷ (execution, record accepted { ok = false; session_id = some "refused" })
          ∷ [])
        [])).session_id
    ≡ some "session"
last_session_is_sent_example =
    last_session_is_sent
      ((execution, accepted)
        ∷ (elsewhere, record accepted { session_id = some "another" })
        ∷ (execution, record accepted { ok = false; session_id = some "refused" })
        ∷ [])
      execution

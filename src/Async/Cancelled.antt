-- ===== src/Async/Cancelled.antt =====
-- common/utils/async_query_helpers.ts: after a cancellation that reached the server.
use dashboards_query_workben.Common.{
  ℕ, suc, String, true, Option, none, some, List, [], ◌∷◌, ◌≡◌, refl, Bool-cases, Option-cases, inl,
  inr, ◌∙◌, sym,
}
use dashboards_query_workben.Capabilities.{truthy}
use dashboards_query_workben.Async.{
  Execution, Run, PostReply, PollReply, Effect, get, on_query_id, on_post_error, on_status,
  on_poll_reply, on_poll_error, poll_query_status, cancel_query, on_cancel_error, AsyncQueryStatus,
  pending, success, failed, running, scheduled, cancelled, waiting, report_error,
}
use dashboards_query_workben.Async.Steps.{
  Step, id_arrives, id_fails, status_arrives, status_fails, timer_fires, user_cancels,
  deletion_answered, cancel_fails, Steps, stay, next,
}

-- How many polls have been sent.
abbrev pub polls : List Effect → ℕ
polls [] = 0
polls (get url ∷ es) = suc (polls es)
polls (_ ∷ es) = polls es

abbrev KeepsQuiet : Run → Run → Type 0
KeepsQuiet s t = (polls t.effects ≡ polls s.effects) × (t.is_query_cancelled ≡ s.is_query_cancelled)

report_error-KeepsQuiet :
    (x : Execution) (message : String) (s : Run) → KeepsQuiet s (report_error x message s)
report_error-KeepsQuiet x message s = elim (Bool-cases x.has_on_error) [
  | inl given ↦ (rw given refl, rw given refl)
  | inr not_given ↦ (rw not_given refl, rw not_given refl)
]

poll-KeepsQuiet :
    (x : Execution) (id : String) (s : Run)
    → s.is_query_cancelled ≡ true
    → KeepsQuiet s (poll_query_status x id s)
unfolding poll_query_status
poll-KeepsQuiet x id s c = (rw (c, poll_query_status) refl, rw (c, poll_query_status) refl)

on_status-KeepsQuiet :
    (x : Execution) (id : String) (status : Option AsyncQueryStatus) (reply : PollReply) (s : Run)
    → KeepsQuiet s (on_status x id status reply s)
unfolding on_status
on_status-KeepsQuiet x id (some pending) reply s = (refl, refl)
on_status-KeepsQuiet x id (some running) reply s = (refl, refl)
on_status-KeepsQuiet x id (some scheduled) reply s = (refl, refl)
on_status-KeepsQuiet x id (some waiting) reply s = (refl, refl)
on_status-KeepsQuiet x id (some success) reply s = (refl, refl)
on_status-KeepsQuiet x id (some failed) reply s = report_error-KeepsQuiet x _ _
on_status-KeepsQuiet x id (some cancelled) reply s = report_error-KeepsQuiet x _ _
on_status-KeepsQuiet x id none reply s = report_error-KeepsQuiet x _ _

on_query_id-KeepsQuiet :
    (x : Execution) (reply : PostReply) (s : Run)
    → s.is_query_cancelled ≡ true
    → KeepsQuiet s (on_query_id x reply s)
unfolding on_query_id
on_query_id-KeepsQuiet x reply s c = elim (Option-cases reply.query_id) [
  | inl no_id ↦ rw no_id (report_error-KeepsQuiet x _ _)
  | inr (id, h) ↦ elim (Bool-cases reply.ok) [
    | inl ok ↦ rw (h, ok) (poll-KeepsQuiet x id _ c)
    | inr not_ok ↦ rw (h, not_ok) (report_error-KeepsQuiet x _ _)
  ]
]

cancel_query-KeepsQuiet : (s : Run) → s.is_query_cancelled ≡ true → KeepsQuiet s (cancel_query s)
unfolding cancel_query
cancel_query-KeepsQuiet s c = elim (Option-cases (truthy s.job_id)) [
  | inl no_job ↦ (rw (no_job, cancel_query) refl, rw (no_job, cancel_query) refl)
  | inr (id, job) ↦ elim (Bool-cases s.is_query_fulfilled) [
    | inl over ↦ (rw (job, over, cancel_query) refl, rw (job, over, cancel_query) refl)
    | inr going ↦ (rw (job, going, cancel_query) refl, rw (job, going, cancel_query) (sym c))
  ]
]

module _ (to_lower_case : String → String) (x : Execution) where
  Step-KeepsQuiet :
      {s t : Run} → Step to_lower_case x s t → s.is_query_cancelled ≡ true → KeepsQuiet s t
  unfolding on_post_error on_poll_reply on_poll_error on_cancel_error
  Step-KeepsQuiet {s} (id_arrives reply before after e) c = on_query_id-KeepsQuiet x reply _ c
  Step-KeepsQuiet {s} (id_fails err before after e) c = report_error-KeepsQuiet x _ _
  Step-KeepsQuiet {s} (status_arrives id reply before after e) c =
      on_status-KeepsQuiet x id _ reply _
  Step-KeepsQuiet {s} (status_fails id before after e) c = (refl, refl)
  Step-KeepsQuiet {s} (timer_fires id before after e) c = poll-KeepsQuiet x id _ c
  Step-KeepsQuiet {s} user_cancels c = cancel_query-KeepsQuiet s c
  Step-KeepsQuiet {s} (deletion_answered id before after e) c = (refl, refl)
  Step-KeepsQuiet {s} (cancel_fails id before after e) c = (refl, refl)

-- Once a run is marked as cancelled it stays so, and no step after that polls the server again, not even when a
-- timer fires or a late reply says that the query is running.
pub cancelled_runs_never_poll :
    (to_lower_case : String → String) (x : Execution) (s t : Run)
    → Steps to_lower_case x s t
    → s.is_query_cancelled ≡ true
    → (polls t.effects ≡ polls s.effects) × (t.is_query_cancelled ≡ true)
cancelled_runs_never_poll to_lower_case x s _ stay c = (refl, c)
cancelled_runs_never_poll to_lower_case x s t (next r k) c =
    let (same, still) = cancelled_runs_never_poll to_lower_case x s _ r c in
    let (same_step, still_step) = Step-KeepsQuiet to_lower_case x k still in
    (same_step ∙ same, still_step ∙ still)

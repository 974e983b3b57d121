-- ===== src/Async/Steps.antt =====
-- common/utils/async_query_helpers.ts: replies, failures, timers and cancellations in any order.
use dashboards_query_workben.Common.{
  ◌≤◌, String, false, Option, none, some, List, [], ◌∷◌, ◌++◌, ◌≡◌, refl, arith, Bool-cases,
  Option-cases, inl, inr, length, subst, ◌∙◌, ◌⊎◌,
}
use dashboards_query_workben.Capabilities.{truthy}
use dashboards_query_workben.Async.{
  Execution, Run, Waiting, for_id, for_status, for_timer, PostReply, PollReply, on_query_id,
  on_post_error, on_status, on_poll_reply, on_poll_error, poll_query_status, cancel_query,
  on_cancel_error, AsyncQueryStatus, pending, success, failed, running, scheduled, cancelled,
  waiting, execute_async_query, get_job_id, report_error,
}

module _ (to_lower_case : String → String) (x : Execution) where
  -- Something that is waited for happens, or the user cancels, or a request to delete the job is answered or fails.
  pub data Step (s : Run) : Run → Type 0 where
    id_arrives :
        (reply : PostReply) (before after : List Waiting)
        → s.waits ≡ before ++ (for_id ∷ after)
        → Step s (on_query_id x reply (record s { waits = before ++ after }))
    id_fails :
        (err : String) (before after : List Waiting)
        → s.waits ≡ before ++ (for_id ∷ after)
        → Step s (on_post_error x err (record s { waits = before ++ after }))
    status_arrives :
        (id : String) (reply : PollReply) (before after : List Waiting)
        → s.waits ≡ before ++ (for_status id ∷ after)
        → Step s (on_poll_reply x to_lower_case id reply (record s { waits = before ++ after }))
    status_fails :
        (id : String) (before after : List Waiting)
        → s.waits ≡ before ++ (for_status id ∷ after)
        → Step s (on_poll_error (record s { waits = before ++ after }))
    timer_fires :
        (id : String) (before after : List Waiting)
        → s.waits ≡ before ++ (for_timer id ∷ after)
        → Step s (poll_query_status x id (record s { waits = before ++ after }))
    user_cancels : Step s (cancel_query s)
    deletion_answered :
        (id : String) (before after : List String)
        → s.deletions ≡ before ++ (id ∷ after)
        → Step s (record s { deletions = before ++ after })
    cancel_fails :
        (id : String) (before after : List String)
        → s.deletions ≡ before ++ (id ∷ after)
        → Step s (on_cancel_error (record s { deletions = before ++ after }))

  pub data Steps (s : Run) : Run → Type 0 where
    stay : Steps s s
    next : {t u : Run} → Steps s t → Step t u → Steps s u

-- At most one thing is waited for; its job is the one the run knows, and the run is not over.
pub IsOrderly : List Waiting → Run → Type 0
IsOrderly [] s = Unit
IsOrderly (for_id ∷ []) s =
    (s.job_id ≡ none) × ((s.is_query_fulfilled ≡ false) × (s.is_query_cancelled ≡ false))
IsOrderly (for_status id ∷ []) s = (s.job_id ≡ some id) × (s.is_query_fulfilled ≡ false)
IsOrderly (for_timer id ∷ []) s = (s.job_id ≡ some id) × (s.is_query_fulfilled ≡ false)
IsOrderly (v ∷ w ∷ ws) s = ⊥

-- What is waited for is the only thing, and nothing is left.
only_wait :
    (w : Waiting) (s : Run) (before after : List Waiting)
    → IsOrderly (before ++ (w ∷ after)) s
    → (before ++ after ≡ []) × IsOrderly (w ∷ []) s
unfolding IsOrderly
only_wait w s [] [] h = (refl, h)
only_wait for_id s [] (b ∷ after) h = absurd h
only_wait (for_status id) s [] (b ∷ after) h = absurd h
only_wait (for_timer id) s [] (b ∷ after) h = absurd h
only_wait w s (for_id ∷ []) after h = absurd h
only_wait w s (for_status id ∷ []) after h = absurd h
only_wait w s (for_timer id ∷ []) after h = absurd h
only_wait w s (for_id ∷ (a ∷ before)) after h = absurd h
only_wait w s (for_status id ∷ (a ∷ before)) after h = absurd h
only_wait w s (for_timer id ∷ (a ∷ before)) after h = absurd h

-- A run that waits for nothing.
quiet : (s : Run) → s.waits ≡ [] → IsOrderly s.waits s
unfolding IsOrderly
quiet s e = rw e tt

report_error-waits :
    (x : Execution) (message : String) (s : Run) → (report_error x message s).waits ≡ s.waits
report_error-waits x message s = elim (Bool-cases x.has_on_error) [
  | inl given ↦ rw given refl
  | inr not_given ↦ rw not_given refl
]

poll-IsOrderly :
    (x : Execution) (id : String) (s : Run)
    → s.waits ≡ []
    → s.job_id ≡ some id
    → s.is_query_fulfilled ≡ false
    → IsOrderly (poll_query_status x id s).waits (poll_query_status x id s)
unfolding poll_query_status IsOrderly
poll-IsOrderly x id s e j f = elim (Bool-cases s.is_query_cancelled) [
  | inl stop ↦ quiet (poll_query_status x id s) (rw stop e)
  | inr go ↦ rw (go, e) (j, f)
]

on_status-IsOrderly :
    (x : Execution) (id : String) (status : Option AsyncQueryStatus) (reply : PollReply) (s : Run)
    → s.waits ≡ []
    → s.job_id ≡ some id
    → s.is_query_fulfilled ≡ false
    → IsOrderly (on_status x id status reply s).waits (on_status x id status reply s)
unfolding on_status IsOrderly
on_status-IsOrderly x id (some pending) reply s e j f = rw e (j, f)
on_status-IsOrderly x id (some running) reply s e j f = rw e (j, f)
on_status-IsOrderly x id (some scheduled) reply s e j f = rw e (j, f)
on_status-IsOrderly x id (some waiting) reply s e j f = rw e (j, f)
on_status-IsOrderly x id (some success) reply s e j f = rw e tt
on_status-IsOrderly x id (some failed) reply s e j f =
    quiet (on_status x id (some failed) reply s) (report_error-waits x _ _ ∙ e)
on_status-IsOrderly x id (some cancelled) reply s e j f =
    quiet (on_status x id (some cancelled) reply s) (report_error-waits x _ _ ∙ e)
on_status-IsOrderly x id none reply s e j f =
    quiet (on_status x id none reply s) (report_error-waits x _ _ ∙ e)

on_query_id-IsOrderly :
    (x : Execution) (reply : PostReply) (s : Run)
    → s.waits ≡ []
    → s.is_query_fulfilled ≡ false
    → IsOrderly (on_query_id x reply s).waits (on_query_id x reply s)
unfolding on_query_id
on_query_id-IsOrderly x reply s e f = elim (Option-cases reply.query_id) [
  | inl h ↦ quiet (on_query_id x reply s) (rw h (report_error-waits x _ _ ∙ e))
  | inr (id, h) ↦ elim (Bool-cases reply.ok) [
    | inl ok ↦ rw (h, ok) (poll-IsOrderly x id _ e refl f)
    | inr not_ok ↦ quiet (on_query_id x reply s) (rw (h, not_ok) (report_error-waits x _ _ ∙ e))
  ]
]

-- Two runs that differ only in their storage and effects, and in a cancellation once there is a job.
alike-IsOrderly :
    (waits : List Waiting) (s t : Run)
    → t.waits ≡ waits
    → t.job_id ≡ s.job_id
    → t.is_query_fulfilled ≡ s.is_query_fulfilled
    → (s.job_id ≡ none → t.is_query_cancelled ≡ s.is_query_cancelled)
    → IsOrderly waits s
    → IsOrderly t.waits t
unfolding IsOrderly
alike-IsOrderly [] s t e j f c h = rw e tt
alike-IsOrderly (for_id ∷ []) s t e j f c h = rw e (j ∙ h.0, (f ∙ h.1.0, c h.0 ∙ h.1.1))
alike-IsOrderly (for_status id ∷ []) s t e j f c h = rw e (j ∙ h.0, f ∙ h.1)
alike-IsOrderly (for_timer id ∷ []) s t e j f c h = rw e (j ∙ h.0, f ∙ h.1)
alike-IsOrderly (v ∷ w ∷ ws) s t e j f c h = absurd h

no_job_no_id : (o : Option String) (id : String) → o ≡ none → truthy o ≡ some id → ⊥
no_job_no_id none id e t = cc
no_job_no_id (some s) id e t = cc

cancel_query-IsOrderly :
    (s : Run) → IsOrderly s.waits s → IsOrderly (cancel_query s).waits (cancel_query s)
unfolding cancel_query
cancel_query-IsOrderly s h = elim (Option-cases (truthy s.job_id)) [
  | inl no_job ↦
      alike-IsOrderly s.waits s (cancel_query s) (rw (no_job, cancel_query) refl)
        (rw (no_job, cancel_query) refl) (rw (no_job, cancel_query) refl)
        (λ j. rw (no_job, cancel_query) refl) h
  | inr (id, job) ↦ elim (Bool-cases s.is_query_fulfilled) [
    | inl over ↦
        alike-IsOrderly s.waits s (cancel_query s) (rw (job, over, cancel_query) refl)
          (rw (job, over, cancel_query) refl) (rw (job, over, cancel_query) refl)
          (λ j. rw (job, over, cancel_query) refl) h
    | inr going ↦
        alike-IsOrderly s.waits s (cancel_query s) (rw (job, going, cancel_query) refl)
          (rw (job, going, cancel_query) refl) (rw (job, going, cancel_query) refl)
          (λ j. absurd (no_job_no_id s.job_id id j job)) h
  ]
]

module _ (to_lower_case : String → String) (x : Execution) where
  Step-IsOrderly :
      {s t : Run} → Step to_lower_case x s t → IsOrderly s.waits s → IsOrderly t.waits t
  unfolding on_post_error on_poll_reply on_poll_error cancel_query on_cancel_error IsOrderly
  Step-IsOrderly {s} (id_arrives reply before after e) h =
      let (left, o) = only_wait for_id s before after (subst (λ w. IsOrderly w s) e h) in
      on_query_id-IsOrderly x reply _ left o.1.0
  Step-IsOrderly {s} (id_fails err before after e) h =
      let (left, o) = only_wait for_id s before after (subst (λ w. IsOrderly w s) e h) in
      quiet _ (report_error-waits x _ _ ∙ left)
  Step-IsOrderly {s} (status_arrives id reply before after e) h =
      let (left, o) = only_wait (for_status id) s before after (subst (λ w. IsOrderly w s) e h) in
      on_status-IsOrderly x id _ reply _ left o.0 o.1
  Step-IsOrderly {s} (status_fails id before after e) h =
      let (left, o) = only_wait (for_status id) s before after (subst (λ w. IsOrderly w s) e h) in
      quiet _ left
  Step-IsOrderly {s} (timer_fires id before after e) h =
      let (left, o) = only_wait (for_timer id) s before after (subst (λ w. IsOrderly w s) e h) in
      poll-IsOrderly x id _ left o.0 o.1
  Step-IsOrderly {s} user_cancels h = cancel_query-IsOrderly s h
  Step-IsOrderly {s} (deletion_answered id before after e) h =
      alike-IsOrderly s.waits s (record s { deletions = before ++ after }) refl refl refl
        (λ j. refl) h
  Step-IsOrderly {s} (cancel_fails id before after e) h =
      alike-IsOrderly s.waits s (on_cancel_error (record s { deletions = before ++ after })) refl
        refl refl (λ j. refl) h

  Steps-IsOrderly :
      {s t : Run} → Steps to_lower_case x s t → IsOrderly s.waits s → IsOrderly t.waits t
  Steps-IsOrderly stay h = h
  Steps-IsOrderly (next r k) h = Step-IsOrderly k (Steps-IsOrderly r h)

length-IsOrderly : (waits : List Waiting) (s : Run) → IsOrderly waits s → length waits ≤ 1
unfolding IsOrderly
length-IsOrderly [] s h = omega arith
length-IsOrderly (w ∷ []) s h = omega arith
length-IsOrderly (v ∷ w ∷ ws) s h = absurd h

over-waits :
    (waits : List Waiting) (s : Run)
    → IsOrderly waits s
    → (s.is_query_fulfilled ≡ false) ⊎ (waits ≡ [])
unfolding IsOrderly
over-waits [] s h = inr refl
over-waits (for_id ∷ []) s h = inl h.1.0
over-waits (for_status id ∷ []) s h = inl h.1
over-waits (for_timer id ∷ []) s h = inl h.1
over-waits (v ∷ w ∷ ws) s h = absurd h

-- From the start of a query, whatever replies, failures, timers and cancellations come in whatever order, at
-- most one of the request that starts it, a request for its status and a timer is waited for; and once the query is
-- marked as fulfilled none of them is. The requests to delete its job are not counted.
pub one_wait_at_a_time :
    (to_lower_case : String → String) (x : Execution) (storage : List (String × String)) (s : Run)
    → Steps to_lower_case x (execute_async_query x storage) s
    → (length s.waits ≤ 1) × ((s.is_query_fulfilled ≡ false) ⊎ (s.waits ≡ []))
unfolding execute_async_query get_job_id IsOrderly
one_wait_at_a_time to_lower_case x storage s r =
    let h = Steps-IsOrderly to_lower_case x r (refl, (refl, refl)) in
    (length-IsOrderly s.waits s h, over-waits s.waits s h)

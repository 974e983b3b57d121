-- ===== src/Async/Runs.antt =====
-- common/utils/async_query_helpers.ts: a run that nobody cancels, from the request to the last reply.
use dashboards_query_workben.Common.{
  ℕ, suc, ◌+◌, String, Bool, true, false, Option, none, some, List, [], ◌∷◌, ◌++◌, ◌≡◌, refl, arith,
  Bool-cases, inl, inr, ◌∙◌, sym, subst, ap, length, All, append_assoc,
}
use dashboards_query_workben.Async.{
  Execution, Run, Waiting, for_status, for_timer, PostReply, PollReply, Effect, calls_back,
  on_query_id, on_status, on_poll_reply, poll_query_status, AsyncQueryStatus, pending, success,
  failed, running, scheduled, cancelled, waiting, status_of, execute_async_query, get_job_id,
  status_of,
}
use dashboards_query_workben.Async.Cancelled.{polls}

abbrev pub is_live : Option AsyncQueryStatus → Bool
is_live (some pending) = true
is_live (some running) = true
is_live (some scheduled) = true
is_live (some waiting) = true
is_live _ = false

abbrev pub is_final : Option AsyncQueryStatus → Bool
is_final (some success) = true
is_final (some failed) = true
is_final (some cancelled) = true
is_final _ = false

-- What the caller's callback has been given, the first first.
abbrev pub answers : List Effect → List PollReply
answers [] = []
answers (calls_back r ∷ es) = answers es ++ (r ∷ [])
answers (_ ∷ es) = answers es

module _ (to_lower_case : String → String) (x : Execution) where
  -- the timer fires, if one is set
  abbrev pub fire : List Waiting → Run → Run
  fire (for_timer id ∷ waits) s = poll_query_status x id (record s { waits = waits })
  fire _ s = s

  -- the server answers the poll that is out, and the timer fires
  abbrev pub answer : PollReply → List Waiting → Run → Run
  answer r (for_status id ∷ waits) s =
      let t = on_poll_reply x to_lower_case id r (record s { waits = waits }) in fire t.waits t
  answer r _ s = s

  pub drive : List PollReply → Run → Run
  drive [] s = s
  drive (r ∷ rs) s = drive rs (answer r s.waits s)

-- The state of a run that polls for a job.
record IsPolling (id : String) (s : Run) : Type 0 where
  polls_once : s.waits ≡ for_status id ∷ []
  goes_on : s.is_query_cancelled ≡ false

poll_sent :
    (x : Execution) (id : String) (s : Run)
    → s.waits ≡ []
    → s.is_query_cancelled ≡ false
    → IsPolling id (poll_query_status x id s)
      × ((answers (poll_query_status x id s).effects ≡ answers s.effects)
          × (polls (poll_query_status x id s).effects ≡ suc (polls s.effects)))
unfolding poll_query_status
poll_sent x id s e c =
    rw (c, poll_query_status) (record { polls_once = rw e refl; goes_on = refl }, (refl, refl))

on_status-live :
    (x : Execution) (id : String) (status : Option AsyncQueryStatus) (r : PollReply) (s : Run)
    → is_live status ≡ true
    → on_status x id status r s
      ≡ record s { waits = for_timer id ∷ s.waits; effects = calls_back r ∷ s.effects }
unfolding on_status
on_status-live x id (some pending) r s h = refl
on_status-live x id (some running) r s h = refl
on_status-live x id (some scheduled) r s h = refl
on_status-live x id (some waiting) r s h = refl
on_status-live x id (some success) r s h = cc
on_status-live x id (some failed) r s h = cc
on_status-live x id (some cancelled) r s h = cc
on_status-live x id none r s h = cc

on_status-final :
    (x : Execution) (id : String) (status : Option AsyncQueryStatus) (r : PollReply) (s : Run)
    → is_final status ≡ true
    → ((on_status x id status r s).is_query_fulfilled ≡ true)
      × (((on_status x id status r s).waits ≡ s.waits)
          × ((answers (on_status x id status r s).effects ≡ answers s.effects ++ (r ∷ []))
              × (polls (on_status x id status r s).effects ≡ polls s.effects)))
unfolding on_status
on_status-final x id (some success) r s h = (refl, (refl, (refl, refl)))
on_status-final x id (some failed) r s h = elim (Bool-cases x.has_on_error) [
  | inl given ↦ rw given (refl, (refl, (refl, refl)))
  | inr not_given ↦ rw not_given (refl, (refl, (refl, refl)))
]
on_status-final x id (some cancelled) r s h = elim (Bool-cases x.has_on_error) [
  | inl given ↦ rw given (refl, (refl, (refl, refl)))
  | inr not_given ↦ rw not_given (refl, (refl, (refl, refl)))
]
on_status-final x id (some pending) r s h = cc
on_status-final x id (some running) r s h = cc
on_status-final x id (some scheduled) r s h = cc
on_status-final x id (some waiting) r s h = cc
on_status-final x id none r s h = cc

-- One more reply has been passed on, and one more poll sent.
abbrev Answered : String → Run → PollReply → Run → Type 0
Answered id s r t =
    IsPolling id t
    × ((answers t.effects ≡ answers s.effects ++ (r ∷ []))
        × (polls t.effects ≡ suc (polls s.effects)))

-- The run is over, and the last replies are these.
abbrev pub Over : ℕ → List PollReply → Run → Type 0
Over n rs t =
    (t.is_query_fulfilled ≡ true)
    × ((t.waits ≡ []) × ((answers t.effects ≡ rs) × (polls t.effects ≡ n)))

module _ (to_lower_case : String → String) (x : Execution) where
  abbrev pub status_in : PollReply → Option AsyncQueryStatus
  status_in r = status_of (to_lower_case r.status)

  answer-live :
      (id : String) (r : PollReply) (s : Run)
      → IsPolling id s
      → is_live (status_in r) ≡ true
      → Answered id s r (answer to_lower_case x r s.waits s)
  unfolding on_poll_reply
  answer-live id r s p h =
      subst (λ w. Answered id s r (answer to_lower_case x r w s)) (sym p.polls_once)
        (subst (λ t. Answered id s r (fire to_lower_case x t.waits t))
          (sym (on_status-live x id (status_in r) r (record s { waits = [] }) h))
          (poll_sent x id (record s { waits = []; effects = calls_back r ∷ s.effects }) refl
            p.goes_on))

  answer-final :
      (id : String) (r : PollReply) (s : Run)
      → IsPolling id s
      → is_final (status_in r) ≡ true
      → Over (polls s.effects) (answers s.effects ++ (r ∷ [])) (answer to_lower_case x r s.waits s)
  unfolding on_poll_reply
  answer-final id r s p h =
      let (done, (idle, (told, same))) =
        on_status-final x id (status_in r) r (record s { waits = [] }) h in
      subst
        (λ w. Over (polls s.effects) (answers s.effects ++ (r ∷ [])) (answer to_lower_case x r w s))
        (sym p.polls_once)
        (subst
          (λ v.
            Over (polls s.effects) (answers s.effects ++ (r ∷ []))
              (fire to_lower_case x v (on_status x id (status_in r) r (record s { waits = [] }))))
          (sym idle) (done, (idle, (told, same))))

  drive-Over :
      (id : String) (rs : List PollReply) (last : PollReply) (s : Run)
      → IsPolling id s
      → All (λ r. is_live (status_in r) ≡ true) rs
      → is_final (status_in last) ≡ true
      → Over
          (polls s.effects + length rs)
          (answers s.effects ++ (rs ++ (last ∷ [])))
          (drive to_lower_case x (rs ++ (last ∷ [])) s)
  unfolding drive
  drive-Over id [] last s p h k =
      let (done, (idle, (told, same))) = answer-final id last s p k in
      (done, (idle, (told, omega (arith, same))))
  drive-Over id (r ∷ rs) last s p (h, hs) k =
      let (p', (told, more)) = answer-live id r s p h in
      let (done, (idle, (told_all, all_polls))) = drive-Over id rs last _ p' hs k in
      (
        done,
        (
          idle,
          (
            told_all
                ∙ ap (λ l. l ++ (rs ++ (last ∷ []))) told
                ∙ append_assoc (answers s.effects) (r ∷ []) (rs ++ (last ∷ [])),
            omega (arith, more, all_polls),
          ),
        ),
      )

  accepted_id :
      (storage : List (String × String)) (reply : PostReply) (id : String)
      → reply.ok ≡ true
      → reply.query_id ≡ some id
      → let t = on_query_id x reply (record (execute_async_query x storage) { waits = [] }) in
        IsPolling id t × ((answers t.effects ≡ []) × (polls t.effects ≡ 1))
  unfolding on_query_id execute_async_query get_job_id
  accepted_id storage reply id ok q = rw (q, ok) (poll_sent x id _ refl refl)

  -- When the server accepts the query under an id, answers any number of polls with a status that is not final and
  -- then one with a final status, and nobody cancels: the run ends, nothing is waited for any more, the callback
  -- has been given every reply once and in order, and the polls sent are as many as the replies.
  pub every_reply_is_passed_on :
      (storage : List (String × String)) (reply : PostReply) (id : String) (rs : List PollReply)
      (last : PollReply)
      → reply.ok ≡ true
      → reply.query_id ≡ some id
      → All (λ r. is_live (status_in r) ≡ true) rs
      → is_final (status_in last) ≡ true
      → Over (suc (length rs)) (rs ++ (last ∷ [])) (
          drive to_lower_case x
            (rs ++ (last ∷ []))
            (on_query_id x reply (record (execute_async_query x storage) { waits = [] })))
  every_reply_is_passed_on storage reply id rs last ok q h k =
      let (p, (told, once)) = accepted_id storage reply id ok q in
      let (done, (idle, (told_all, all_polls))) = drive-Over id rs last _ p h k in
      (
        done,
        (
          idle,
          (told_all ∙ ap (λ l. l ++ (rs ++ (last ∷ []))) told, omega (arith, once, all_polls)),
        ),
      )

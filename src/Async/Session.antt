-- ===== src/Async/Session.antt =====
-- common/utils/async_query_helpers.ts: the session that a data source's queries share.
use text.Mathlib.TextLemmas.{append_cancel_left}
use dashboards_query_workben.Common.{
  String, Bool, true, false, Option, none, some, List, [], ◌∷◌, Option-cases, ap, ◌∙◌, ◌≡◌, refl,
  if◌then◌else◌, Bool-cases, inl, inr, ◌⧺◌, ◌==◌, eq_iff, eq_refl,
}
use dashboards_query_workben.Common.Dict.{lookup, lookup-insert}
use dashboards_query_workben.Capabilities.{truthy}
use dashboards_query_workben.Async.{
  Execution, Run, PostReply, on_query_id, poll_query_status, post_body, set_async_session_id,
  get_async_session_id, session_key, execute_async_query, get_job_id, report_error,
}

session_key-same : (a b : String) → (session_key a == session_key b) ≡ (a == b)
session_key-same a b = elim (Bool-cases (a == b)) [
  | inl same ↦ rw (same, (eq_iff a b).0 same) (eq_refl (session_key b))
  | inr other ↦ elim (Bool-cases (session_key a == session_key b)) [
    | inl keys ↦
        let rest =
          append_cancel_left "async-query-session-id" ("_" ⧺ a) ("_" ⧺ b)
            ((eq_iff (session_key a) (session_key b)).0 keys) in
        rw (keys, (eq_iff a b).1 (append_cancel_left "_" a b rest)) refl
    | inr apart ↦ rw (other, apart) refl
  ]
]

poll-storage :
    (x : Execution) (id : String) (s : Run) → (poll_query_status x id s).storage ≡ s.storage
unfolding poll_query_status
poll-storage x id s = elim (Bool-cases s.is_query_cancelled) [
  | inl stop ↦ rw (stop, poll_query_status) refl
  | inr go ↦ rw (go, poll_query_status) refl
]

-- The session that a reply names, if the reply accepts a query.
abbrev pub named_session : PostReply → Option String
named_session reply = elim reply.query_id [
  | none ↦ none
  | some id ↦ if reply.ok then reply.session_id else none
]

abbrev pub or_known : Option String → Option String → Option String
or_known none known = known
or_known (some k) known = some k

-- The session that was named last on a data source, in replies to executions.
abbrev pub last_session : String → List (Execution × PostReply) → Option String → Option String
last_session source [] known = known
last_session source ((x, reply) ∷ rest) known =
    last_session source rest
      (if x.current_data_source == source then or_known (named_session reply) known else known)

-- What of it a caller sends: nothing if it does not support sessions, or for an empty id.
abbrev pub sent : (supported : Bool) → Option String → Option String
sent false known = none
sent true none = none
sent true (some String.[]) = none
sent true (some (String.◌∷◌ c k)) = some (String.◌∷◌ c k)

-- The session storage after the replies, each to an execution that was started with the storage of then.
unfoldable pub arrive :
    List (Execution × PostReply) → List (String × String) → List (String × String)
unfolding on_query_id execute_async_query
arrive [] storage = storage
arrive ((x, reply) ∷ rest) storage =
    arrive rest
      (on_query_id x reply (record (execute_async_query x storage) { waits = [] })).storage

report_error-storage :
    (x : Execution) (message : String) (s : Run) → (report_error x message s).storage ≡ s.storage
report_error-storage x message s = elim (Bool-cases x.has_on_error) [
  | inl given ↦ rw given refl
  | inr not_given ↦ rw not_given refl
]

kept_storage :
    (x : Execution) (reply : PostReply) (storage : List (String × String))
    → (on_query_id x reply (record (execute_async_query x storage) { waits = [] })).storage
      ≡ set_async_session_id x.current_data_source (named_session reply) storage
unfolding on_query_id set_async_session_id execute_async_query get_job_id
kept_storage x reply storage = elim (Option-cases reply.query_id) [
  | inl no_id ↦ rw no_id (report_error-storage x reply.body _)
  | inr (id, h) ↦ elim (Bool-cases reply.ok) [
    | inl ok ↦ rw (h, ok) (poll-storage x id _)
    | inr not_ok ↦ rw (h, not_ok) (report_error-storage x reply.body _)
  ]
]

set_async_session_id-lookup :
    (source own : String) (named : Option String) (storage : List (String × String))
    → get_async_session_id source (set_async_session_id own named storage) ≡ (
        if own == source
        then or_known named (get_async_session_id source storage)
        else get_async_session_id source storage)
unfolding get_async_session_id set_async_session_id
set_async_session_id-lookup source own none storage = elim (Bool-cases (own == source)) [
  | inl same ↦ rw same refl
  | inr other ↦ rw other refl
]
set_async_session_id-lookup source own (some k) storage =
    lookup-insert (session_key own) (session_key source) k storage
    ∙ ap (λ b. if b then some k else lookup (session_key source) storage)
        (session_key-same own source)

arrived_session :
    (source : String) (replies : List (Execution × PostReply)) (storage : List (String × String))
    → get_async_session_id source (arrive replies storage)
      ≡ last_session source replies (get_async_session_id source storage)
unfolding arrive
arrived_session source [] storage = refl
arrived_session source ((x, reply) ∷ rest) storage =
    let now =
      (on_query_id x reply (record (execute_async_query x storage) { waits = [] })).storage in
    arrived_session source rest now
    ∙ ap (last_session source rest) (
        ap (get_async_session_id source) (kept_storage x reply storage)
        ∙ set_async_session_id-lookup source x.current_data_source (named_session reply) storage)

sent_lem :
    (supported : Bool) (known : Option String)
    → (if supported then truthy known else none) ≡ sent supported known
sent_lem false known = refl
sent_lem true none = refl
sent_lem true (some String.[]) = refl
sent_lem true (some (String.◌∷◌ c k)) = refl

-- Whatever replies have come to queries on whatever data sources since the session storage was empty: a query is posted
-- with the session that an accepted query on its own data source named last, and with none if there was none, if the
-- id is empty or if the deployment does not support sessions.
pub last_session_is_sent :
    (replies : List (Execution × PostReply)) (y : Execution)
    → (post_body y (arrive replies [])).session_id
      ≡ sent y.caps.has_session_id (last_session y.current_data_source replies none)
unfolding post_body get_async_session_id lookup
last_session_is_sent replies y =
    ap (λ known. if y.caps.has_session_id then truthy known else none)
      (arrived_session y.current_data_source replies [])
    ∙ sent_lem y.caps.has_session_id (last_session y.current_data_source replies none)

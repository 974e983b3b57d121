-- ===== src/Async.antt =====
-- common/utils/async_query_helpers.ts: one asynchronous query, from the request that starts it, through the
-- polling of its status, to its end or its cancellation. The requests that are out and the timers that are set
-- are part of the state; what answers them is an argument of each handler.
pub mod Steps
pub mod Cancelled
pub mod Runs
pub mod Session
mod Tests
use dashboards_query_workben.Common.{
  String, Bool, true, false, not, ◌&&◌, Option, none, some, List, [], ◌∷◌, ◌⧺◌, if◌then◌else◌, ◌==◌,
  get_or, is_blank,
}
use dashboards_query_workben.Common.Dict.{lookup, insert}
use dashboards_query_workben.Capabilities.{DeploymentCapabilities, truthy}

pub data AsyncQueryStatus : Type 0 where
  pending success failed running scheduled cancelled waiting : AsyncQueryStatus

-- the value of the enumeration that a text is
unfoldable pub status_of : String → Option AsyncQueryStatus
status_of s =
    if s == "pending"
    then some pending
    else if s == "success"
    then some success
    else if s == "failed"
    then some failed
    else if s == "running"
    then some running
    else if s == "scheduled"
    then some scheduled
    else if s == "cancelled"
    then some cancelled
    else if s == "waiting"
    then some waiting
    else none

pub record AsyncQuery : Type 0 where
  pub lang : String
  pub query : String
  pub datasource : String

pub record PostBody : Type 0 where
  pub query : AsyncQuery
  pub session_id : Option String

-- The reply to the request that starts a query.
pub record PostReply : Type 0 where
  pub ok : Bool
  pub query_id : Option String
  pub session_id : Option String
  pub body : String

-- The reply to a poll: what this code reads of it, and the text of the rest.
pub record PollReply : Type 0 where
  pub status : String
  pub error : Option String
  pub rest : String

-- What the code does to the outside, in the order of the calls.
pub data Effect : Type 0 where
  post : PostBody → Effect
  get : String → Effect
  delete : String → Effect
  calls_back : PollReply → Effect
  reports : String → Effect
  toasts : String → Effect

-- A request that is out, or a timer that is set.
pub data Waiting : Type 0 where
  for_id : Waiting
  for_status : String → Waiting
  for_timer : String → Waiting

-- The arguments of `executeAsyncQuery`; `has_on_error` when the caller gives an error callback.
pub record Execution : Type 0 where
  pub current_data_source : String
  pub query : AsyncQuery
  pub caps : DeploymentCapabilities
  pub data_source_mds_id : Option String
  pub has_on_error : Bool

-- The closure's variables, the session storage, what is waited for, the jobs whose deletion is requested and not
-- answered, and the effects so far, the newest first.
pub record Run : Type 0 where
  pub job_id : Option String
  pub is_query_fulfilled : Bool
  pub is_query_cancelled : Bool
  pub storage : List (String × String)
  pub waits : List Waiting
  pub deletions : List String
  pub effects : List Effect

abbrev pub session_key : String → String
session_key data_source = "async-query-session-id" ⧺ "_" ⧺ data_source

unfoldable pub set_async_session_id :
    String → Option String → List (String × String) → List (String × String)
set_async_session_id data_source none storage = storage
set_async_session_id data_source (some value) storage =
    insert (session_key data_source) value storage

unfoldable pub get_async_session_id : String → List (String × String) → Option String
get_async_session_id data_source storage = lookup (session_key data_source) storage

abbrev pub job_endpoint : String
job_endpoint = "/api/spark_sql_console/job/"

-- The text of an optional argument in a concatenation.
abbrev pub shown_id : Option String → String
shown_id id = get_or id "undefined"

abbrev pub failed_to_query : PollReply
failed_to_query = record { status = "failed"; error = some "Failed to query status"; rest = "" }

abbrev pub emit : Effect → Run → Run
emit e s = record s { effects = e ∷ s.effects }

unfoldable pub on_poll_error : Run → Run
on_poll_error s = emit (calls_back failed_to_query) (record s { is_query_fulfilled = true })

unfoldable pub cancel_query : Run → Run
cancel_query s = elim (truthy s.job_id) [
  | none ↦ s
  | some id ↦ if s.is_query_fulfilled then s else record s {
    is_query_cancelled = true;
    deletions = id ∷ s.deletions;
    effects = delete (job_endpoint ⧺ id) ∷ s.effects;
  }
]

unfoldable pub on_cancel_error : Run → Run
on_cancel_error s = emit (toasts "Query cancellation failed") s

module _ (x : Execution) where
  abbrev pub report_error : String → Run → Run
  report_error message s = if x.has_on_error then emit (reports message) s else s

  unfoldable pub post_body : List (String × String) → PostBody
  post_body storage = record {
    query = x.query;
    session_id =
        if x.caps.has_session_id
        then truthy (get_async_session_id x.current_data_source storage)
        else none;
  }

  unfoldable pub get_job_id : Run → Run
  get_job_id s = record s {
    waits = for_id ∷ s.waits;
    effects = post (post_body s.storage) ∷ s.effects;
  }

  unfoldable pub poll_query_status : String → Run → Run
  poll_query_status id s = if s.is_query_cancelled then s else record s {
    waits = for_status id ∷ s.waits;
    effects = get (job_endpoint ⧺ id ⧺ "/" ⧺ shown_id x.data_source_mds_id) ∷ s.effects;
  }

  -- the reply to the request has no query id, or is not ok
  abbrev pub invalid_query_id : PostReply → Run → Run
  invalid_query_id reply s =
      report_error reply.body (emit (toasts "Received an invalid query id") s)

  unfoldable pub on_query_id : PostReply → Run → Run
  on_query_id reply s =
      let t = record s { job_id = reply.query_id } in
      elim reply.query_id [
        | none ↦ invalid_query_id reply t
        | some id ↦
            if reply.ok
            then poll_query_status id (record t {
              storage = set_async_session_id x.current_data_source reply.session_id t.storage;
            })
            else invalid_query_id reply t
      ]

  unfoldable pub on_post_error : String → Run → Run
  on_post_error err s =
      report_error err (record (emit (toasts "Error occurred while getting query id") s) {
        is_query_fulfilled = true;
      })

  -- `switch (status)`
  unfoldable pub on_status : String → Option AsyncQueryStatus → PollReply → Run → Run
  on_status id status reply s =
      let details = get_or reply.error "" in
      let again = record s {
        waits = for_timer id ∷ s.waits;
        effects = calls_back reply ∷ s.effects;
      } in
      let done = record s { is_query_fulfilled = true } in
      elim status [
        | some pending ↦ again
        | some running ↦ again
        | some scheduled ↦ again
        | some waiting ↦ again
        | some failed ↦
            emit (calls_back reply) (report_error details (emit (toasts "Query failed") done))
        | some cancelled ↦ emit (calls_back reply) (report_error details done)
        | some success ↦ emit (calls_back reply) done
        | none ↦
            emit (calls_back reply)
              (report_error details (emit (toasts "Unrecognized status recieved") s))
      ]

  -- `toLowerCase` is the platform's.
  unfoldable pub on_poll_reply : (String → String) → String → PollReply → Run → Run
  on_poll_reply to_lower_case id reply s =
      on_status id (status_of (to_lower_case reply.status)) reply s

  unfoldable pub execute_async_query : List (String × String) → Run
  execute_async_query storage = get_job_id (record {
    job_id = none;
    is_query_fulfilled = false;
    is_query_cancelled = false;
    storage = storage;
    waits = [];
    deletions = [];
    effects = [];
  })

-- ===== src/Server/Responses.antt =====
-- server/routes/: what the browser gets when the cluster answers, and when it fails.
use dashboards_query_workben.Common.{
  ℕ, Bool, true, false, Option, none, some, [], ◌∷◌, ◌≡◌, ◌≢◌, ◌⊎◌, inl, inr, refl, arith, eqb,
  if◌then◌else◌, Bool-cases,
}
use dashboards_query_workben.Capabilities.{Semver}
use dashboards_query_workben.Server.Client.{
  Call, returned, thrown, ClientError, Request, Runtime, Reply, text, raw, status_or_400,
}
use dashboards_query_workben.Server.Query.{
  ok_reply, json, plain, describe_sql_query, describe_ppl_query, describe_sql_csv, describe_ppl_csv,
  describe_sql_json, describe_ppl_json, describe_sql_text, describe_ppl_text,
  describe_sql_async_query, describe_sql_async_get_query, describe_async_delete_query,
  describe_sync_query_data_sources,
}
use dashboards_query_workben.Server.Translate.{translate_sql, translate_ppl}
use dashboards_query_workben.Server.Routes.{
  Route, sql_query, ppl_query, sql_csv, ppl_csv, sql_json, ppl_json, sql_text, ppl_text,
  spark_sql_query, spark_sql_get, spark_sql_delete, get_datasources, translate_sql_route,
  translate_ppl_route, HttpResponse, ok, custom, service, handle,
}

-- The routes that respond 200 whatever happened.
abbrev pub is_lenient : Route → Bool
is_lenient ppl_query = true
is_lenient spark_sql_delete = true
is_lenient translate_sql_route = true
is_lenient translate_ppl_route = true
is_lenient _ = false

-- The routes whose reply is text.
abbrev pub is_json_route : Route → Bool
is_json_route sql_query = true
is_json_route ppl_query = true
is_json_route sql_json = true
is_json_route ppl_json = true
is_json_route _ = false

-- The status that a failure is responded with: the error's, or 400 if it has none or 0.
abbrev pub IsStatus : Option ℕ → Option ℕ → Type 0
IsStatus none shown = shown ≡ some 400
IsStatus (some n) shown = ((n ≡ 0) × (shown ≡ some 400)) ⊎ ((n ≢ 0) × (shown ≡ some n))

status_or_400_lem : (status : Option ℕ) → IsStatus status (some (status_or_400 status))
status_or_400_lem none = refl
status_or_400_lem (some n) = elim (Bool-cases (eqb n 0)) [
  | inl zero_ ↦ inl (ground arith, ground arith)
  | inr other ↦ inr (ground arith, ground arith)
]

-- A failure as the browser sees it: an error status, or a 200 whose reply is not ok.
abbrev pub IsFailure : {J : Type 0} → Bool → ClientError → HttpResponse J → Type 0
IsFailure true err (ok reply) = (reply.ok ≡ false) × (reply.resp ≡ text err.message)
IsFailure true err (custom b n) = ⊥
IsFailure false err (ok reply) = ⊥
IsFailure false err (custom b n) = (b ≡ err.body) × IsStatus err.status_code n

module _ {J : Type 0} (rt : Runtime J) (s : Semver) (enabled : Bool) where
  -- When the one call that a route makes fails, the routes of PPL queries, of deleted jobs and of
  -- translations respond 200 with a reply that is not ok and has the error's message; every other
  -- route responds with the error's body and its status, or 400 if it has none or 0.
  pub handle-IsFailure :
      (route : Route) (request : Request J) (c : Call) (err : ClientError)
      → (service rt s enabled route request).calls ≡ c ∷ []
      → rt.perform c ≡ thrown err
      → IsFailure (is_lenient route) err (handle rt s enabled route request)
  unfolding service handle
  handle-IsFailure sql_query request c err called failed = unfold describe_sql_query in ground arith
  handle-IsFailure ppl_query request c err called failed = unfold describe_ppl_query in ground arith
  handle-IsFailure sql_csv request c err called failed = unfold describe_sql_csv in ground arith
  handle-IsFailure ppl_csv request c err called failed = unfold describe_ppl_csv in ground arith
  handle-IsFailure sql_json request c err called failed = unfold describe_sql_json in ground arith
  handle-IsFailure ppl_json request c err called failed = unfold describe_ppl_json in ground arith
  handle-IsFailure sql_text request c err called failed = unfold describe_sql_text in ground arith
  handle-IsFailure ppl_text request c err called failed = unfold describe_ppl_text in ground arith
  handle-IsFailure spark_sql_query request c err called failed =
      unfold describe_sql_async_query in ground arith
  handle-IsFailure spark_sql_get request c err called failed =
      unfold describe_sql_async_get_query in ground arith
  handle-IsFailure spark_sql_delete request c err called failed =
      unfold describe_async_delete_query in ground arith
  handle-IsFailure get_datasources request c err called failed =
      unfold describe_sync_query_data_sources in ground arith
  handle-IsFailure translate_sql_route request c err called failed =
      unfold translate_sql in ground arith
  handle-IsFailure translate_ppl_route request c err called failed =
      unfold translate_ppl in ground arith

  -- When the one call that a route makes returns, the route responds 200 with a reply that is ok. The
  -- reply holds the answer's text on the routes of queries and JSON results, else the answer itself.
  pub handle-success :
      (route : Route) (request : Request J) (c : Call) (answer : J)
      → (service rt s enabled route request).calls ≡ c ∷ []
      → rt.perform c ≡ returned answer
      → (reply : Reply J) × (handle rt s enabled route request ≡ ok reply)
        × (reply.ok ≡ true)
        × (reply.resp ≡ (if is_json_route route then text (rt.stringify answer) else raw answer))
  unfolding service handle
  handle-success sql_query request c answer called returns =
      unfold describe_sql_query in
      (ok_reply rt json answer, ground arith, ground arith, ground arith)
  handle-success ppl_query request c answer called returns =
      unfold describe_ppl_query in
      (ok_reply rt json answer, ground arith, ground arith, ground arith)
  handle-success sql_csv request c answer called returns =
      unfold describe_sql_csv in
      (ok_reply rt plain answer, ground arith, ground arith, ground arith)
  handle-success ppl_csv request c answer called returns =
      unfold describe_ppl_csv in
      (ok_reply rt plain answer, ground arith, ground arith, ground arith)
  handle-success sql_json request c answer called returns =
      unfold describe_sql_json in
      (ok_reply rt json answer, ground arith, ground arith, ground arith)
  handle-success ppl_json request c answer called returns =
      unfold describe_ppl_json in
      (ok_reply rt json answer, ground arith, ground arith, ground arith)
  handle-success sql_text request c answer called returns =
      unfold describe_sql_text in
      (ok_reply rt plain answer, ground arith, ground arith, ground arith)
  handle-success ppl_text request c answer called returns =
      unfold describe_ppl_text in
      (ok_reply rt plain answer, ground arith, ground arith, ground arith)
  handle-success spark_sql_query request c answer called returns =
      unfold describe_sql_async_query in
      (ok_reply rt plain answer, ground arith, ground arith, ground arith)
  handle-success spark_sql_get request c answer called returns =
      unfold describe_sql_async_get_query in
      (ok_reply rt plain answer, ground arith, ground arith, ground arith)
  handle-success spark_sql_delete request c answer called returns =
      unfold describe_async_delete_query in
      (ok_reply rt plain answer, ground arith, ground arith, ground arith)
  handle-success get_datasources request c answer called returns =
      unfold describe_sync_query_data_sources in
      (ok_reply rt plain answer, ground arith, ground arith, ground arith)
  handle-success translate_sql_route request c answer called returns =
      unfold translate_sql in (ok_reply rt plain answer, ground arith, ground arith, ground arith)
  handle-success translate_ppl_route request c answer called returns =
      unfold translate_ppl in (ok_reply rt plain answer, ground arith, ground arith, ground arith)

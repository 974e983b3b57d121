-- ===== src/Main/Events/Kept.antt =====
-- What every handler of public/components/Main/main.tsx but those of the clusters keeps.
use dashboards_query_workben.Common.{
  String, Bool, true, false, not, ◌&&◌, ◌||◌, Option, none, some, List, [], ◌∷◌, ◌==◌, ◌≡◌, refl,
  Bool-cases, Option-cases, inl, inr, is_empty,
}
use dashboards_query_workben.Capabilities.{DeploymentCapabilities}
use dashboards_query_workben.Results.{QueryResponse, get_query_results_for_table}
use dashboards_query_workben.Queries.{get_queries}
use dashboards_query_workben.Main.{
  DataSourceChoice, MainState, on_clear, handle_data_select, on_change_cluster, store_sql_queries,
  store_ppl_queries, check_history_state, seed_sql_query, update_sql_queries, update_ppl_queries,
}
use dashboards_query_workben.Main.Queries.{
  Answer, response, rejected, on_answers, on_run_answered, on_results, query_details,
}
use dashboards_query_workben.Main.Background.{
  cancel_query_requester, cancel_async_query, AsyncReply, Started, on_run_async, on_async_reply,
  start_queries, start_query, async_detail, has_schema,
}
use dashboards_query_workben.Main.Events.{
  Event, clears, sql_settles, ppl_settles, selects_data, changes_cluster, run_answered,
  translate_answered, jdbc_answered, json_answered, csv_answered, text_answered, runs_async,
  async_replied, async_failed, cancels, handle,
}

-- The statuses after which no reply is waited for.
abbrev pub is_over : String → Bool
is_over status = (status == "success") || ((status == "failed") || (status == "cancelled"))

-- The page shows that it is loading exactly while the status is not final.
abbrev pub LoadsByStatus : {J E : Type 0} → MainState J E → Type 0
LoadsByStatus s = s.async_loading ≡ not (is_over s.async_loading_status)

module _ {J E : Type 0} (caps : DeploymentCapabilities) (selected : Option String) where
  -- The loading flag agrees with the status, these are the capabilities and the cluster, and a data source is chosen.
  abbrev pub Kept : MainState J E → Type 0
  Kept s =
      LoadsByStatus s
      × (s.caps ≡ caps)
      × (s.selected_mds_data_connection_id ≡ selected)
      × (is_empty s.selected_datasource ≡ false)

  on_answers-Kept :
      (answers : List (Answer J)) (s : MainState J E) → Kept s → Kept (on_answers answers s)
  unfolding on_answers
  on_answers-Kept [] s h = h
  on_answers-Kept (response r ∷ answers) s h = on_answers-Kept answers s h
  on_answers-Kept (rejected message ∷ answers) s h = on_answers-Kept answers _ h

  start_queries-Kept :
      (source : String) (queries : List String) (s : Started J E)
      → Kept s.page
      → Kept (start_queries source queries s).page
  unfolding start_queries
  start_queries-Kept source [] s h = h
  start_queries-Kept source (query ∷ queries) s h =
      start_queries-Kept source queries (start_query source query s) (refl, h.1, h.2, h.3)

  store_sql_queries-Kept : (s : MainState J E) → Kept s → Kept (store_sql_queries s)
  unfolding store_sql_queries
  store_sql_queries-Kept s h = elim (Option-cases s.waiting_sql) [
    | inl idle ↦ rw (idle, store_sql_queries) h
    | inr (query, waits) ↦ rw (waits, store_sql_queries) h
  ]

  store_ppl_queries-Kept : (s : MainState J E) → Kept s → Kept (store_ppl_queries s)
  unfolding store_ppl_queries
  store_ppl_queries-Kept s h = elim (Option-cases s.waiting_ppl) [
    | inl idle ↦ rw (idle, store_ppl_queries) h
    | inr (query, waits) ↦ rw (waits, store_ppl_queries) h
  ]

  check_history_state-Kept :
      (history : Option (String × String)) (s : MainState J E)
      → Kept s
      → Kept (check_history_state history s)
  unfolding check_history_state
  check_history_state-Kept none s h = h
  check_history_state-Kept (some (language, query)) s h = elim (Bool-cases (language == "sql")) [
    | inl sql ↦ rw (sql, check_history_state) h
    | inr other ↦ rw (other, check_history_state) h
  ]

  seed_sql_query-Kept :
      (item : DataSourceChoice) (s : MainState J E) → Kept s → Kept (seed_sql_query item s)
  unfolding seed_sql_query
  seed_sql_query-Kept item s h =
      elim (Bool-cases ((item.label == "OpenSearch") && (s.language == "SQL"))) [
        | inl starts ↦ rw (starts, seed_sql_query) h
        | inr other ↦ rw (other, seed_sql_query) h
      ]

  on_clear-Kept : (s : MainState J E) → Kept s → Kept (on_clear s)
  unfolding on_clear
  on_clear-Kept s h = (refl, h.1, h.2, h.3)

  handle_data_select-Kept :
      (history : Option (String × String)) (items : List DataSourceChoice) (s : MainState J E)
      → Kept s
      → Kept (handle_data_select history items s)
  unfolding handle_data_select update_sql_queries update_ppl_queries
  handle_data_select-Kept history [] s h =
      on_clear-Kept (update_ppl_queries "" (update_sql_queries "" s)) h
  handle_data_select-Kept history (item ∷ items) s h =
      let cleared = on_clear (update_ppl_queries "" (update_sql_queries "" s)) in
      check_history_state-Kept history
        (record (seed_sql_query item cleared) { selected_datasource = item ∷ items })
        (chosen (seed_sql_query item cleared) (
          seed_sql_query-Kept item cleared
            (on_clear-Kept (update_ppl_queries "" (update_sql_queries "" s)) h)))
    where
      chosen : (t : MainState J E) → Kept t → Kept (record t { selected_datasource = item ∷ items })
      chosen t k = (k.0, k.1, k.2, refl)

  cancel_async_query-Kept : (s : MainState J E) → Kept s → Kept (cancel_async_query s)
  unfolding cancel_async_query cancel_query_requester
  cancel_async_query-Kept s h = elim (Option-cases s.cancel_query_handler) [
    | inl idle ↦ rw (idle, cancel_async_query) h
    | inr (x, runs) ↦ rw (runs, cancel_async_query) (refl, h.1, h.2, h.3)
  ]

  on_run_async-Kept :
      (queries_string : String) (s : MainState J E)
      → Kept s
      → Kept (on_run_async queries_string s).page
  unfolding on_run_async
  on_run_async-Kept queries_string s h = by_source s.selected_datasource refl
    where
      by_source :
          (sources : List DataSourceChoice)
          → s.selected_datasource ≡ sources
          → Kept (on_run_async queries_string s).page
      by_source [] e = rw (e, on_run_async) h
      by_source (source ∷ sources) e =
          rw (e, on_run_async) (start_queries-Kept source.label (get_queries queries_string) _ h)

  module _ (to_lower_case : String → String) (json_parse : String → Option (QueryResponse J))
      (object_text : String) where
    on_results-Kept :
        (queries : List String) (answers : List (Answer J)) (s : MainState J E)
        → Kept s
        → Kept (
            on_results object_text to_lower_case json_parse queries
              (query_details object_text answers)
              s)
    unfolding on_results
    on_results-Kept queries answers s h =
        elim (Option-cases (
          get_query_results_for_table json_parse object_text (query_details object_text answers)
            true)) [
              | inl thrown ↦ rw (thrown, on_results) h
              | inr (table, made) ↦ rw (made, on_results) (refl, h.1, h.2, h.3)
            ]

    on_success-Kept :
        (queries : List String) (reply : AsyncReply J) (s : MainState J E)
        → Kept s
        → (reply.status == "success") ≡ true
        → Kept (on_async_reply to_lower_case json_parse object_text queries reply s)
    unfolding on_async_reply
    on_success-Kept queries reply s h done =
        elim (Option-cases (
          get_query_results_for_table json_parse object_text (async_detail object_text reply ∷ [])
            false)) [
              | inl thrown ↦ rw (done, thrown, on_async_reply) h
              | inr (table, made) ↦
                  elim (Option-cases (has_schema (async_detail object_text reply).contents)) [
                    | inl thrown ↦ rw (done, made, thrown, on_async_reply) h
                    | inr (shows, found) ↦
                        rw (done, made, found, on_async_reply) (rw done (refl, h.1, h.2, h.3))
                  ]
            ]

    on_async_reply-Kept :
        (queries : List String) (reply : AsyncReply J) (s : MainState J E)
        → Kept s
        → Kept (on_async_reply to_lower_case json_parse object_text queries reply s)
    unfolding on_async_reply
    on_async_reply-Kept queries reply s h = elim (Bool-cases (reply.status == "success")) [
      | inl done ↦ on_success-Kept queries reply s h done
      | inr other ↦
          elim (Bool-cases ((reply.status == "failed") || (reply.status == "cancelled"))) [
            | inl failed ↦ rw (other, failed) (rw (other, failed) (refl, h.1, h.2, h.3))
            | inr goes_on ↦ rw (other, goes_on) (rw (other, goes_on) (refl, h.1, h.2, h.3))
          ]
    ]

    pub handle-Kept :
        (event : Event J E) (s : MainState J E)
        → Kept s
        → Kept (handle to_lower_case json_parse object_text event s)
    unfolding handle on_clear on_change_cluster on_run_answered
    handle-Kept clears s h = (refl, h.1, h.2, h.3)
    handle-Kept sql_settles s h = store_sql_queries-Kept s h
    handle-Kept ppl_settles s h = store_ppl_queries-Kept s h
    handle-Kept (selects_data history items) s h = handle_data_select-Kept history items s h
    handle-Kept (changes_cluster id) s h = elim (Bool-cases (id == "Indexes")) [
      | inl indexes ↦ rw (indexes, on_change_cluster) (h.0, h.1, h.2, refl)
      | inr other ↦ rw (other, on_change_cluster) h
    ]
    handle-Kept (run_answered queries answers) s h =
        on_results-Kept queries answers (on_answers answers s) (on_answers-Kept answers s h)
    handle-Kept (translate_answered queries answers) s h = on_answers-Kept answers s h
    handle-Kept (jdbc_answered queries answers) s h = on_answers-Kept answers s h
    handle-Kept (json_answered queries answers) s h = on_answers-Kept answers s h
    handle-Kept (csv_answered queries answers) s h = on_answers-Kept answers s h
    handle-Kept (text_answered queries answers) s h = on_answers-Kept answers s h
    handle-Kept (runs_async queries_string) s h = on_run_async-Kept queries_string s h
    handle-Kept (async_replied queries reply) s h = on_async_reply-Kept queries reply s h
    handle-Kept (async_failed error_details) s h = (refl, h.1, h.2, h.3)
    handle-Kept cancels s h = cancel_async_query-Kept s h
    handle-Kept _ s h = h

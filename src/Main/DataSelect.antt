-- ===== src/Main/DataSelect.antt =====
-- public/components/SQLPage/DataSelect.tsx: the box of the data sources, with the handler of main.tsx that it calls. A
-- choice that is made by label alone has the blank key. The redirection
-- gives a language and a query, or nothing.
use dashboards_query_workben.Common.{
  String, Option, none, some, List, [], ◌∷◌, if◌then◌else◌, is_empty, ◌≡◌, ◌==◌, refl, ◌⊎◌, inl,
  inr, Bool-cases, false, true,
}
use dashboards_query_workben.DataSources.{DataOption, Outcome, on_success, on_error}
use dashboards_query_workben.Main.{
  DataSourceChoice, MainState, handle_data_select, check_history_state, seed_sql_query, on_clear,
  update_sql_queries, update_ppl_queries,
}

-- the component's state, beside that of the page
pub record DataSelect (J E : Type 0) : Type 0 where
  pub selected_options : List DataSourceChoice
  pub options : List DataOption
  pub page : MainState J E

-- The reply to the request of a mount, and the user's choices.
pub data SelectEvent : Type 0 where
  fetches : Outcome → SelectEvent
  selects : List DataSourceChoice → SelectEvent

module _ {J E : Type 0} (history : Option (String × String)) (url_data_source : String) where
  abbrev pub on_select : List DataSourceChoice → DataSelect J E → DataSelect J E
  unfolding handle_data_select
  on_select items d = record d {
    selected_options = items;
    page = handle_data_select history items d.page;
  }

  unfoldable pub on_fetched : Outcome → DataSelect J E → DataSelect J E
  unfolding on_select
  on_fetched (on_success data_options url_source_found) d =
      let t = record d { options = data_options } in
      if url_source_found
      then on_select (record { label = url_data_source; key = "" } ∷ []) t
      else t
  on_fetched on_error d = d

  unfoldable pub handle_selection_change : List DataSourceChoice → DataSelect J E → DataSelect J E
  unfolding on_select
  handle_selection_change selected_items d =
      if is_empty selected_items then d else on_select selected_items d

  unfoldable pub run_selects : List SelectEvent → DataSelect J E → DataSelect J E
  unfolding on_fetched handle_selection_change
  run_selects [] d = d
  run_selects (fetches outcome ∷ es) d = run_selects es (on_fetched outcome d)
  run_selects (selects items ∷ es) d = run_selects es (handle_selection_change items d)

  -- Nothing is selected yet, or the page has what the box shows.
  abbrev IsInStep : DataSelect J E → Type 0
  IsInStep d = (d.selected_options ≡ []) ⊎ (d.page.selected_datasource ≡ d.selected_options)

  history_keeps_source :
      (s : MainState J E) (given : Option (String × String))
      → (check_history_state given s).selected_datasource ≡ s.selected_datasource
  unfolding check_history_state update_sql_queries
  history_keeps_source s none = refl
  history_keeps_source s (some (language, query)) = elim (Bool-cases (language == "sql")) [
    | inl sql ↦ rw sql refl
    | inr other ↦ rw other refl
  ]

  on_select-IsInStep :
      (item : DataSourceChoice) (items : List DataSourceChoice) (d : DataSelect J E)
      → IsInStep (on_select (item ∷ items) d)
  unfolding on_select handle_data_select
  on_select-IsInStep item items d = inr (
      history_keeps_source
        (record (seed_sql_query item
          (on_clear (update_ppl_queries "" (update_sql_queries "" d.page)))) {
            selected_datasource = item ∷ items;
          })
        history)

  handle_selection_change-IsInStep :
      (items : List DataSourceChoice) (d : DataSelect J E)
      → IsInStep d
      → IsInStep (handle_selection_change items d)
  unfolding handle_selection_change
  handle_selection_change-IsInStep [] d h = h
  handle_selection_change-IsInStep (item ∷ items) d h = on_select-IsInStep item items d

  on_fetched-IsInStep :
      (outcome : Outcome) (d : DataSelect J E) → IsInStep d → IsInStep (on_fetched outcome d)
  unfolding on_fetched
  on_fetched-IsInStep (on_success data_options false) d h = h
  on_fetched-IsInStep (on_success data_options true) d h =
      on_select-IsInStep (record { label = url_data_source; key = "" }) []
        (record d { options = data_options })
  on_fetched-IsInStep on_error d h = h

  -- Whatever is chosen and whatever the request gives, the page has the data sources that the box shows, once it shows
  -- some.
  run_selects-IsInStep :
      (es : List SelectEvent) (d : DataSelect J E) → IsInStep d → IsInStep (run_selects es d)
  unfolding run_selects
  run_selects-IsInStep [] d h = h
  run_selects-IsInStep (fetches outcome ∷ es) d h =
      run_selects-IsInStep es (on_fetched outcome d) (on_fetched-IsInStep outcome d h)
  run_selects-IsInStep (selects items ∷ es) d h =
      run_selects-IsInStep es (handle_selection_change items d)
        (handle_selection_change-IsInStep items d h)

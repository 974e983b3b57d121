-- ===== src/ResultsView/Shown.antt =====
-- The rows of a page, whatever has happened to the results before.
use Prim.Native.Nat.{min}
use dashboards_query_workben.Common.{
  ℕ, ◌+◌, ◌-◌, ◌*◌, ◌<◌, suc, String, Bool, false, Option, none, some, List, [], ◌∷◌, any, length,
  ◌==◌, ◌≡◌, refl, sym, ap, ◌∙◌, arith, subst, ◌⊎◌, if◌then◌else◌, inl, inr,
}
use dashboards_query_workben.Results.{DataRow, QueryResult}
use dashboards_query_workben.ResultsBody.{render_rows}
use dashboards_query_workben.ResultsBody.Pages.{take, drop, rows_from-slice, take-min, length-drop}
use dashboards_query_workben.ResultsBody.Sorting.{
  Tools, ToolsLaws, BodyColumn, expand_icon, matching_items, get_items, sort_data_rows-blank,
  add_expanding_icon_column, sort_data_rows,
}
use dashboards_query_workben.ResultsView.{
  ElasticPager, ResultsEvent, updates, shows_tabs_menu, closes_popover, changes_items_per_page,
  changes_page, sorts, clicks_tab, clicks_tab_item, unmounts_body, renders, ResultsState,
  constructed, render, render_body, on_sort, on_event, run_events, shown_rows, reached,
  update_sortable_columns, update_pagination, on_change_page,
}

-- The first column, if there is one, is the expanding icon's.
abbrev IsHeaded : List BodyColumn → Type 0
IsHeaded columns = (columns ≡ []) ⊎ ((rest : List BodyColumn) × (columns ≡ expand_icon ∷ rest))

module _ (ui : ElasticPager) {J : Type 0} (tools : Tools J) where
  record IsAgreed (s : ResultsState J ui.Pager) : Type 0 where
    items_agree : ui.items_to_page s.pager ≡ s.items_per_page
    headed : IsHeaded s.columns

  constructed-IsAgreed : (overflow : Option Bool) → IsAgreed (constructed ui tools overflow)
  unfolding constructed
  constructed-IsAgreed overflow = record { items_agree = ui.items_of_new 0 10; headed = inl refl }

  render-IsAgreed :
      (query : String) (selected : Option (QueryResult J)) (s : ResultsState J ui.Pager)
      → IsAgreed s
      → IsAgreed (render ui tools query selected s)
  unfolding render render_body add_expanding_icon_column
  render-IsAgreed query none s h = h
  render-IsAgreed query (some result) s h = record {
    items_agree =
        ui.items_of_total (length (matching_items tools query result.records)) s.pager
        ∙ h.items_agree;
    headed = inr (_, refl);
  }

  on_event-IsAgreed :
      (e : ResultsEvent J) (s : ResultsState J ui.Pager)
      → IsAgreed s
      → IsAgreed (on_event ui tools e s)
  unfolding on_event on_sort
  on_event-IsAgreed (updates show_arrow) s h = record {
    items_agree = h.items_agree;
    headed = h.headed;
  }
  on_event-IsAgreed shows_tabs_menu s h = record { items_agree = h.items_agree; headed = h.headed }
  on_event-IsAgreed closes_popover s h = record { items_agree = h.items_agree; headed = h.headed }
  on_event-IsAgreed (changes_items_per_page n) s h = record {
    items_agree = ui.items_of_set n s.pager;
    headed = h.headed;
  }
  on_event-IsAgreed (changes_page page) s h = record {
    items_agree = ui.items_of_page page s.pager ∙ h.items_agree;
    headed = h.headed;
  }
  on_event-IsAgreed (sorts prop) s h = record { items_agree = h.items_agree; headed = h.headed }
  on_event-IsAgreed clicks_tab s h = record {
    items_agree = ui.items_of_page 0 s.pager ∙ h.items_agree;
    headed = h.headed;
  }
  on_event-IsAgreed clicks_tab_item s h = record {
    items_agree = ui.items_of_page 0 s.pager ∙ h.items_agree;
    headed = h.headed;
  }
  on_event-IsAgreed unmounts_body s h = record { items_agree = h.items_agree; headed = inl refl }
  on_event-IsAgreed (renders query selected) s h = render-IsAgreed query selected s h

  run_events-IsAgreed :
      (es : List (ResultsEvent J)) (s : ResultsState J ui.Pager)
      → IsAgreed s
      → IsAgreed (run_events ui tools es s)
  unfolding run_events
  run_events-IsAgreed [] s h = h
  run_events-IsAgreed (e ∷ es) s h =
      run_events-IsAgreed es (on_event ui tools e s) (on_event-IsAgreed e s h)

  get_finds-IsHeaded :
      (laws : ToolsLaws tools) (text : String) (columns : List BodyColumn)
      → IsHeaded columns
      → tools.get_finds text columns ≡ false
  get_finds-IsHeaded laws text columns (inl empty) =
      ap (tools.get_finds text) empty ∙ laws.get_nowhere text
  get_finds-IsHeaded laws text columns (inr (rest, headed)) =
      ap (tools.get_finds text) headed ∙ laws.get_no_icon text rest

  -- Where no field is blank, the body takes the matching records in their order.
  render_body-items :
      (laws : ToolsLaws tools) (query : String) (result : QueryResult J)
      (s : ResultsState J ui.Pager)
      → any (λ own. own == "") s.sortable_properties ≡ false
      → IsAgreed s
      → (render_body ui tools query result s).items ≡ matching_items tools query result.records
  unfolding render_body get_items
  render_body-items laws query result s unnamed h =
      let rows = matching_items tools query result.records in
      ap
        (λ found.
          sort_data_rows tools s.sortable_properties rows (if found then s.sorted_column else ""))
        (get_finds-IsHeaded laws s.sorted_column s.columns h.headed)
      ∙ sort_data_rows-blank tools laws s.sortable_properties rows unnamed

  -- The rows between the indices of a page are those of the page.
  page_rows :
      (n page first last : ℕ) (rows : List (DataRow J))
      → first ≡ page * n
      → suc last ≡ min (page * n + n) (length rows)
      → render_rows first last rows ≡ take n (drop (page * n) rows)
  unfolding render_rows
  page_rows n page first last rows starts ends =
      let rest = drop (page * n) rows in
      let rounds : suc last - first ≡ min n (length rest) =
        omega (arith, starts, ends, length-drop (page * n) rows) in
      rows_from-slice (suc last - first) first rows
      ∙ ap (λ k. take k (drop first rows)) rounds
      ∙ ap (λ k. take (min n (length rest)) (drop k rows)) starts
      ∙ take-min n rest

  page_in_state :
      (laws : ToolsLaws tools) (query : String) (result : QueryResult J) (page : ℕ)
      (s : ResultsState J ui.Pager)
      → IsAgreed s
      → any (λ own. own == "") result.fields ≡ false
      → 0 < s.items_per_page
      → page * s.items_per_page < ui.total_items s.pager
      → page * s.items_per_page < length (matching_items tools query result.records)
      → shown_rows ui tools
          (run_events ui tools (changes_page page ∷ renders query (some result) ∷ []) s)
        ≡ take s.items_per_page
            (drop (page * s.items_per_page) (matching_items tools query result.records))
  unfolding run_events on_event render shown_rows render_rows
  page_in_state laws query result page s h unnamed positive there exists =
      let rows = matching_items tools query result.records in
      let n = ui.items_to_page s.pager in
      let set =
        update_sortable_columns ui tools result.fields
          (update_pagination ui tools (length rows) (on_change_page ui tools page s)) in
      let agreed : IsAgreed set = record {
        items_agree =
            ui.items_of_total (length rows) (ui.go_to_page_index page s.pager)
            ∙ ui.items_of_page page s.pager
            ∙ h.items_agree;
        headed = h.headed;
      } in
      let some_items : 0 < n = omega (arith, h.items_agree) in
      let reaches : page * n < length rows =
        subst (λ k. page * k < length rows) (sym h.items_agree) exists in
      let existed : page * n < ui.total_items s.pager =
        subst (λ k. page * k < ui.total_items s.pager) (sym h.items_agree) there in
      ap (render_rows (ui.get_first_item_index set.pager) (ui.get_last_item_index set.pager))
        (render_body-items laws query result set unnamed agreed)
      ∙ page_rows n page (ui.get_first_item_index set.pager) (ui.get_last_item_index set.pager) rows
          (ui.first_is page (length rows) s.pager some_items existed reaches)
          (ui.last_is page (length rows) s.pager some_items existed reaches)
      ∙ ap (λ k. take k (drop (page * k) rows)) h.items_agree

  -- Whatever has happened before, when results are shown and the user goes to a page that the matching records reach, the
  -- rows are those of that page, in their order, as many as the state says, where no field is blank.
  pub page_is_shown :
      (laws : ToolsLaws tools) (es : List (ResultsEvent J)) (overflow : Option Bool)
      (query : String) (result : QueryResult J) (page : ℕ)
      → any (λ own. own == "") result.fields ≡ false
      → 0 < (reached ui tools es overflow).items_per_page
      → page * (reached ui tools es overflow).items_per_page
        < length (matching_items tools query result.records)
      → shown_rows ui tools (
          run_events ui tools
            (renders query (some result) ∷ changes_page page ∷ renders query (some result) ∷ [])
            (reached ui tools es overflow))
        ≡ take (reached ui tools es overflow).items_per_page (
            drop
              (page * (reached ui tools es overflow).items_per_page)
              (matching_items tools query result.records))
  unfolding reached run_events on_event render render_body
  page_is_shown laws es overflow query result page unnamed positive exists =
      let s = reached ui tools es overflow in
      let rows = matching_items tools query result.records in
      let agreed =
        run_events-IsAgreed es (constructed ui tools overflow) (constructed-IsAgreed overflow) in
      let total : ui.total_items (ui.set_total_items (length rows) s.pager) ≡ length rows =
        ui.total_of_total (length rows) s.pager in
      page_in_state laws query result page (render ui tools query (some result) s)
        (render-IsAgreed query (some result) s agreed) unnamed positive
        (subst (λ n. page * s.items_per_page < n) (sym total) exists) exists

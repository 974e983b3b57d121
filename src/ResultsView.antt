-- ===== src/ResultsView.antt =====
-- public/components/QueryResults/QueryResults.tsx: the state of the results with its handlers, and the rows that
-- public/components/QueryResults/QueryResultsBody.tsx shows of a page. Of `sortableColumns` and `sortableProperties` the
-- names are kept.
pub mod Shown
mod Tests
use dashboards_query_workben.Common.{
  ℕ, ◌+◌, ◌*◌, ◌≤◌, ◌<◌, suc, String, Bool, true, false, not, Option, none, some, List, [], ◌∷◌,
  length, ◌≡◌, eqb, if◌then◌else◌,
}
use dashboards_query_workben.Results.{DataRow, QueryResult}
use dashboards_query_workben.ResultsBody.{render_rows}
use dashboards_query_workben.ResultsBody.Sorting.{
  Tools, BodyColumn, add_expanding_icon_column, sort_data_rows, matching_items, get_items,
}
use Prim.Native.Nat.{min}

abbrev pub default_num_records_per_page : ℕ
default_num_records_per_page = 10

-- The `Pager` of Elastic UI and what is documented of it: a total and a number of items to a page stay as they were set,
-- and a page that was gone to, and that exists then and with the next total, has its first and last index. The indices
-- are only read where there are items.
pub record ElasticPager : Type 1 where
  pub Pager : Type 0
  pub new_pager : (total_items items_per_page : ℕ) → Pager
  pub set_total_items : ℕ → Pager → Pager
  pub set_items_per_page : ℕ → Pager → Pager
  pub go_to_page_index : ℕ → Pager → Pager
  pub get_first_item_index : Pager → ℕ
  pub get_last_item_index : Pager → ℕ
  pub items_to_page : Pager → ℕ
  pub total_items : Pager → ℕ
  pub items_of_new : (total_items n : ℕ) → items_to_page (new_pager total_items n) ≡ n
  pub items_of_total :
      (total : ℕ) (p : Pager) → items_to_page (set_total_items total p) ≡ items_to_page p
  pub items_of_set : (n : ℕ) (p : Pager) → items_to_page (set_items_per_page n p) ≡ n
  pub items_of_page :
      (page : ℕ) (p : Pager) → items_to_page (go_to_page_index page p) ≡ items_to_page p
  pub total_of_total : (total : ℕ) (p : Pager) → total_items (set_total_items total p) ≡ total
  pub first_is :
      (page total : ℕ) (p : Pager)
      → 0 < items_to_page p
      → page * items_to_page p < total_items p
      → page * items_to_page p < total
      → get_first_item_index (set_total_items total (go_to_page_index page p))
        ≡ page * items_to_page p
  pub last_is :
      (page total : ℕ) (p : Pager)
      → 0 < items_to_page p
      → page * items_to_page p < total_items p
      → page * items_to_page p < total
      → suc (get_last_item_index (set_total_items total (go_to_page_index page p)))
        ≡ min (page * items_to_page p + items_to_page p) total

-- the state, the fields of the component, and the columns and items of its body
pub record ResultsState (J : Type 0) (P : Type 0) : Type 0 where
  pub is_popover_open : Bool
  pub tabs_overflow : Bool
  pub items_per_page : ℕ
  pub sortable_columns : List String
  pub sortable_properties : List String
  pub sorted_column : String
  pub pager : P
  pub columns : List BodyColumn
  pub items : List (DataRow J)

pub data ResultsEvent (J : Type 0) : Type 0 where
  updates : Bool → ResultsEvent J
  shows_tabs_menu closes_popover : ResultsEvent J
  changes_items_per_page changes_page : ℕ → ResultsEvent J
  sorts : String → ResultsEvent J
  clicks_tab clicks_tab_item : ResultsEvent J
  unmounts_body : ResultsEvent J
  renders : String → Option (QueryResult J) → ResultsEvent J

module _ (ui : ElasticPager) {J : Type 0} (tools : Tools J) where
  abbrev pub State : Type 0
  State = ResultsState J ui.Pager

  unfoldable pub constructed : Option Bool → State
  constructed overflow = record {
    is_popover_open = false;
    tabs_overflow = elim overflow [ none ↦ false | some given ↦ given ];
    items_per_page = default_num_records_per_page;
    sortable_columns = [];
    sortable_properties = "" ∷ [];
    sorted_column = "";
    pager = ui.new_pager 0 default_num_records_per_page;
    columns = [];
    items = [];
  }

  -- with what `needsScrolling` says
  abbrev pub component_did_update : Bool → State → State
  component_did_update show_arrow s = record s { tabs_overflow = show_arrow }

  abbrev pub show_tabs_menu : State → State
  show_tabs_menu s = record s { is_popover_open = not s.is_popover_open }

  abbrev pub close_popover : State → State
  close_popover s = record s { is_popover_open = false }

  abbrev pub on_change_items_per_page : ℕ → State → State
  on_change_items_per_page n s = record s {
    pager = ui.set_items_per_page n s.pager;
    items_per_page = n;
  }

  abbrev pub on_change_page : ℕ → State → State
  on_change_page page_index s = record s { pager = ui.go_to_page_index page_index s.pager }

  abbrev pub update_pagination : ℕ → State → State
  update_pagination total s = record s { pager = ui.set_total_items total s.pager }

  unfoldable pub first_name : List String → String
  first_name [] = ""
  first_name (own ∷ names) = own

  abbrev pub update_sortable_columns : List String → State → State
  unfolding first_name
  update_sortable_columns fields s = record s {
    sortable_columns = fields;
    sorted_column = first_name fields;
    sortable_properties = fields;
  }

  -- `onSort` of the body with that of its parent; no header calls it.
  unfoldable pub on_sort : String → State → State
  unfolding sort_data_rows
  on_sort prop s = record s {
    items = sort_data_rows tools s.sortable_properties s.items prop;
    sorted_column = prop;
  }

  -- a click on a tab, but for the parent's `onSelectedTabIdChange`
  abbrev pub on_tab_button : State → State
  on_tab_button s = record s { pager = ui.go_to_page_index 0 s.pager; sortable_columns = [] }

  -- the same, in the menu of tabs
  abbrev pub on_tab_item : State → State
  on_tab_item s = on_tab_button (close_popover s)

  -- The part of the body's `render` that sets its fields.
  unfoldable pub render_body : String → QueryResult J → State → State
  unfolding get_items add_expanding_icon_column
  render_body search_query result s = record s {
    items =
        get_items tools s.sortable_properties s.sorted_column search_query s.columns result.records;
    columns = add_expanding_icon_column result.fields;
  }

  -- `render` with the selected result, then that of the body.
  unfoldable pub render : String → Option (QueryResult J) → State → State
  unfolding render_body matching_items first_name
  render search_query none s = s
  render search_query (some result) s =
      let total = length (matching_items tools search_query result.records) in
      render_body search_query result
        (update_sortable_columns result.fields (update_pagination total s))

  unfoldable pub shown_rows : State → List (DataRow J)
  unfolding render_rows
  shown_rows s =
      render_rows (ui.get_first_item_index s.pager) (ui.get_last_item_index s.pager) s.items

  unfoldable pub on_event : ResultsEvent J → State → State
  unfolding on_sort render
  on_event (updates show_arrow) s = component_did_update show_arrow s
  on_event shows_tabs_menu s = show_tabs_menu s
  on_event closes_popover s = close_popover s
  on_event (changes_items_per_page n) s = on_change_items_per_page n s
  on_event (changes_page page_index) s = on_change_page page_index s
  on_event (sorts prop) s = on_sort prop s
  on_event clicks_tab s = on_tab_button s
  on_event clicks_tab_item s = on_tab_item s
  on_event unmounts_body s = record s { columns = []; items = [] }
  on_event (renders search_query selected) s = render search_query selected s

  unfoldable pub run_events : List (ResultsEvent J) → State → State
  unfolding on_event
  run_events [] s = s
  run_events (e ∷ es) s = run_events es (on_event e s)

  -- what comes of events from the start on
  unfoldable pub reached : List (ResultsEvent J) → Option Bool → State
  unfolding run_events constructed
  reached es overflow = run_events es (constructed overflow)

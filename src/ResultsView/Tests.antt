-- ===== src/ResultsView/Tests.antt =====
-- A pager, and three rows on pages of two.
use Prim.Native.Nat.{min}
use dashboards_query_workben.Common.{
  if◌then◌else◌, ltb, ℕ, ◌+◌, ◌-◌, ◌*◌, String, Bool, true, false, ◌&&◌, none, some, List, [], ◌∷◌,
  ◌≡◌, refl, arith, any, ◌==◌, is_empty,
}
use dashboards_query_workben.Common.Dict.{lookup}
use dashboards_query_workben.Results.{Cell, value, undefined, null, dash, DataRow, QueryResult}
use dashboards_query_workben.ResultsBody.Pages.{take, drop}
use dashboards_query_workben.ResultsBody.Sorting.{
  Tools, ToolsLaws, Comparison, greater, same, less, BodyColumn, expand_icon, field, matching_items,
  get_items, sort_data_rows, add_expanding_icon_column, comparator, compare_values,
}
use dashboards_query_workben.ResultsView.{
  ElasticPager, ResultsEvent, shows_tabs_menu, changes_items_per_page, changes_page, sorts,
  clicks_tab, unmounts_body, renders, constructed, render, render_body, on_sort, on_event, reached,
  run_events, shown_rows, first_name,
}
use dashboards_query_workben.ResultsView.Shown.{page_is_shown}

-- the number of items, of items to a page, and the page
record Paging : Type 0 where
  total : ℕ
  to_page : ℕ
  page : ℕ

-- A page that does not exist is left for the first one.
abbrev bounded : Paging → Paging
bounded p = record p { page = if ltb (p.page * p.to_page) p.total then p.page else 0 }

abbrev pager : ElasticPager
pager = record {
  Pager = Paging;
  new_pager = λ total n. record { total = total; to_page = n; page = 0 };
  set_total_items = λ total p. bounded (record p { total = total });
  set_items_per_page = λ n p. bounded (record p { to_page = n });
  go_to_page_index = λ page p. bounded (record p { page = page });
  get_first_item_index = λ p. p.page * p.to_page;
  get_last_item_index = λ p. min (p.page * p.to_page + p.to_page) p.total - 1;
  items_to_page = λ p. p.to_page;
  total_items = λ p. p.total;
  total_of_total = λ total p. refl;
  items_of_new = λ total n. refl;
  items_of_total = λ total p. refl;
  items_of_set = λ n p. refl;
  items_of_page = λ page p. refl;
  first_is = λ page total p positive there reaches. ground arith;
  last_is = λ page total p positive there reaches. ground arith;
}

-- Insertion, before the rows that are greater.
insert_row : {A : Type 0} → (A → A → Comparison) → A → List A → List A
insert_row compare new [] = new ∷ []
insert_row compare new (row ∷ rows) =
    let later = insert_row compare new rows in
    elim (compare new row) [
      | greater ↦ row ∷ later
      | same ↦ new ∷ row ∷ rows
      | less ↦ new ∷ row ∷ rows
    ]

sorted : {A : Type 0} → (A → A → Comparison) → List A → List A
sorted compare [] = []
sorted compare (row ∷ rows) = insert_row compare row (sorted compare rows)

insert_row-same :
    {A : Type 0} (compare : A → A → Comparison) (new : A) (rows : List A)
    → ((a b : A) → compare a b ≡ same)
    → insert_row compare new rows ≡ new ∷ rows
unfolding insert_row
insert_row-same compare new [] all_same = refl
insert_row-same compare new (row ∷ rows) all_same = rw (all_same new row, insert_row) refl

sorted-same :
    {A : Type 0} (compare : A → A → Comparison) (rows : List A)
    → ((a b : A) → compare a b ≡ same)
    → sorted compare rows ≡ rows
unfolding sorted
sorted-same compare [] all_same = refl
sorted-same compare (row ∷ rows) all_same =
    rw (sorted-same compare rows all_same) (insert_row-same compare row rows all_same)

-- A text has the property `length` and no other.
finds_in_text : String → List BodyColumn → Bool
finds_in_text text [] = false
finds_in_text text (expand_icon ∷ columns) = false
finds_in_text text (field name ∷ columns) = is_empty columns && (name == "length")

abbrev text_in : Cell String → String
text_in (value text) = text
text_in undefined = ""
text_in null = ""
text_in dash = ""

abbrev tools : Tools String
unfolding sorted finds_in_text
tools = record {
  execute = λ query rows. rows;
  sort = sorted;
  get_finds = finds_in_text;
  has_property = λ names name. any (λ own. own == name) names;
  is_truthy = λ cell. true;
  is_above = λ a b. (text_in a == "b") && (text_in b == "a");
}

tools-ToolsLaws : ToolsLaws tools
unfolding tools finds_in_text
tools-ToolsLaws = record {
  sort_stable = sorted-same;
  get_nowhere = λ text. refl;
  get_no_icon = λ text columns. refl;
  property_is_named = λ names name. refl;
}

abbrev row : ℕ → String → DataRow String
row id text = record { row_id = id; contents = ("name", value text) ∷ [] }

abbrev letters : QueryResult String
letters = record {
  fields = "name" ∷ [];
  records = row 0 "c" ∷ row 1 "b" ∷ row 2 "a" ∷ [];
  message = "";
}

abbrev events : List (ResultsEvent String)
events =
    renders "" (some letters)
    ∷ changes_items_per_page 2
    ∷ sorts "name"
    ∷ shows_tabs_menu
    ∷ clicks_tab
    ∷ unmounts_body
    ∷ []

page_is_shown_example :
    shown_rows pager tools (
      run_events pager tools
        (renders "" (some letters) ∷ changes_page 1 ∷ renders "" (some letters) ∷ [])
        (reached pager tools events none))
    ≡ row 2 "a" ∷ []
unfolding reached run_events on_event render render_body constructed take drop matching_items
page_is_shown_example =
    page_is_shown pager tools tools-ToolsLaws events none "" letters 1 refl (omega arith)
      (omega arith)

-- Sorting changes the items of the body, until it is rendered again.
sorted_until_rendered :
    ((reached pager tools (renders "" (some letters) ∷ sorts "name" ∷ []) none).items
      ≡ row 0 "c" ∷ row 2 "a" ∷ row 1 "b" ∷ [])
    × ((reached pager tools
          (renders "" (some letters) ∷ sorts "name" ∷ renders "" (some letters) ∷ [])
          none).items
        ≡ letters.records)
unfolding reached run_events on_event render render_body constructed on_sort get_items
    sort_data_rows matching_items comparator compare_values lookup sorted insert_row finds_in_text
    add_expanding_icon_column first_name tools
sorted_until_rendered = (refl, refl)

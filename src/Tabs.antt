-- ===== src/Tabs.antt =====
-- public/utils/utils.ts: the tabs of the results, and renderTabs of public/components/QueryResults/QueryResults.tsx.
-- `none` is `undefined`.
pub mod Offered
mod Tests
use Prim.Native.String
use dashboards_query_workben.Common.{
  ℕ, zero, suc, ◌-◌, String, Bool, true, false, not, Option, none, some, List, [], ◌∷◌, ◌++◌,
  if◌then◌else◌, ◌==◌, ◌⧺◌, is_blank, is_empty, get_elem?, get_or,
}
use dashboards_query_workben.Common.Numbers.{Number, nan, int, pos, negsuc, show_nat}
use dashboards_query_workben.Common.ParseInt.{parse_int}
use dashboards_query_workben.Common.Search.{starts_with}
use dashboards_query_workben.Queries.{onto_first}
use dashboards_query_workben.Results.{ResponseDetail}

pub record Tab : Type 0 where
  pub id : String
  pub name : Option String
  pub disabled : Bool

pub record QueryMessage : Type 0 where
  pub text : Option String
  pub class_name : String

abbrev pub message_tab_label : String
message_tab_label = "Output"

abbrev text_length : String → ℕ
text_length String.[] = 0
text_length (String.◌∷◌ c s) = suc (text_length s)

-- `s.split(sep)` for a separator that is not empty; the number is of characters still to be dropped.
unfoldable pub split_on : String → ℕ → String → List String
split_on sep skip String.[] = "" ∷ []
split_on sep zero (String.◌∷◌ c s) =
    let within = onto_first c (split_on sep 0 s) in
    let after = split_on sep (text_length sep - 1) s in
    if starts_with sep (String.◌∷◌ c s) then "" ∷ after else within
split_on sep (suc skip) (String.◌∷◌ c s) = split_on sep skip s

module _ (to_lower_case : String → String) where
  -- `queryFrom[1].split(' ')[1]`, when there is a second piece
  abbrev index_after_from : List String → String → Option String
  index_after_from (before ∷ after ∷ pieces) query = get_elem? (split_on " " 0 after) 1
  index_after_from pieces query = some query

  unfoldable pub get_query_index : Option String → Option String
  unfolding split_on
  get_query_index none = none
  get_query_index (some query) =
      if is_blank query
      then some query
      else index_after_from (split_on "from" 0 (to_lower_case query)) query

  unfoldable pub get_default_tab_label :
      {T : Type 0} → List (ResponseDetail T) → Option String → Option String
  unfolding get_query_index
  get_default_tab_label [] query_string = some message_tab_label
  get_default_tab_label (r ∷ rs) query_string =
      if r.fulfilled then get_query_index query_string else some message_tab_label

  -- the name of the tab of one result
  abbrev pub tab_name : String → Option String → Option String
  tab_name language query = if language == "SQL" then get_query_index query else some "Events"

  -- the loop of `renderTabs` over the results, from the result `i` on
  unfoldable pub tab_names :
      {T : Type 0} → String → List String → ℕ → List (ResponseDetail T) → List (Option String)
  unfolding get_query_index
  tab_names language queries i [] = []
  tab_names language queries i (r ∷ rs) =
      tab_name language (get_elem? queries i) ∷ tab_names language queries (suc i) rs

  unfoldable pub result_tabs :
      {T : Type 0} → String → List String → ℕ → List (ResponseDetail T) → List Tab
  unfolding get_query_index
  result_tabs language queries i [] = []
  result_tabs language queries i (r ∷ rs) =
      let rest = result_tabs language queries (suc i) rs in
      if r.fulfilled
      then record {
        id = show_nat i;
        name = tab_name language (get_elem? queries i);
        disabled = false;
      }
        ∷ rest
      else rest

  unfoldable pub render_tabs :
      {T : Type 0} → String → List String → List (ResponseDetail T) → List Tab
  unfolding result_tabs
  render_tabs language queries query_results =
      record { id = message_tab_label; name = some message_tab_label; disabled = false }
      ∷ result_tabs language queries 0 query_results

unfoldable pub get_default_tab_id : {T : Type 0} → List (ResponseDetail T) → String
get_default_tab_id [] = message_tab_label
get_default_tab_id (r ∷ rs) = if r.fulfilled then "0" else message_tab_label

abbrev pub selected_at : {T : Type 0} → List (ResponseDetail T) → Number → Option T
selected_at results (int (pos i)) = elim (get_elem? results i) [
  | none ↦ none
  | some r ↦ if r.fulfilled then r.contents else none
]
selected_at results selected_index = none

unfoldable pub get_selected_results : {T : Type 0} → List (ResponseDetail T) → String → Option T
unfolding parse_int
get_selected_results results selected_tab_id = selected_at results (parse_int selected_tab_id)

module _ (to_upper_case : String → String) where
  unfoldable pub capitalize_first_letter : String → String
  capitalize_first_letter String.[] = ""
  capitalize_first_letter (String.◌∷◌ c s) = to_upper_case (String.◌∷◌ c String.[]) ⧺ s

  -- a text that is undefined, as `concat` shows it
  abbrev shown : Option String → String
  shown text = get_or text "undefined"

  -- the `reduce`, from the message at an index on
  abbrev message_lines : List QueryMessage → ℕ → List (Option String) → String → String
  message_lines [] i tab_names final = final
  message_lines (m ∷ ms) i tab_names final = message_lines ms (suc i) tab_names (
      final
      ⧺ shown (elim (get_elem? tab_names i) [
        | none ↦ none
        | some name ↦ elim name [ none ↦ none | some text ↦ some (capitalize_first_letter text) ]
      ])
      ⧺ ": "
      ⧺ shown m.text
      ⧺ "\n\n")

  unfoldable pub get_message_string : List QueryMessage → List (Option String) → String
  unfolding capitalize_first_letter
  get_message_string messages tab_names =
      if is_empty messages
      then ""
      else if is_empty tab_names
      then ""
      else message_lines messages 0 tab_names ""

-- ===== src/ResultsBody/Sorting.antt =====
-- getItems, sortDataRows and addExpandingIconColumn of public/components/QueryResults/QueryResultsBody.tsx, the second
-- also of QueryResults.tsx. What `SortableProperties` keeps of ascending is left out: the only code that reads it drops
-- the comparator that `Comparators.reverse` returns.
use dashboards_query_workben.Common.{
  String, Bool, true, false, ◌&&◌, Option, none, some, List, [], ◌∷◌, map, any, if◌then◌else◌, ◌==◌,
  ◌≡◌, refl, ap, ◌∙◌, is_blank,
}
use dashboards_query_workben.Common.Dict.{lookup}
use dashboards_query_workben.Results.{DataRow, Cell}
use dashboards_query_workben.ResultsBody.{search_items}

-- The numbers 1, 0 and -1 that a comparator returns.
pub data Comparison : Type 0 where
  greater same less : Comparison

-- The columns of the table: the one for the expanding icon, an object, and those of fields.
pub data BodyColumn : Type 0 where
  expand_icon : BodyColumn
  field : String → BodyColumn

-- Code that is not of the repository: `Query.execute` of the search bar, `Array.prototype.sort`, whether `_.get` of a
-- text finds something at a path of columns, `getSortablePropertyByName` of the properties with some names, and the
-- test and the order of values.
pub record Tools (J : Type 0) : Type 0 where
  pub execute : String → List (List (String × Cell J)) → List (List (String × Cell J))
  pub sort : (DataRow J → DataRow J → Comparison) → List (DataRow J) → List (DataRow J)
  pub get_finds : String → List BodyColumn → Bool
  pub has_property : List String → String → Bool
  pub is_truthy : Cell J → Bool
  pub is_above : Cell J → Cell J → Bool

-- What is documented of that code: sorting is stable, a text has no property at an empty path and none that is named as
-- an object is shown, and a property is found by its name.
pub record ToolsLaws {J : Type 0} (tools : Tools J) : Type 0 where
  pub sort_stable :
      (compare : DataRow J → DataRow J → Comparison) (rows : List (DataRow J))
      → ((a b : DataRow J) → compare a b ≡ same)
      → tools.sort compare rows ≡ rows
  pub get_nowhere : (text : String) → tools.get_finds text [] ≡ false
  pub get_no_icon :
      (text : String) (columns : List BodyColumn)
      → tools.get_finds text (expand_icon ∷ columns) ≡ false
  pub property_is_named :
      (names : List String) (name : String)
      → tools.has_property names name ≡ any (λ own. own == name) names

unfoldable pub add_expanding_icon_column : List String → List BodyColumn
add_expanding_icon_column fields = expand_icon ∷ map field fields

module _ {J : Type 0} (tools : Tools J) where
  -- `none` is `undefined`
  unfoldable pub compare_values : Option (Cell J) → Option (Cell J) → Comparison
  compare_values none b = same
  compare_values (some a) none = same
  compare_values (some a) (some b) =
      if tools.is_truthy a && tools.is_truthy b
      then (if tools.is_above a b then greater else if tools.is_above b a then less else same)
      else same

  -- whether the property is defined, then the field
  unfoldable pub comparator : Bool → String → DataRow J → DataRow J → Comparison
  unfolding lookup compare_values
  comparator false name a b = same
  comparator true name a b = compare_values (lookup name a.contents) (lookup name b.contents)

  unfoldable pub sort_data_rows : List String → List (DataRow J) → String → List (DataRow J)
  unfolding comparator
  sort_data_rows sortable_properties data_rows name =
      tools.sort (comparator (tools.has_property sortable_properties name) name) data_rows

  unfoldable pub matching_items : String → List (DataRow J) → List (DataRow J)
  unfolding search_items
  matching_items search_query records =
      if is_blank search_query then records else search_items tools.execute records search_query

  -- the properties, the sorted column and the search of the props, the columns of the component, and the records
  unfoldable pub get_items :
      List String → String → String → List BodyColumn → List (DataRow J) → List (DataRow J)
  unfolding sort_data_rows matching_items
  get_items sortable_properties sorted_column search_query columns records =
      let by = if tools.get_finds sorted_column columns then sorted_column else "" in
      sort_data_rows sortable_properties (matching_items search_query records) by

  -- Where no property has a blank name, rows sorted by a blank field stay as they are.
  pub sort_data_rows-blank :
      (laws : ToolsLaws tools) (names : List String) (rows : List (DataRow J))
      → any (λ own. own == "") names ≡ false
      → sort_data_rows names rows "" ≡ rows
  unfolding sort_data_rows comparator
  sort_data_rows-blank laws names rows unnamed =
      ap (λ found. tools.sort (comparator found "") rows)
        (laws.property_is_named names "" ∙ unnamed)
      ∙ laws.sort_stable (comparator false "") rows (λ a b. refl)

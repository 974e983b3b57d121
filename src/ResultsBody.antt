-- ===== src/ResultsBody.antt =====
-- public/components/QueryResults/QueryResultsBody.tsx: the rows that are shown, the values of their cells and the
-- downloads.
pub mod Pages
pub mod Sorting
mod Tests
use dashboards_query_workben.Common.{
  ℕ, zero, suc, ◌-◌, String, Bool, true, false, Option, none, some, List, [], ◌∷◌, ◌++◌, map,
  length, get_elem?, if◌then◌else◌, ◌==◌, ◌⧺◌, is_blank,
}
use dashboards_query_workben.Common.Numbers.{show_nat}
use dashboards_query_workben.Capabilities.{DeploymentCapabilities, truthy}
use dashboards_query_workben.Results.{DataRow, Cell}

-- A value of a cell as far as it is tested, with the text of a plain one.
pub data FieldKind : Type 0 where
  null : FieldKind
  plain : String → FieldKind
  array_of_plain : ℕ → FieldKind
  array_of_objects : ℕ → FieldKind
  object : FieldKind

pub record FieldValue : Type 0 where
  pub has_expanding_row : Bool
  pub has_expanding_array : Bool
  pub value : String
  pub link : String

unfoldable pub get_field_value : FieldKind → String → FieldValue
get_field_value null field = record {
  has_expanding_row = false;
  has_expanding_array = false;
  value = "";
  link = "";
}
get_field_value (plain shown) field = record {
  has_expanding_row = false;
  has_expanding_array = false;
  value = shown;
  link = "";
}
get_field_value (array_of_plain n) field = record {
  has_expanding_row = false;
  has_expanding_array = true;
  value = "";
  link = field ⧺ ": [" ⧺ show_nat n ⧺ "]";
}
get_field_value (array_of_objects n) field = record {
  has_expanding_row = true;
  has_expanding_array = false;
  value = "";
  link = field ⧺ ": {" ⧺ show_nat n ⧺ "}";
}
get_field_value object field = record {
  has_expanding_row = true;
  has_expanding_array = false;
  value = "";
  link = field ⧺ ": {1}";
}

-- the loop of `renderRows` from an index on, for so many rounds; an index that is out of range is skipped
unfoldable pub rows_from : {A : Type 0} → ℕ → ℕ → List A → List A
rows_from zero item_index items = []
rows_from (suc rounds) item_index items =
    let rest = rows_from rounds (suc item_index) items in
    elim (get_elem? items item_index) [ none ↦ rest | some item ↦ item ∷ rest ]

unfoldable pub render_rows : {A : Type 0} → ℕ → ℕ → List A → List A
unfolding rows_from
render_rows first_item_index last_item_index items =
    rows_from (suc last_item_index - first_item_index) first_item_index items

module _ {J : Type 0} where
  -- `Query.execute` of the search bar, on the contents of the rows
  unfoldable pub search_items :
      (String → List (List (String × Cell J)) → List (List (String × Cell J)))
      → List (DataRow J)
      → String
      → List (DataRow J)
  search_items execute data_rows search_query =
      map (λ row. record { row_id = 0; contents = row })
        (execute search_query (map (λ (r : DataRow J). r.contents) data_rows))

-- `none` stands for the responses that are not loaded.
pub record BodyProps : Type 0 where
  pub language : String
  pub query_results_jdbc : Option String
  pub query_results_csv : Option String
  pub query_results_json : Option String
  pub query_results_text : Option String

pub data Format : Type 0 where
  json jdbc csv text : Format

-- What a click on a download does at once: an error in the modal, or a request if the results are not there and the
-- timer of two seconds after which the file is written.
pub record Download : Type 0 where
  pub error_message : Option String
  pub requests : Bool
  pub sets_timer : Bool

abbrev pub refused : String → Download
refused message = record { error_message = some message; requests = false; sets_timer = false }

abbrev pub is_missing : Option String → Bool
is_missing results = elim (truthy results) [ none ↦ true | some contents ↦ false ]

abbrev pub accepted : Option String → Download
accepted results = record { error_message = none; requests = is_missing results; sets_timer = true }

unfoldable pub on_download_json : BodyProps → Download
on_download_json p =
    if p.language == "PPL"
    then refused "PPL result in JSON format is not supported, please select JDBC format."
    else accepted p.query_results_json

unfoldable pub on_download_jdbc : BodyProps → Download
on_download_jdbc p = accepted p.query_results_jdbc

unfoldable pub on_download_csv : BodyProps → Download
on_download_csv p =
    if p.language == "PPL"
    then refused "PPL result in CSV format is not supported, please select JDBC format."
    else accepted p.query_results_csv

unfoldable pub on_download_text : BodyProps → Download
on_download_text p =
    if p.language == "PPL"
    then refused "PPL result in Text format is not supported, please select JDBC format."
    else accepted p.query_results_text

unfoldable pub build_download_panels : DeploymentCapabilities → List Format
build_download_panels caps =
    let always = jdbc ∷ csv ∷ text ∷ [] in
    if caps.has_dsl_json_format then json ∷ always else always

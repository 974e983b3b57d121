-- ===== src/Results.antt =====
-- getQueryResultsForTable of public/components/Main/main.tsx: from the responses to the tables shown.
-- `none` is an exception; a value of the cluster's is of the type `J`.
pub mod Cells
pub mod Aligned
mod Tests
use dashboards_query_workben.Common.{
  ℕ, zero, suc, String, Bool, true, false, not, ◌&&◌, Option, none, some, List, [], ◌∷◌, map, any,
  if◌then◌else◌, ◌==◌, ◌⧺◌, is_blank, get_or,
}
use dashboards_query_workben.Common.Dict.{insert}
use dashboards_query_workben.Capabilities.{truthy}

pub data Cell (J : Type 0) : Type 0 where
  undefined null dash : Cell J
  value : J → Cell J

pub record Column : Type 0 where
  pub name : String
  pub alias : Option String

-- `none` is a field that is missing.
pub record QueryResponse (J : Type 0) : Type 0 where
  pub schema : Option (List Column)
  pub datarows : Option (List (List (Cell J)))

-- `data` of a response: a text, or an object that needs no parsing.
pub data ResponseBody (J : Type 0) : Type 0 where
  text : String → ResponseBody J
  object : QueryResponse J → ResponseBody J

-- `contents` is `data` in the source, a reserved word here.
pub record ResponseDetail (T : Type 0) : Type 0 where
  pub fulfilled : Bool
  pub error_message : Option String
  pub contents : Option T

pub record DataRow (J : Type 0) : Type 0 where
  pub row_id : ℕ
  pub contents : List (String × Cell J)

pub record QueryResult (J : Type 0) : Type 0 where
  pub fields : List String
  pub records : List (DataRow J)
  pub message : String

pub data QueryType : Type 0 where
  default show describe : QueryType

abbrev pub has_column : String → List Column → Bool
has_column name schema = any (λ c. c.name == name) schema

-- the loop over the schema's columns
unfoldable pub query_type : List Column → QueryType
query_type schema =
    if not (has_column "TABLE_NAME" schema)
    then default
    else if has_column "DATA_TYPE" schema
    then describe
    else show

-- `!alias ? name : alias`
abbrev pub label : Column → String
label c = get_or (truthy c.alias) c.name

abbrev pub shown_cell : {J : Type 0} → Cell J → Cell J
shown_cell null = dash
shown_cell cell = cell

-- `data[idx]`
abbrev pub cell_at : {J : Type 0} → List (Cell J) → ℕ → Cell J
cell_at [] idx = undefined
cell_at (c ∷ cs) zero = c
cell_at (c ∷ cs) (suc idx) = cell_at cs idx

abbrev pub rest_of : {J : Type 0} → List (Cell J) → List (Cell J)
rest_of [] = []
rest_of (c ∷ cs) = cs

-- the loop that fills a row, column by column
unfoldable pub fill_row :
    {J : Type 0} → List String → List (Cell J) → List (String × Cell J) → List (String × Cell J)
fill_row [] cells row = row
fill_row (field ∷ fields) cells row =
    fill_row fields (rest_of cells) (insert field (shown_cell (cell_at cells 0)) row)

-- the index of the column `TABLE_NAME`
unfoldable pub table_name_index : List Column → ℕ
table_name_index [] = 0
table_name_index (c ∷ cs) =
    let later = suc (table_name_index cs) in if c.name == "TABLE_NAME" then 0 else later

-- `datarows.entries()`, each turned into a row
unfoldable pub number_rows :
    {J : Type 0}
    → (List (Cell J) → List (String × Cell J))
    → ℕ
    → List (List (Cell J))
    → List (DataRow J)
number_rows row id [] = []
number_rows row id (cells ∷ rows) =
    record { row_id = id; contents = row cells } ∷ number_rows row (suc id) rows

abbrev pub table_with :
    {J : Type 0}
    → List String
    → (List (Cell J) → List (String × Cell J))
    → List (List (Cell J))
    → QueryResult J
table_with fields row rows = record {
  fields = fields;
  records = number_rows row 0 rows;
  message = "Success";
}

abbrev pub full_table : {J : Type 0} → List Column → List (List (Cell J)) → QueryResult J
full_table schema rows =
    let fields = map label schema in table_with fields (λ cells. fill_row fields cells []) rows

unfoldable pub table_of : {J : Type 0} → List Column → List (List (Cell J)) → QueryResult J
unfolding query_type table_name_index
table_of schema rows = elim (query_type schema) [
  | show ↦
      table_with ("TABLE_NAME" ∷ [])
        (λ cells. ("TABLE_NAME", cell_at cells (table_name_index schema)) ∷ []) rows
  | describe ↦ full_table schema rows
  | default ↦ full_table schema rows
]

-- `JSON.parse` is the platform's, and so is the text of an object.
module _ {J : Type 0} (json_parse : String → Option (QueryResponse J)) (object_text : String) where
  abbrev pub body_text : ResponseBody J → String
  body_text (text s) = s
  body_text (object r) = object_text

  unfoldable pub error_query_response : ResponseDetail (ResponseBody J) → String
  error_query_response detail =
      let message = get_or (truthy detail.error_message) "Unknown error" in
      elim detail.contents [
        | none ↦ message
        | some body ↦
            if is_blank (body_text body) then message else message ⧺ "\n\n" ⧺ body_text body
      ]

  -- the empty text, or another text: it has no schema
  abbrev no_response : QueryResponse J
  no_response = record { schema = none; datarows = none }

  -- `responseObj`
  unfoldable pub response_of : Bool → Option (ResponseBody J) → Option (QueryResponse J)
  response_of true none = none
  response_of true (some body) = elim (json_parse (body_text body)) [
    | none ↦ none
    | some r ↦ some (if is_blank (body_text body) then no_response else r)
  ]
  response_of false none = some no_response
  response_of false (some (text s)) = some no_response
  response_of false (some (object r)) = some r

  abbrev table_of_response : QueryResponse J → Option (QueryResult J)
  table_of_response r = elim r.schema [
    | none ↦ none
    | some schema ↦ elim r.datarows [ none ↦ none | some rows ↦ some (table_of schema rows) ]
  ]

  unfoldable pub result_for_table :
      Bool → ResponseDetail (ResponseBody J) → Option (ResponseDetail (QueryResult J))
  unfolding error_query_response response_of
  result_for_table json_parse_data detail =
      if detail.fulfilled
      then (elim (response_of json_parse_data detail.contents) [
        | none ↦ none
        | some r ↦ elim (table_of_response r) [
          | none ↦ none
          | some table ↦
              some (record { fulfilled = true; error_message = none; contents = some table })
        ]
      ])
      else some (record {
        fulfilled = false;
        error_message = some (error_query_response detail);
        contents = none;
      })

  unfoldable pub get_query_results_for_table :
      List (ResponseDetail (ResponseBody J)) → Bool → Option (List (ResponseDetail (QueryResult J)))
  unfolding result_for_table
  get_query_results_for_table [] json_parse_data = some []
  get_query_results_for_table (detail ∷ details) json_parse_data =
      let rest = get_query_results_for_table details json_parse_data in
      elim (result_for_table json_parse_data detail) [
        | none ↦ none
        | some r ↦ elim rest [ none ↦ none | some rs ↦ some (r ∷ rs) ]
      ]

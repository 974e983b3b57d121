-- ===== src/Results/Tests.antt =====
-- Concrete responses, with texts for values.
use dashboards_query_workben.Common.{
  String, true, false, Option, none, some, List, [], ◌∷◌, ◌≡◌, inl, inr, refl, get_elem?, All, All2,
}
use dashboards_query_workben.Common.Dict.{lookup}
use dashboards_query_workben.Results.{
  Cell, value, null, dash, Column, QueryResponse, ResponseBody, object, ResponseDetail, QueryResult,
  DataRow, get_query_results_for_table, response_of, table_of,
}
use dashboards_query_workben.Results.Cells.{every_cell_is_shown}
use dashboards_query_workben.Results.Aligned.{IsReadable, IsResultOf, results_are_aligned}

abbrev schema : List Column
schema =
    record { name = "status"; alias = none } ∷ record { name = "count(*)"; alias = some "n" } ∷ []

abbrev first_row : List (Cell String)
first_row = value "200" ∷ null ∷ []

abbrev rows : List (List (Cell String))
rows = first_row ∷ (value "404" ∷ value "7" ∷ []) ∷ []

every_cell_is_shown_example :
    (row : DataRow String) × (shown : Cell String) × (get_elem? (table_of schema rows).records 0
      ≡ some row)
    × (row.row_id ≡ 0)
    × (lookup "n" row.contents ≡ some shown)
    × (shown ≡ dash)
every_cell_is_shown_example =
    every_cell_is_shown schema rows first_row 0 1 (record { name = "count(*)"; alias = some "n" })
      "n" refl (refl, (refl, tt)) refl refl refl

abbrev no_parse : String → Option (QueryResponse String)
no_parse s = none

abbrev responses : List (ResponseDetail (ResponseBody String))
responses =
    record { fulfilled = false; error_message = some "Bad Request"; contents = none }
    ∷ record {
      fulfilled = true;
      error_message = none;
      contents = some (object (record { schema = some schema; datarows = some rows }));
    }
    ∷ []

responses-IsReadable : All (IsReadable no_parse "[object Object]" false) responses
unfolding IsReadable response_of
responses-IsReadable = (inl refl, (inr (schema, rows, refl), tt))

results_are_aligned_example :
    (rs : List (ResponseDetail (QueryResult String))) × (get_query_results_for_table no_parse
        "[object Object]" responses false
      ≡ some rs)
    × All2 (IsResultOf no_parse "[object Object]" false) responses rs
results_are_aligned_example =
    results_are_aligned no_parse "[object Object]" false responses responses-IsReadable

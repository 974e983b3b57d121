-- ===== src/Queries/Tests.antt =====
-- A concrete editor.
use dashboards_query_workben.Common.{
  String, [], ◌∷◌, All, ◌≡◌, refl, join, is_space, trim, trim_start, trim_end,
}
use dashboards_query_workben.Queries.{split_queries, collapse_newlines, clean_query, get_queries}
use dashboards_query_workben.Queries.Clean.{IsQuery, get_queries-IsQuery}
use dashboards_query_workben.Queries.RoundTrip.{get_queries-join}

abbrev editor_text : String
editor_text = " SELECT *\r\nFROM logs ;; SHOW TABLES;\n"

test_get_queries : get_queries editor_text ≡ "SELECT * FROM logs" ∷ "SHOW TABLES" ∷ []
unfolding get_queries split_queries clean_query collapse_newlines trim trim_start trim_end is_space
test_get_queries = refl

get_queries-IsQuery_example : All IsQuery (get_queries editor_text)
get_queries-IsQuery_example = get_queries-IsQuery editor_text

get_queries-join_example :
    get_queries (join ";" ("SHOW TABLES" ∷ "SELECT 1" ∷ [])) ≡ "SHOW TABLES" ∷ "SELECT 1" ∷ []
unfolding is_space
get_queries-join_example = get_queries-join ("SHOW TABLES" ∷ "SELECT 1" ∷ []) (
  record { full = refl; starts = refl; ends = refl; one_query = refl; one_line = refl },
  (record { full = refl; starts = refl; ends = refl; one_query = refl; one_line = refl }, tt),
)

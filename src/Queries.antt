-- ===== src/Queries.antt =====
-- public/utils/utils.ts: from the editor's text to the queries that are run.
pub mod Clean
pub mod RoundTrip
mod Tests
use Prim.Native.Char.{Char, code}
use Prim.Native.String
use dashboards_query_workben.Common.{
  ℕ, String, Bool, true, false, not, ◌||◌, List, [], ◌∷◌, map, filter, if◌then◌else◌, eqb, is_blank,
  trim,
}

abbrev pub is_semicolon : ℕ → Bool
is_semicolon c = eqb c b';'

-- `[\r\n]`
abbrev pub is_newline : ℕ → Bool
is_newline c = eqb c 10 || eqb c 13

abbrev pub onto_first : Char → List String → List String
onto_first c [] = String.◌∷◌ c String.[] ∷ []
onto_first c (piece ∷ pieces) = String.◌∷◌ c piece ∷ pieces

-- `.split(';')`
unfoldable pub split_queries : String → List String
split_queries String.[] = "" ∷ []
split_queries (String.◌∷◌ c s) =
    let pieces = split_queries s in
    if is_semicolon (code c) then "" ∷ pieces else onto_first c pieces

-- `.replace(/[\r\n]+/g, ' ')`; the flag is whether the character before was of a run.
unfoldable pub collapse_newlines : Bool → String → String
collapse_newlines in_run String.[] = String.[]
collapse_newlines in_run (String.◌∷◌ c s) =
    let in_line = String.◌∷◌ c (collapse_newlines false s) in
    let after = collapse_newlines true s in
    if is_newline (code c) then if in_run then after else String.◌∷◌ " " after else in_line

unfoldable pub clean_query : String → String
unfolding collapse_newlines
clean_query query = collapse_newlines false (trim query)

unfoldable pub get_queries : String → List String
unfolding split_queries clean_query
get_queries queries_string =
    if is_blank queries_string
    then []
    else filter (λ query. not (is_blank query)) (map clean_query (split_queries queries_string))

-- ===== src/Queries/RoundTrip.antt =====
-- getQueries of public/utils/utils.ts on queries joined with semicolons.
use Prim.Native.Char.{code}
use text.Mathlib.TextLemmas.{nil-append, cons-append}
use dashboards_query_workben.Common.{
  String, Bool, true, false, not, List, [], ◌∷◌, map, filter, is_blank, trim, trim_start, trim_end,
  All, ◌≡◌, refl, arith, Bool-cases, inl, inr, join, ◌⧺◌, ap, ◌∙◌,
}
use dashboards_query_workben.Queries.{
  is_semicolon, split_queries, collapse_newlines, clean_query, get_queries,
}
use dashboards_query_workben.Queries.Clean.{
  starts_solid, ends_solid, in_one_query, on_one_line, IsQuery,
}

solid-trim_start : (s : String) → starts_solid s ≡ true → trim_start s ≡ s
unfolding trim_start
solid-trim_start String.[] h = refl
solid-trim_start (String.◌∷◌ c s) h = ground arith

solid-trim_end : (s : String) → ends_solid s ≡ true → trim_end s ≡ s
unfolding trim_end
solid-trim_end String.[] h = refl
solid-trim_end (String.◌∷◌ c String.[]) h = ground arith
solid-trim_end (String.◌∷◌ c (String.◌∷◌ d s)) h = ground (arith, solid-trim_end (String.◌∷◌ d s))

one_line-collapse : (run : Bool) (s : String) → on_one_line s ≡ true → collapse_newlines run s ≡ s
unfolding collapse_newlines
one_line-collapse run String.[] h = refl
one_line-collapse run (String.◌∷◌ c s) h = ground (arith, one_line-collapse false s)

clean_query_id : (s : String) → IsQuery s → clean_query s ≡ s
unfolding clean_query trim
clean_query_id s q =
    rw (solid-trim_start s q.starts, solid-trim_end s q.ends) (one_line-collapse false s q.one_line)

split_one : (s : String) → in_one_query s ≡ true → split_queries s ≡ s ∷ []
unfolding split_queries
split_one String.[] h = refl
split_one (String.◌∷◌ c s) h = elim (Bool-cases (is_semicolon (code c))) [
  | inl cut ↦ ground arith
  | inr same ↦ rw (same, split_one s (ground arith)) refl
]

split_semicolon : (rest : String) → split_queries (";" ⧺ rest) ≡ "" ∷ split_queries rest
unfolding split_queries
split_semicolon rest = rw (cons-append ";" "" rest, nil-append rest) refl

split_more :
    (s rest : String)
    → in_one_query s ≡ true
    → split_queries (s ⧺ ";" ⧺ rest) ≡ s ∷ split_queries rest
unfolding split_queries
split_more String.[] rest h = rw (nil-append (";" ⧺ rest)) (split_semicolon rest)
split_more (String.◌∷◌ c s) rest h = elim (Bool-cases (is_semicolon (code c))) [
  | inl cut ↦ ground arith
  | inr same ↦ rw (cons-append c s (";" ⧺ rest), same, split_more s rest (ground arith)) refl
]

full-append : (s t : String) → is_blank s ≡ false → is_blank (s ⧺ t) ≡ false
full-append String.[] t h = cc
full-append (String.◌∷◌ c s) t h = rw (cons-append c s t) refl

abbrev kept : List String → List String
kept pieces = filter (λ query. not (is_blank query)) (map clean_query pieces)

kept-first : (q : String) (pieces : List String) → IsQuery q → kept (q ∷ pieces) ≡ q ∷ kept pieces
kept-first q pieces h = rw (clean_query_id q h, h.full) refl

kept-join :
    (q : String) (qs : List String)
    → IsQuery q
    → All IsQuery qs
    → kept (split_queries (join ";" (q ∷ qs))) ≡ q ∷ qs
unfolding join
kept-join q [] h _ = rw (split_one q h.one_query) (kept-first q [] h)
kept-join q (r ∷ rs) h (k, ks) =
    rw (split_more q (join ";" (r ∷ rs)) h.one_query)
      (kept-first q (split_queries (join ";" (r ∷ rs))) h ∙ ap (λ l. q ∷ l) (kept-join r rs k ks))

-- Any list of queries (each with text, on one line, with text at both ends and no semicolon) is what is run when the
-- queries are put into the editor one after the other, with a semicolon between two of them.
pub get_queries-join : (qs : List String) → All IsQuery qs → get_queries (join ";" qs) ≡ qs
unfolding get_queries join
get_queries-join [] h = refl
get_queries-join (q ∷ []) (h, hs) = rw h.full (kept-join q [] h hs)
get_queries-join (q ∷ r ∷ rs) (h, hs) =
    rw (full-append q (";" ⧺ join ";" (r ∷ rs)) h.full) (kept-join q (r ∷ rs) h hs)

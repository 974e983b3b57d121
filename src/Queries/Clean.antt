-- ===== src/Queries/Clean.antt =====
-- getQueries of public/utils/utils.ts: what a query that is run looks like.
use Prim.Native.Char.{Char, code}
use dashboards_query_workben.Common.{
  ℕ, String, Bool, true, false, not, List, [], ◌∷◌, map, filter, if◌then◌else◌, is_blank, trim,
  trim_start, trim_end, is_space, every, All, ◌≡◌, refl, arith, Bool-cases, inl, inr,
}
use dashboards_query_workben.Queries.{
  is_semicolon, is_newline, onto_first, split_queries, collapse_newlines, clean_query, get_queries,
}

-- The first character, if there is one, is not white space.
abbrev pub starts_solid : String → Bool
starts_solid String.[] = true
starts_solid (String.◌∷◌ c s) = not (is_space (code c))

-- Nor is the last.
abbrev pub ends_solid : String → Bool
ends_solid String.[] = true
ends_solid (String.◌∷◌ c s) =
    let rest = ends_solid s in if is_blank s then not (is_space (code c)) else rest

abbrev pub in_one_query : String → Bool
in_one_query s = every (λ c. not (is_semicolon c)) s

abbrev pub on_one_line : String → Bool
on_one_line s = every (λ c. not (is_newline c)) s

-- A query on one line, with text at both ends and no semicolon.
pub record IsQuery (s : String) : Type 0 where
  pub full : is_blank s ≡ false
  pub starts : starts_solid s ≡ true
  pub ends : ends_solid s ≡ true
  pub one_query : in_one_query s ≡ true
  pub one_line : on_one_line s ≡ true

newline-is_space : (c : ℕ) → is_newline c ≡ true → is_space c ≡ true
unfolding is_space
newline-is_space c h = ground arith

trim_start-starts_solid : (s : String) → starts_solid (trim_start s) ≡ true
unfolding trim_start
trim_start-starts_solid String.[] = refl
trim_start-starts_solid (String.◌∷◌ c s) = ground (arith, trim_start-starts_solid s)

trim_end-starts_solid : (s : String) → starts_solid s ≡ true → starts_solid (trim_end s) ≡ true
unfolding trim_end
trim_end-starts_solid String.[] h = refl
trim_end-starts_solid (String.◌∷◌ c s) h = ground arith

trim_end-ends_solid : (s : String) → ends_solid (trim_end s) ≡ true
unfolding trim_end
trim_end-ends_solid String.[] = refl
trim_end-ends_solid (String.◌∷◌ c s) = ground (arith, trim_end-ends_solid s)

collapse-starts_solid :
    (run : Bool) (s : String)
    → starts_solid s ≡ true
    → starts_solid (collapse_newlines run s) ≡ true
unfolding collapse_newlines
collapse-starts_solid run String.[] h = refl
collapse-starts_solid run (String.◌∷◌ c s) h = ground (arith, newline-is_space (code c))

collapse-full :
    (run : Bool) (s : String)
    → is_blank s ≡ false
    → ends_solid s ≡ true
    → is_blank (collapse_newlines run s) ≡ false
unfolding collapse_newlines
collapse-full run String.[] f h = cc
collapse-full run (String.◌∷◌ c s) f h =
    ground (arith, newline-is_space (code c), collapse-full true s)

collapse-ends_solid :
    (run : Bool) (s : String) → ends_solid s ≡ true → ends_solid (collapse_newlines run s) ≡ true
unfolding collapse_newlines
collapse-ends_solid run String.[] h = refl
collapse-ends_solid run (String.◌∷◌ c String.[]) h = ground (arith, newline-is_space (code c))
collapse-ends_solid run (String.◌∷◌ c (String.◌∷◌ d s)) h = ground (
  arith,
  collapse-ends_solid true (String.◌∷◌ d s),
  collapse-ends_solid false (String.◌∷◌ d s),
  collapse-full true (String.◌∷◌ d s),
  collapse-full false (String.◌∷◌ d s),
)

collapse-on_one_line : (run : Bool) (s : String) → on_one_line (collapse_newlines run s) ≡ true
unfolding collapse_newlines
collapse-on_one_line run String.[] = refl
collapse-on_one_line run (String.◌∷◌ c s) =
    ground (arith, collapse-on_one_line true s, collapse-on_one_line false s)

collapse-in_one_query :
    (run : Bool) (s : String)
    → in_one_query s ≡ true
    → in_one_query (collapse_newlines run s) ≡ true
unfolding collapse_newlines
collapse-in_one_query run String.[] h = refl
collapse-in_one_query run (String.◌∷◌ c s) h =
    ground (arith, collapse-in_one_query true s, collapse-in_one_query false s)

trim_start-in_one_query : (s : String) → in_one_query s ≡ true → in_one_query (trim_start s) ≡ true
unfolding trim_start
trim_start-in_one_query String.[] h = refl
trim_start-in_one_query (String.◌∷◌ c s) h = ground (arith, trim_start-in_one_query s)

trim_end-in_one_query : (s : String) → in_one_query s ≡ true → in_one_query (trim_end s) ≡ true
unfolding trim_end
trim_end-in_one_query String.[] h = refl
trim_end-in_one_query (String.◌∷◌ c s) h = ground (arith, trim_end-in_one_query s)

onto_first-in_one_query :
    (c : Char) (pieces : List String)
    → is_semicolon (code c) ≡ false
    → All (λ p. in_one_query p ≡ true) pieces
    → All (λ p. in_one_query p ≡ true) (onto_first c pieces)
onto_first-in_one_query c [] n h = (ground arith, tt)
onto_first-in_one_query c (p ∷ ps) n (h, hs) = (ground arith, hs)

split_queries-in_one_query : (s : String) → All (λ p. in_one_query p ≡ true) (split_queries s)
unfolding split_queries
split_queries-in_one_query String.[] = (refl, tt)
split_queries-in_one_query (String.◌∷◌ c s) = elim (Bool-cases (is_semicolon (code c))) [
  | inl cut ↦ rw cut (refl, split_queries-in_one_query s)
  | inr same ↦
      rw same (onto_first-in_one_query c (split_queries s) same (split_queries-in_one_query s))
]

clean_query-IsQuery :
    (s : String)
    → in_one_query s ≡ true
    → is_blank (clean_query s) ≡ false
    → IsQuery (clean_query s)
unfolding clean_query trim
clean_query-IsQuery s one full =
    let t = trim_start s in
    record {
      full = full;
      starts =
          collapse-starts_solid false (trim_end t)
            (trim_end-starts_solid t (trim_start-starts_solid s));
      ends = collapse-ends_solid false (trim_end t) (trim_end-ends_solid t);
      one_query =
          collapse-in_one_query false (trim_end t)
            (trim_end-in_one_query t (trim_start-in_one_query s one));
      one_line = collapse-on_one_line false (trim_end t);
    }

cleaned-IsQuery :
    (pieces : List String)
    → All (λ p. in_one_query p ≡ true) pieces
    → All IsQuery (filter (λ query. not (is_blank query)) (map clean_query pieces))
cleaned-IsQuery [] h = tt
cleaned-IsQuery (p ∷ ps) (one, h) = elim (Bool-cases (is_blank (clean_query p))) [
  | inl blank ↦ rw blank (cleaned-IsQuery ps h)
  | inr full ↦ rw full (clean_query-IsQuery p one full, cleaned-IsQuery ps h)
]

-- Whatever is in the editor, each query that is run has text, holds no semicolon and no line break, and neither
-- begins nor ends with white space.
pub get_queries-IsQuery : (queries_string : String) → All IsQuery (get_queries queries_string)
unfolding get_queries
get_queries-IsQuery queries_string = elim (Bool-cases (is_blank queries_string)) [
  | inl blank ↦ rw blank tt
  | inr full ↦
      rw full
        (cleaned-IsQuery (split_queries queries_string) (split_queries-in_one_query queries_string))
]

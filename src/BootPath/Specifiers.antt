-- ===== src/BootPath/Specifiers.antt =====
-- The relative specifiers of a source: SPECIFIER_RE of scripts/check_server_imports.js, applied by `matchAll`.
use Prim.Native.Char.{code}
use Prim.Native.String.{String, ◌∷◌}
use dashboards_query_workben.Common.{
  ℕ, zero, suc, ◌-◌, Bool, false, ◌&&◌, ◌||◌, Option, none, some, if◌then◌else◌, leb, eqb, is_space,
  trim_start,
}
use dashboards_query_workben.Common.Search.{starts_with, drop_as}
use mathlib.Core.List.{List}

-- `\w`
abbrev is_word : ℕ → Bool
is_word c =
    (leb b'a' c && leb c b'z')
    || (leb b'A' c && leb c b'Z')
    || (leb b'0' c && leb c b'9')
    || eqb c b'_'

abbrev is_quote : ℕ → Bool
is_quote c = eqb c b'\'' || eqb c b'"'

-- `[^'"]*['"]`: the text before the next quote, with what follows the quote
abbrev until_quote : String → Option (String × String)
until_quote String.[] = none
until_quote (c ∷ s) =
    let more = until_quote s in
    if is_quote (code c)
    then some (String.[], s)
    else elim more [ none ↦ none | some (inside, after) ↦ some (c ∷ inside, after) ]

-- `['"](\.[^'"]*)['"]`
abbrev dotted : String → Option (String × String)
dotted (q ∷ (c ∷ s)) =
    if is_quote (code q) && eqb (code c) b'.'
    then elim (until_quote s) [ none ↦ none | some (inside, after) ↦ some (c ∷ inside, after) ]
    else none
dotted s = none

-- `\s*\(\s*`, then the quoted text
abbrev in_bracket : String → Option (String × String)
in_bracket String.[] = none
in_bracket (c ∷ s) = if eqb (code c) b'(' then dotted (trim_start s) else none

-- A match that begins where `s` does.
unfoldable pub specifier_at : String → Option (String × String)
unfolding trim_start is_space
specifier_at s =
    if starts_with "from" s
    then dotted (trim_start (drop_as "from" s))
    else if starts_with "require" s
    then in_bracket (trim_start (drop_as "require" s))
    else if starts_with "import" s
    then in_bracket (trim_start (drop_as "import" s))
    else none

abbrev text_length : String → ℕ
text_length String.[] = 0
text_length (c ∷ s) = suc (text_length s)

-- The matches from here on: whether the character before is of `\w`, and how many are still part of a match.
unfoldable pub specifiers_from : Bool → ℕ → String → List String
unfolding specifier_at
specifiers_from in_word skip String.[] = List.[]
specifiers_from in_word (suc skip) (c ∷ s) = specifiers_from (is_word (code c)) skip s
specifiers_from in_word zero (c ∷ s) = elim (if in_word then none else specifier_at (c ∷ s)) [
  | none ↦ specifiers_from (is_word (code c)) zero s
  | some (specifier, after) ↦
      List.◌∷◌ specifier (specifiers_from (is_word (code c)) (text_length s - text_length after) s)
]

unfoldable pub specifiers : String → List String
unfolding specifiers_from
specifiers source = specifiers_from false zero source

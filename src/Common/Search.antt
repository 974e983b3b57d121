-- ===== src/Common/Search.antt =====
-- JavaScript's search in texts: startsWith, endsWith, includes and the replacement of a first occurrence.
use Prim.Native.Char.{code}
use Prim.Native.String.{String, [], ◌∷◌}
use text.Mathlib.Text.{◌==◌}
use mathlib.Core.Bool.{Bool, true, false, ◌||◌}
use dashboards_query_workben.Common.Tests.{if◌then◌else◌, eqb}
use dashboards_query_workben.Common.Texts.{◌⧺◌}

-- `s.startsWith(p)`, the text that is sought first
abbrev pub starts_with : String → String → Bool
starts_with [] s = true
starts_with (c ∷ p) [] = false
starts_with (c ∷ p) (d ∷ s) = let rest = starts_with p s in if c ∷ [] == d ∷ [] then rest else false

-- `s.includes(p)`
abbrev pub includes : String → String → Bool
includes p [] = starts_with p []
includes p (d ∷ s) = starts_with p (d ∷ s) || includes p s

-- `s` without as many characters as `p` has
abbrev pub drop_as : String → String → String
drop_as [] s = s
drop_as (c ∷ p) [] = []
drop_as (c ∷ p) (d ∷ s) = drop_as p s

-- `s.replace(p, r)` for a text `r` without dollar signs
abbrev pub replace_first : String → String → String → String
replace_first p r [] = if starts_with p [] then r else []
replace_first p r (d ∷ s) =
    let rest = replace_first p r s in
    if starts_with p (d ∷ s) then r ⧺ drop_as p (d ∷ s) else d ∷ rest

-- `s.endsWith("/")` and `s.slice(0, -1)` in one: the text without a slash at its end
abbrev pub without_last_slash : String → String
without_last_slash [] = []
without_last_slash (c ∷ []) = if eqb (code c) b'/' then [] else c ∷ []
without_last_slash (c ∷ d ∷ s) = c ∷ without_last_slash (d ∷ s)

-- ===== src/Common/Spaces.antt =====
-- What `trim` leaves of white space.
use Prim.Native.String.{String, [], ◌∷◌}
use mathlib.Core.Path.{◌≡◌, refl, ◌∙◌}
use native.Mathlib.Omega.{arith}
use dashboards_query_workben.Common.Texts.{every, is_blank, is_space, trim_start, trim_end, trim}

every-trim_start : (s : String) → every is_space (trim_start s) ≡ every is_space s
unfolding trim_start
every-trim_start [] = refl
every-trim_start (c ∷ s) = ground (arith, every-trim_start s)

is_blank-trim_end : (s : String) → is_blank (trim_end s) ≡ every is_space s
unfolding trim_end
is_blank-trim_end [] = refl
is_blank-trim_end (c ∷ s) = ground (arith, is_blank-trim_end s)

pub is_blank-trim : (s : String) → is_blank (trim s) ≡ every is_space s
unfolding trim
is_blank-trim s = is_blank-trim_end (trim_start s) ∙ every-trim_start s

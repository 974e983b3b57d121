-- ===== src/Capabilities/Samples.antt =====
-- A `semver` whose versions are dotted numbers, and sample versions.
use Prim.Native.Char.{code}
use dashboards_query_workben.Common.{
  ℕ, ◌+◌, ◌-◌, ◌*◌, String, Bool, false, ◌&&◌, Option, none, some, refl, arith, if◌then◌else◌, eqb,
  leb, ltb,
}
use dashboards_query_workben.Capabilities.{Semver, SemverLaws, Coerced}

abbrev is_digit : ℕ → Bool
is_digit c = leb b'0' c && leb c b'9'

-- `2.11.0` as 2011000, `2.11.0`'s parts so far and the part being read
abbrev pub rank_from : ℕ → ℕ → String → ℕ
rank_from done part String.[] = done + part
rank_from done part (String.◌∷◌ c s) =
    let next = rank_from done (part * 10 + (code c - b'0')) s in
    let jump = rank_from ((done + part) * 1000) 0 s in
    if is_digit (code c) then next else if eqb (code c) b'.' then jump else done + part

unfoldable pub rank : String → ℕ
rank version = rank_from 0 0 version

abbrev pub major_from : ℕ → String → ℕ
major_from part String.[] = part
major_from part (String.◌∷◌ c s) =
    let next = major_from (part * 10 + (code c - b'0')) s in
    if is_digit (code c) then next else part

abbrev starts_with_digit : String → Bool
starts_with_digit String.[] = false
starts_with_digit (String.◌∷◌ c s) = is_digit (code c)

abbrev sample_coerce : String → Option Coerced
sample_coerce raw =
    if starts_with_digit raw
    then some (record { version = raw; major = major_from 0 raw })
    else none

unfoldable pub sample_semver : Semver
unfolding rank
sample_semver = record {
  coerce = sample_coerce;
  gte = λ a b. leb (rank b) (rank a);
  lt = λ a b. ltb (rank a) (rank b);
}

pub sample_semver-SemverLaws : SemverLaws sample_semver
unfolding sample_semver rank
sample_semver-SemverLaws = record {
  gte_trans = λ a b c h k. ground arith;
  lt_not_gte = λ raw c b h. ground arith;
  gte_12_11 = refl;
  gte_13_12 = refl;
}

-- ===== src/Common/ParseInt.antt =====
-- `parseInt(text, 10)` of JavaScript: blanks, a sign, and the digits that follow.
use Prim.Native.Char.{Char, code}
use Prim.Native.String.{String}
use Prim.Native.Nat.{ℕ, zero, suc, ◌+◌, ◌*◌, ◌-◌, ◌/◌, ◌%◌, ◌<◌}
use mathlib.Core.Bool.{Bool, true, false, ◌&&◌}
use mathlib.Core.Logic.{inl, inr}
use mathlib.Core.Path.{◌≡◌, refl, ◌∙◌, ap, sym}
use native.Mathlib.Omega.{arith}
use text.Mathlib.TextLemmas.{append_assoc, append-nil, cons-append, nil-append}
use dashboards_query_workben.Common.Tests.{ltb, leb, eqb, if◌then◌else◌, Bool-cases}
use dashboards_query_workben.Common.Texts.{◌⧺◌, is_space, trim_start}
use dashboards_query_workben.Common.Numbers.{
  Number, nan, int, pos, negsuc, digit, show_digits, show_nat,
}

abbrev is_digit : ℕ → Bool
is_digit c = leb 48 c && leb c 57

-- the digits up to the first other character, after a number that is already read
unfoldable pub read_digits : ℕ → String → ℕ
read_digits read String.[] = read
read_digits read (String.◌∷◌ c s) =
    let more = read_digits (10 * read + (code c - 48)) s in if is_digit (code c) then more else read

abbrev pub starts_with_digit : String → Bool
starts_with_digit String.[] = false
starts_with_digit (String.◌∷◌ c s) = is_digit (code c)

abbrev positive : String → Number
positive s = if starts_with_digit s then int (pos (read_digits 0 s)) else nan

abbrev negative_of : ℕ → Number
negative_of zero = int (pos 0)
negative_of (suc n) = int (negsuc n)

abbrev negative : String → Number
negative s = if starts_with_digit s then negative_of (read_digits 0 s) else nan

abbrev signed : String → Number
signed String.[] = nan
signed (String.◌∷◌ c s) =
    if eqb (code c) 45
    then negative s
    else if eqb (code c) 43
    then positive s
    else positive (String.◌∷◌ c s)

unfoldable pub parse_int : String → Number
unfolding trim_start is_space read_digits
parse_int s = signed (trim_start s)

module _ {ℓ} (P : ℕ → Type ℓ) where
  by_digit : P 0 → P 1 → P 2 → P 3 → P 4 → P 5 → P 6 → P 7 → P 8 → P 9 → (d : ℕ) → d < 10 → P d
  by_digit p0 p1 p2 p3 p4 p5 p6 p7 p8 p9 zero h = p0
  by_digit p0 p1 p2 p3 p4 p5 p6 p7 p8 p9 (suc zero) h = p1
  by_digit p0 p1 p2 p3 p4 p5 p6 p7 p8 p9 (suc (suc zero)) h = p2
  by_digit p0 p1 p2 p3 p4 p5 p6 p7 p8 p9 (suc (suc (suc zero))) h = p3
  by_digit p0 p1 p2 p3 p4 p5 p6 p7 p8 p9 (suc (suc (suc (suc zero)))) h = p4
  by_digit p0 p1 p2 p3 p4 p5 p6 p7 p8 p9 (suc (suc (suc (suc (suc zero))))) h = p5
  by_digit p0 p1 p2 p3 p4 p5 p6 p7 p8 p9 (suc (suc (suc (suc (suc (suc zero)))))) h = p6
  by_digit p0 p1 p2 p3 p4 p5 p6 p7 p8 p9 (suc (suc (suc (suc (suc (suc (suc zero))))))) h = p7
  by_digit p0 p1 p2 p3 p4 p5 p6 p7 p8 p9 (suc (suc (suc (suc (suc (suc (suc (suc zero)))))))) h = p8
  by_digit p0 p1 p2 p3 p4 p5 p6 p7 p8 p9 (suc (suc (suc (suc (suc (suc (suc (suc (suc zero)))))))))
        h =
      p9
  by_digit p0 p1 p2 p3 p4 p5 p6 p7 p8 p9
        (suc (suc (suc (suc (suc (suc (suc (suc (suc (suc n)))))))))) h =
      absurd (omega arith)

-- A digit is read as its value.
module _ (read : ℕ) (t : String) where
  read_one :
      (c : Char) (d : ℕ)
      → code c ≡ 48 + d
      → d < 10
      → read_digits read (String.◌∷◌ c String.[] ⧺ t) ≡ read_digits (10 * read + d) t
  unfolding read_digits
  read_one c d e h =
      let value : 10 * read + (code c - 48) ≡ 10 * read + d = omega arith in
      rw (cons-append c String.[] t, nil-append t, value) (ground arith)

  read_digits-digit :
      (d : ℕ) → d < 10 → read_digits read (digit d ⧺ t) ≡ read_digits (10 * read + d) t
  read_digits-digit =
      by_digit (λ d. read_digits read (digit d ⧺ t) ≡ read_digits (10 * read + d) t)
        (read_one "0" 0 refl (omega arith)) (read_one "1" 1 refl (omega arith))
        (read_one "2" 2 refl (omega arith)) (read_one "3" 3 refl (omega arith))
        (read_one "4" 4 refl (omega arith)) (read_one "5" 5 refl (omega arith))
        (read_one "6" 6 refl (omega arith)) (read_one "7" 7 refl (omega arith))
        (read_one "8" 8 refl (omega arith)) (read_one "9" 9 refl (omega arith))

-- The digits of a number are read back as the number.
read_digits-show_digits :
    (fuel n : ℕ) (t : String) → n < fuel → read_digits 0 (show_digits fuel n ⧺ t) ≡ read_digits n t
unfolding show_digits
read_digits-show_digits zero n t h = absurd (omega (arith, h))
read_digits-show_digits (suc fuel) n t h = elim (Bool-cases (ltb n 10)) [
  | inl small ↦
      rw small (read_digits-digit 0 t n (ground arith) ∙ ap (λ m. read_digits m t) (omega arith))
  | inr large ↦
      rw
        (
          large,
          append_assoc (show_digits fuel (n / 10)) (digit (n % 10)) t,
          read_digits-show_digits fuel (n / 10) (digit (n % 10) ⧺ t) (ground arith),
          read_digits-digit (n / 10) t (n % 10) (omega arith),
        )
        (ap (λ m. read_digits m t) (omega arith))
]

starts_with_digit-append :
    (s t : String) → starts_with_digit s ≡ true → starts_with_digit (s ⧺ t) ≡ true
starts_with_digit-append String.[] t h = cc
starts_with_digit-append (String.◌∷◌ c s) t h = rw (cons-append c s t) h

starts_with_digit-digit : (d : ℕ) → d < 10 → starts_with_digit (digit d) ≡ true
starts_with_digit-digit =
    by_digit (λ d. starts_with_digit (digit d) ≡ true) refl refl refl refl refl refl refl refl refl
      refl

starts_with_digit-show_digits :
    (fuel n : ℕ) → n < fuel → starts_with_digit (show_digits fuel n) ≡ true
unfolding show_digits
starts_with_digit-show_digits zero n h = absurd (omega (arith, h))
starts_with_digit-show_digits (suc fuel) n h = elim (Bool-cases (ltb n 10)) [
  | inl small ↦ rw small (starts_with_digit-digit n (ground arith))
  | inr large ↦ rw large (
      starts_with_digit-append (show_digits fuel (n / 10)) (digit (n % 10))
        (starts_with_digit-show_digits fuel (n / 10) (ground arith)))
]

-- A text that starts with a digit has no blank to drop and no sign.
parse_int_of_digit :
    (s : String) → starts_with_digit s ≡ true → parse_int s ≡ int (pos (read_digits 0 s))
unfolding parse_int trim_start is_space
parse_int_of_digit String.[] h = cc
parse_int_of_digit (String.◌∷◌ c s) h = ground arith

pub parse_int-show_nat : (n : ℕ) → parse_int (show_nat n) ≡ int (pos n)
unfolding show_nat read_digits
parse_int-show_nat n =
    parse_int_of_digit (show_nat n) (starts_with_digit-show_digits (suc n) n (omega arith))
    ∙ ap (λ m. int (pos m))
        (sym (ap (read_digits 0) (append-nil (show_digits (suc n) n)))
          ∙ read_digits-show_digits (suc n) n "" (omega arith))

runs : parse_int " -120px" ≡ int (negsuc 119)
unfolding parse_int
runs = refl

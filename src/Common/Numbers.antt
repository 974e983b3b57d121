-- ===== src/Common/Numbers.antt =====
-- JavaScript numbers as the forms hold them: what `parseInt` returns, an integer or `NaN`.
use Prim.Native.Nat.{◌<◌, ℕ, zero, suc, ◌/◌, ◌%◌, ◌≤◌}
use Prim.Native.String.{String}
use mathlib.Core.Bool.{Bool, true, false}
use mathlib.Core.List.{List, [], ◌∷◌}
use dashboards_query_workben.Common.Tests.{ltb, if◌then◌else◌, get_or, Bool-cases}
use mathlib.Core.Path.{◌≡◌, refl}
use mathlib.Core.Logic.{inl, inr}
use native.Mathlib.Omega.{arith}
use dashboards_query_workben.Common.Lists.{get_elem?}
use dashboards_query_workben.Common.Texts.{◌⧺◌}

-- `negsuc n` is -(n + 1).
pub data ℤ : Type 0 where
  pos negsuc : ℕ → ℤ

pub data Number : Type 0 where
  nan : Number
  int : ℤ → Number

-- `n < k`; every comparison with `NaN` is false.
abbrev pub less : Number → ℕ → Bool
less nan k = false
less (int (pos n)) k = ltb n k
less (int (negsuc n)) k = true

-- `n > k`
abbrev pub greater : Number → ℕ → Bool
greater nan k = false
greater (int (pos n)) k = ltb k n
greater (int (negsuc n)) k = false

-- Not smaller than `k`, which `NaN` is not either.
abbrev pub NotBelow : ℕ → Number → Type 0
NotBelow k nan = Unit
NotBelow k (int (pos n)) = k ≤ n
NotBelow k (int (negsuc n)) = ⊥

abbrev pub digit_texts : List String
digit_texts = "0" ∷ "1" ∷ "2" ∷ "3" ∷ "4" ∷ "5" ∷ "6" ∷ "7" ∷ "8" ∷ "9" ∷ []

abbrev pub digit : ℕ → String
digit d = get_or (get_elem? digit_texts d) ""

-- Decimal digits; the fuel bounds their number, and a number is enough for itself.
unfoldable pub show_digits : ℕ → ℕ → String
show_digits zero n = ""
show_digits (suc fuel) n =
    let more = show_digits fuel (n / 10) ⧺ digit (n % 10) in if ltb n 10 then digit n else more

unfoldable pub show_nat : ℕ → String
unfolding show_digits
show_nat n = show_digits (suc n) n

-- `String(n)`, as a template shows it.
unfoldable pub show : Number → String
unfolding show_nat
show nan = "NaN"
show (int (pos n)) = show_nat n
show (int (negsuc n)) = "-" ⧺ show_nat (suc n)

-- Any fuel above the number gives the same digits.
show_digits-fuel : (f g n : ℕ) → n < f → n < g → show_digits f n ≡ show_digits g n
unfolding show_digits
show_digits-fuel zero g n h k = absurd (omega (arith, h))
show_digits-fuel (suc f) zero n h k = absurd (omega (arith, k))
show_digits-fuel (suc f) (suc g) n h k = elim (Bool-cases (ltb n 10)) [
  | inl small ↦ rw small refl
  | inr large ↦ rw (large, show_digits-fuel f g (n / 10) (ground arith) (ground arith)) refl
]

-- So the fuel that `show_nat` gives is enough.
show_nat-fuel : (f n : ℕ) → n < f → show_digits f n ≡ show_nat n
unfolding show_nat
show_nat-fuel f n h = show_digits-fuel f (suc n) n h (omega arith)

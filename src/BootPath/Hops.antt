-- ===== src/BootPath/Hops.antt =====
-- What one import leads to, and sets of files as lists.
use dashboards_query_workben.Common.{
  ℕ, suc, ◌≤◌, String, Bool, true, false, some, List, [], ◌∷◌, ◌++◌, ◌≡◌, refl, ◌↔◌, ◌⊎◌, inl, inr,
  arith, if◌then◌else◌, ◌==◌, eq_iff, find, length, Bool-cases,
}
use dashboards_query_workben.Common.Dict.{lookup}
use dashboards_query_workben.BootPath.{
  Shipped, is_shipped, has, resolve_within, plain_candidates, index_candidates,
}

pub has-concat :
    (g x : String) (xs : List String)
    → (has g (xs ++ (x ∷ [])) ≡ true) ↔ ((has g xs ≡ true) ⊎ (x ≡ g))
has-concat g x [] = ground (arith, eq_iff x g)
has-concat g x (y ∷ ys) = ground (arith, has-concat g x ys)

pub find-holds :
    (p : String → Bool) (xs : List String) (x : String) → find p xs ≡ some x → p x ≡ true
find-holds p [] x h = cc
find-holds p (y ∷ ys) x h = elim (Bool-cases (p y)) [
  | inl yes_ ↦ ground (arith, yes_)
  | inr no_ ↦ find-holds p ys x (rw no_ at h)
]

pub resolve_within-shipped :
    (shipped : Shipped) (target file : String)
    → resolve_within shipped target ≡ some file
    → is_shipped file shipped ≡ true
unfolding resolve_within
resolve_within-shipped shipped target file h = ground (
  arith,
  find-holds (λ (c : String). is_shipped c shipped) (plain_candidates target) file,
  find-holds (λ (c : String). is_shipped c shipped) (index_candidates target) file,
)

pub is_shipped-lookup :
    (file : String) (shipped : Shipped)
    → is_shipped file shipped ≡ true
    → (source : String) × (lookup file shipped ≡ some source)
unfolding lookup
is_shipped-lookup file [] h = absurd (cc)
is_shipped-lookup file ((own, source) ∷ rest) h = elim (Bool-cases (own == file)) [
  | inl same ↦ (source, rw same)
  | inr other ↦ let (later, e) = is_shipped-lookup file rest (ground arith) in (later, rw other e)
]

-- The files that are shipped and not yet visited.
abbrev pub unseen : Shipped → List String → ℕ
unseen [] visited = 0
unseen (file ∷ rest) visited =
    let others = unseen rest visited in if has file.0 visited then others else suc others

pub unseen-concat-le :
    (shipped : Shipped) (visited : List String) (g : String)
    → unseen shipped (visited ++ (g ∷ [])) ≤ unseen shipped visited
unseen-concat-le [] visited g = omega arith
unseen-concat-le (file ∷ rest) visited g =
    ground (arith, unseen-concat-le rest visited g, has-concat file.0 g visited)

pub unseen-concat-lt :
    (shipped : Shipped) (visited : List String) (g : String)
    → is_shipped g shipped ≡ true
    → has g visited ≡ false
    → suc (unseen shipped (visited ++ (g ∷ []))) ≤ unseen shipped visited
unseen-concat-lt [] visited g h n = absurd (cc)
unseen-concat-lt (file ∷ rest) visited g h n = ground (
  arith,
  unseen-concat-lt rest visited g,
  unseen-concat-le rest visited g,
  has-concat file.0 g visited,
  eq_iff file.0 g,
)

pub unseen-le-length :
    (shipped : Shipped) (visited : List String) → unseen shipped visited ≤ length shipped
unseen-le-length [] visited = omega arith
unseen-le-length (file ∷ rest) visited = ground (arith, unseen-le-length rest visited)

pub unseen-entry-lt :
    (shipped : Shipped) (entry : String)
    → is_shipped entry shipped ≡ true
    → suc (unseen shipped (entry ∷ [])) ≤ length shipped
unseen-entry-lt shipped entry h =
    omega (arith, unseen-concat-lt shipped [] entry h refl, unseen-le-length shipped [])

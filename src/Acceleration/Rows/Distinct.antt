-- ===== src/Acceleration/Rows/Distinct.antt =====
-- visual_editors/skipping_index/: rows without repetition.
use dashboards_query_workben.Common.{
  String, Bool, false, List, [], ◌∷◌, ◌++◌, map, ◌≡◌, refl, arith, if◌then◌else◌, ◌==◌, any, filter,
  All, Bool-cases, inl, inr,
}
use dashboards_query_workben.Acceleration.Types.{SkippingIndexRowType, SkippingIndexAccMethodType}

abbrev pub has_id : String → List SkippingIndexRowType → Bool
has_id id rows = any (λ y. y.id == id) rows

-- No two rows have one id.
abbrev pub Distinct : List SkippingIndexRowType → Type 0
Distinct [] = Unit
Distinct (x ∷ xs) = (has_id x.id xs ≡ false) × Distinct xs

has_id-filter :
    (p : SkippingIndexRowType → Bool) (id : String) (rows : List SkippingIndexRowType)
    → has_id id rows ≡ false
    → has_id id (filter p rows) ≡ false
has_id-filter p id [] h = refl
has_id-filter p id (x ∷ xs) h = ground (arith, has_id-filter p id xs)

pub filter-Distinct :
    (p : SkippingIndexRowType → Bool) (rows : List SkippingIndexRowType)
    → Distinct rows
    → Distinct (filter p rows)
filter-Distinct p [] h = tt
filter-Distinct p (x ∷ xs) (new, h) = elim (Bool-cases (p x)) [
  | inl keep ↦ rw keep (has_id-filter p x.id xs new, filter-Distinct p xs h)
  | inr drop ↦ rw drop (filter-Distinct p xs h)
]

abbrev pub changed :
    SkippingIndexAccMethodType → String → SkippingIndexRowType → SkippingIndexRowType
changed method id row = if row.id == id then record row { acceleration_method = method } else row

has_id-changed :
    (method : SkippingIndexAccMethodType) (k id : String) (rows : List SkippingIndexRowType)
    → has_id id (map (changed method k) rows) ≡ has_id id rows
has_id-changed method k id [] = refl
has_id-changed method k id (x ∷ xs) = ground (arith, has_id-changed method k id xs)

pub changed-Distinct :
    (method : SkippingIndexAccMethodType) (k : String) (rows : List SkippingIndexRowType)
    → Distinct rows
    → Distinct (map (changed method k) rows)
changed-Distinct method k [] h = tt
changed-Distinct method k (x ∷ xs) (new, h) =
    (ground (arith, has_id-changed method k x.id xs), changed-Distinct method k xs h)

has_id-append :
    (id : String) (xs ys : List SkippingIndexRowType)
    → has_id id xs ≡ false
    → has_id id ys ≡ false
    → has_id id (xs ++ ys) ≡ false
has_id-append id [] ys h k = k
has_id-append id (x ∷ xs) ys h k = ground (arith, has_id-append id xs ys)

-- None of the second rows is among the first.
abbrev pub Apart : List SkippingIndexRowType → List SkippingIndexRowType → Type 0
Apart xs ys = All (λ x. has_id x.id ys ≡ false) xs

pub append-Distinct :
    (xs ys : List SkippingIndexRowType)
    → Distinct xs
    → Distinct ys
    → Apart xs ys
    → Distinct (xs ++ ys)
append-Distinct [] ys h k a = k
append-Distinct (x ∷ xs) ys (new, h) k (apart, a) =
    (has_id-append x.id xs ys new apart, append-Distinct xs ys h k a)

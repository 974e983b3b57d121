-- ===== src/ResultsBody/Pages.antt =====
-- renderRows of public/components/QueryResults/QueryResultsBody.tsx, page by page.
use Prim.Native.Nat.{min}
use dashboards_query_workben.Common.{
  ℕ, zero, suc, ◌+◌, ◌-◌, ◌*◌, ◌≤◌, none, some, List, [], ◌∷◌, ◌++◌, length, get_elem?, ◌≡◌, refl,
  arith, ap, ◌∙◌, sym, Option-cases, inl, inr,
}
use dashboards_query_workben.ResultsBody.{rows_from, render_rows}

-- What the documentation of Elastic UI's `Pager` says of the first and the last index of each page, with so many
-- items to a page, where there are items; the last page may be shorter.
pub record PagerLaws (per_page total : ℕ) (first last : ℕ → ℕ) : Type 0 where
  pub first_is : (page : ℕ) → first page ≡ page * per_page
  pub last_is : (page : ℕ) → suc (last page) ≡ min (page * per_page + per_page) total

module _ {A : Type 0} where
  unfoldable pub take : ℕ → List A → List A
  take zero xs = []
  take (suc n) [] = []
  take (suc n) (x ∷ xs) = x ∷ take n xs

  unfoldable pub drop : ℕ → List A → List A
  drop zero xs = xs
  drop (suc n) [] = []
  drop (suc n) (x ∷ xs) = drop n xs

  take_nil : (n : ℕ) → take n [] ≡ []
  unfolding take
  take_nil zero = refl
  take_nil (suc n) = refl

  drop_nil : (n : ℕ) → drop n [] ≡ []
  unfolding drop
  drop_nil zero = refl
  drop_nil (suc n) = refl

  pub length-drop : (n : ℕ) (xs : List A) → length (drop n xs) ≡ length xs - n
  unfolding drop
  length-drop zero xs = omega arith
  length-drop (suc n) [] = omega arith
  length-drop (suc n) (x ∷ xs) = omega (arith, length-drop n xs)

  drop_of_length : (n : ℕ) (xs : List A) → length xs ≤ n → drop n xs ≡ []
  unfolding drop
  drop_of_length zero [] h = refl
  drop_of_length zero (x ∷ xs) h = absurd (omega arith)
  drop_of_length (suc n) [] h = refl
  drop_of_length (suc n) (x ∷ xs) h = drop_of_length n xs (omega arith)

  drop-drop : (m n : ℕ) (xs : List A) → drop m (drop n xs) ≡ drop (n + m) xs
  unfolding drop
  drop-drop m zero xs = ap (λ k. drop k xs) (omega arith)
  drop-drop m (suc n) [] = drop_nil m ∙ sym (drop_nil (suc n + m))
  drop-drop m (suc n) (x ∷ xs) =
      let later : suc (n + m) ≡ suc n + m = omega arith in
      drop-drop m n xs ∙ ap (λ k. drop k (x ∷ xs)) later

  pub take-min : (n : ℕ) (xs : List A) → take (min n (length xs)) xs ≡ take n xs
  unfolding take
  take-min n [] = take_nil (min n 0) ∙ sym (take_nil n)
  take-min zero (x ∷ xs) =
      let clipped : min 0 (suc (length xs)) ≡ 0 = omega arith in ap (λ k. take k (x ∷ xs)) clipped
  take-min (suc n) (x ∷ xs) =
      let clipped : min (suc n) (suc (length xs)) ≡ suc (min n (length xs)) = omega arith in
      ap (λ k. take k (x ∷ xs)) clipped ∙ ap (◌∷◌ x) (take-min n xs)

  take-append-drop : (n : ℕ) (xs : List A) → take n xs ++ drop n xs ≡ xs
  unfolding take drop
  take-append-drop zero xs = refl
  take-append-drop (suc n) [] = refl
  take-append-drop (suc n) (x ∷ xs) = ap (◌∷◌ x) (take-append-drop n xs)

  drop_at_none : (i : ℕ) (xs : List A) → get_elem? xs i ≡ none → drop i xs ≡ []
  unfolding drop
  drop_at_none zero [] h = refl
  drop_at_none (suc i) [] h = refl
  drop_at_none zero (x ∷ xs) h = cc
  drop_at_none (suc i) (x ∷ xs) h = drop_at_none i xs h

  drop_after_none : (i : ℕ) (xs : List A) → get_elem? xs i ≡ none → drop (suc i) xs ≡ []
  unfolding drop
  drop_after_none i [] h = refl
  drop_after_none zero (x ∷ xs) h = cc
  drop_after_none (suc i) (x ∷ xs) h = drop_after_none i xs h

  drop_at_some :
      (i : ℕ) (xs : List A) (x : A) → get_elem? xs i ≡ some x → drop i xs ≡ x ∷ drop (suc i) xs
  unfolding drop
  drop_at_some i [] x h = cc
  drop_at_some zero (y ∷ xs) x h = let same : y ≡ x = cc in ap (λ z. z ∷ xs) same
  drop_at_some (suc i) (y ∷ xs) x h = drop_at_some i xs x h

  pub rows_from-slice : (n i : ℕ) (xs : List A) → rows_from n i xs ≡ take n (drop i xs)
  unfolding rows_from take
  rows_from-slice zero i xs = refl
  rows_from-slice (suc n) i xs = elim (Option-cases (get_elem? xs i)) [
    | inl out ↦
        rw (out, rows_from)
          (rows_from-slice n (suc i) xs
            ∙ ap (take n) (drop_after_none i xs out)
            ∙ take_nil n
            ∙ sym (take_nil (suc n))
            ∙ ap (take (suc n)) (sym (drop_at_none i xs out)))
    | inr (x, found) ↦
        rw (found, rows_from)
          (ap (◌∷◌ x) (rows_from-slice n (suc i) xs)
            ∙ ap (take (suc n)) (sym (drop_at_some i xs x found)))
  ]

  -- the rows of so many pages, from a page on
  unfoldable pub pages_from : (first last : ℕ → ℕ) → List A → ℕ → ℕ → List A
  unfolding render_rows
  pages_from first last items zero page = []
  pages_from first last items (suc more) page =
      render_rows (first page) (last page) items ++ pages_from first last items more (suc page)

  module _ (per_page : ℕ) (first last : ℕ → ℕ) (items : List A)
      (laws : PagerLaws per_page (length items) first last) where
    page-slice :
        (page : ℕ)
        → render_rows (first page) (last page) items ≡ take per_page (drop (page * per_page) items)
    unfolding render_rows
    page-slice page =
        let rest = drop (page * per_page) items in
        let rounds : suc (last page) - first page ≡ min per_page (length rest) =
          omega
            (arith, laws.first_is page, laws.last_is page, length-drop (page * per_page) items) in
        rows_from-slice (suc (last page) - first page) (first page) items
        ∙ ap (λ n. take n (drop (first page) items)) rounds
        ∙ ap (λ k. take (min per_page (length rest)) (drop k items)) (laws.first_is page)
        ∙ take-min per_page rest

    pages_from-drop :
        (more page : ℕ)
        → length items ≤ (page + more) * per_page
        → pages_from first last items more page ≡ drop (page * per_page) items
    unfolding pages_from
    pages_from-drop zero page h =
        let past : length items ≤ page * per_page = omega (arith, h) in
        sym (drop_of_length (page * per_page) items past)
    pages_from-drop (suc more) page h =
        let enough : length items ≤ (suc page + more) * per_page = omega (arith, h) in
        let next : page * per_page + per_page ≡ suc page * per_page = omega arith in
        let at_page = drop (page * per_page) items in
        rw (page-slice page, pages_from-drop more (suc page) enough)
          (ap (λ xs. take per_page at_page ++ xs)
              (sym (drop-drop per_page (page * per_page) items ∙ ap (λ k. drop k items) next))
            ∙ take-append-drop per_page at_page)

    -- With such a pager, the rows of all pages, one page after the other, are the records, each once and in order.
    pub pages_are_the_records :
        (pages : ℕ) → length items ≤ pages * per_page → pages_from first last items pages 0 ≡ items
    unfolding drop
    pages_are_the_records pages h =
        let start : 0 * per_page ≡ 0 = omega arith in
        pages_from-drop pages 0 (omega (arith, h)) ∙ ap (λ k. drop k items) start

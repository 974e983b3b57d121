-- ===== src/Tabs/Offered.antt =====
-- renderTabs of public/components/QueryResults/QueryResults.tsx with getSelectedResults of public/utils/utils.ts.
use dashboards_query_workben.Common.{
  ℕ, zero, suc, ◌+◌, String, Bool, true, false, some, List, [], ◌∷◌, ◌≡◌, refl, Bool-cases, inl,
  inr, arith, get_elem?, ◌∙◌, ap, sym, subst, ◌↔◌, ◌==◌, eq_iff, any, ◌||◌,
}
use dashboards_query_workben.Common.Numbers.{Number, nan, int, pos, show_nat}
use dashboards_query_workben.Common.ParseInt.{parse_int, parse_int-show_nat}
use dashboards_query_workben.Results.{ResponseDetail}
use dashboards_query_workben.Tabs.{
  Tab, result_tabs, render_tabs, get_selected_results, selected_at, message_tab_label,
}

-- a tab of this id is among the tabs
abbrev pub has_tab : String → List Tab → Bool
has_tab id tabs = any (λ tab. tab.id == id) tabs

or_true : (b : Bool) → (b || true) ≡ true
or_true true = refl
or_true false = refl

abbrev index_of : Number → ℕ
index_of (int (pos n)) = n
index_of _ = 0

show_nat-injective : (i j : ℕ) → show_nat i ≡ show_nat j → i ≡ j
show_nat-injective i j e =
    ap index_of (sym (parse_int-show_nat i) ∙ ap parse_int e ∙ parse_int-show_nat j)

show_nat_ne : (i : ℕ) → (message_tab_label == show_nat i) ≡ false
unfolding parse_int
show_nat_ne i = elim (Bool-cases (message_tab_label == show_nat i)) [
  | inl same ↦ absurd (
      nan_ne (ap parse_int ((eq_iff message_tab_label (show_nat i)).0 same) ∙ parse_int-show_nat i))
  | inr other ↦ other
]
  where
    nan_ne : nan ≡ int (pos i) → ⊥
    nan_ne e = cc

module _ {T : Type 0} where
  -- The result of an index is fulfilled.
  abbrev pub Fulfilled : List (ResponseDetail T) → ℕ → Type 0
  Fulfilled results i =
      (r : ResponseDetail T) × (get_elem? results i ≡ some r)
      × (r.fulfilled ≡ true)
      × (get_selected_results results (show_nat i) ≡ r.contents)

  selected-show_nat :
      (results : List (ResponseDetail T)) (i : ℕ) (r : ResponseDetail T)
      → get_elem? results i ≡ some r
      → r.fulfilled ≡ true
      → get_selected_results results (show_nat i) ≡ r.contents
  unfolding get_selected_results
  selected-show_nat results i r found done =
      rw (parse_int-show_nat i, found, selected_at) (rw done refl)

  module _ (to_lower_case : String → String) (language : String) (queries : List String) where
    -- the tab of `id` stands for the result `k` after the first `i`
    Stands : String → ℕ → List (ResponseDetail T) → Type 0
    Stands id i rest =
        (k : ℕ) × (r : ResponseDetail T) × (get_elem? rest k ≡ some r)
        × (r.fulfilled ≡ true)
        × (id ≡ show_nat (i + k))

    Stands-cons :
        (id : String) (i : ℕ) (r : ResponseDetail T) (rest : List (ResponseDetail T))
        → Stands id (suc i) rest
        → Stands id i (r ∷ rest)
    unfolding Stands
    Stands-cons id i r rest (k, found, at_k, done, e) =
        (suc k, found, at_k, done, e ∙ ap show_nat (omega arith))

    has_tab-Stands :
        (id : String) (i : ℕ) (rest : List (ResponseDetail T))
        → has_tab id (result_tabs to_lower_case language queries i rest) ≡ true
        → Stands id i rest
    unfolding result_tabs Stands
    has_tab-Stands id i [] h = cc
    has_tab-Stands id i (r ∷ rest) h = elim (Bool-cases r.fulfilled) [
      | inl done ↦ elim (Bool-cases (show_nat i == id)) [
        | inl same ↦
            (0, r, refl, done, sym ((eq_iff (show_nat i) id).0 same) ∙ ap show_nat (omega arith))
        | inr other ↦
            Stands-cons id i r rest (has_tab-Stands id (suc i) rest (rw (done, other) at h))
      ]
      | inr failed ↦ Stands-cons id i r rest (has_tab-Stands id (suc i) rest (rw failed at h))
    ]

    Stands-has_tab :
        (i k : ℕ) (rest : List (ResponseDetail T)) (r : ResponseDetail T)
        → get_elem? rest k ≡ some r
        → r.fulfilled ≡ true
        → has_tab (show_nat (i + k)) (result_tabs to_lower_case language queries i rest) ≡ true
    unfolding result_tabs
    Stands-has_tab i k [] r found done = cc
    Stands-has_tab i zero (q ∷ rest) r found done =
        let first : q.fulfilled ≡ true = ground arith in
        rw (first, (eq_iff (show_nat i) (show_nat (i + 0))).1 (ap show_nat (omega arith))) refl
    Stands-has_tab i (suc k) (q ∷ rest) r found done =
        let later : has_tab (show_nat (i + suc k))
              (result_tabs to_lower_case language queries (suc i) rest)
            ≡ true =
          subst
            (λ n.
              has_tab (show_nat n) (result_tabs to_lower_case language queries (suc i) rest) ≡ true)
            (omega arith) (Stands-has_tab (suc i) k rest r found done) in
        elim (Bool-cases q.fulfilled) [
          | inl first ↦ rw (first, later) (or_true (show_nat i == show_nat (i + suc k)))
          | inr failed ↦ rw failed later
        ]

    tab_of_result :
        (results : List (ResponseDetail T)) (i : ℕ)
        → has_tab (show_nat i) (render_tabs to_lower_case language queries results) ≡ true
        → Fulfilled results i
    unfolding render_tabs Stands
    tab_of_result results i h =
        let (k, r, at_k, done, e) =
          has_tab-Stands (show_nat i) 0 results (rw (show_nat_ne i) at h) in
        let found : get_elem? results i ≡ some r =
          subst (λ j. get_elem? results j ≡ some r)
            (sym (show_nat-injective i (0 + k) e ∙ omega arith)) at_k in
        (r, found, done, selected-show_nat results i r found done)

    result_of_tab :
        (results : List (ResponseDetail T)) (i : ℕ)
        → Fulfilled results i
        → has_tab (show_nat i) (render_tabs to_lower_case language queries results) ≡ true
    unfolding render_tabs
    result_of_tab results i (r, found, done, _) = rw (show_nat_ne i) (
        subst
          (λ n. has_tab (show_nat n) (result_tabs to_lower_case language queries 0 results) ≡ true)
          (omega arith) (Stands-has_tab 0 i results r found done))

    -- A tab is offered for a result, beside the one of the messages, exactly when the result is fulfilled, and
    -- selecting it gives the data of that result.
    pub has_tab-render_tabs_iff :
        (results : List (ResponseDetail T)) (i : ℕ)
        → (has_tab (show_nat i) (render_tabs to_lower_case language queries results) ≡ true)
          ↔ Fulfilled results i
    has_tab-render_tabs_iff results i = (tab_of_result results i, result_of_tab results i)

-- ===== src/Acceleration/Rows/Reachable.antt =====
-- visual_editors/skipping_index/: the rows after any sequence of the user's actions.
use dashboards_query_workben.Common.{
  String, Bool, true, false, not, List, [], ◌∷◌, map, ◌≡◌, refl, subst, arith, ◌==◌, eq_iff, any,
  filter, All, All-append, Bool-cases, inl, inr, eq_refl,
}
use dashboards_query_workben.Acceleration.Types.{
  CreateAccelerationForm, DataTableFieldsType, SkippingIndexRowType, SkippingIndexAccMethodType,
}
use dashboards_query_workben.Acceleration.Rows.{
  row_of, on_fields, on_change_acceleration_method, on_delete_row, on_add_fields, DifferenceBy,
  DifferenceByLaws, offered_fields, on_delete_fields,
}
use dashboards_query_workben.Acceleration.Rows.Distinct.{
  has_id, Distinct, Apart, filter-Distinct, changed, changed-Distinct, append-Distinct,
}

abbrev pub is_field : List DataTableFieldsType → String → Bool
is_field fields id = any (λ o. o.id == id) fields

-- Each row is a field of the table, and no two rows are the same field.
pub record IsRows (f : CreateAccelerationForm) : Type 0 where
  pub distinct : Distinct f.skipping_index_query_data
  pub known : All (λ r. is_field f.data_table_fields r.id ≡ true) f.skipping_index_query_data

-- What the modal lets the user select: offered fields, each once.
pub record IsSelection (offered selected : List DataTableFieldsType) : Type 0 where
  pub once : Distinct (map row_of selected)
  pub among : All (λ s. is_field offered s.id ≡ true) selected

module _ (d : DifferenceBy) where
  pub data RowStep (f : CreateAccelerationForm) : CreateAccelerationForm → Type 0 where
    load :
        (fields : List DataTableFieldsType)
        → RowStep f (on_fields (record f { data_table_fields = fields }))
    change_method :
        (method : SkippingIndexAccMethodType) (row : SkippingIndexRowType)
        → RowStep f (on_change_acceleration_method method row f)
    delete_row : (row : SkippingIndexRowType) → RowStep f (on_delete_row row f)
    add_fields :
        (selected : List DataTableFieldsType)
        → IsSelection (offered_fields d f) selected
        → RowStep f (on_add_fields selected f)
    delete_fields :
        (selected : List SkippingIndexRowType) → RowStep f (on_delete_fields d selected f)

  pub data RowReach (f : CreateAccelerationForm) : CreateAccelerationForm → Type 0 where
    here : RowReach f f
    next : {g h : CreateAccelerationForm} → RowReach f g → RowStep g h → RowReach f h

filter-All :
    (P : SkippingIndexRowType → Type 0) (p : SkippingIndexRowType → Bool)
    (rows : List SkippingIndexRowType)
    → All P rows
    → All P (filter p rows)
filter-All P p [] h = tt
filter-All P p (x ∷ xs) (h, hs) = elim (Bool-cases (p x)) [
  | inl keep ↦ rw keep (h, filter-All P p xs hs)
  | inr drop ↦ rw drop (filter-All P p xs hs)
]

changed-known :
    (fields : List DataTableFieldsType) (method : SkippingIndexAccMethodType) (k : String)
    (rows : List SkippingIndexRowType)
    → All (λ r. is_field fields r.id ≡ true) rows
    → All (λ r. is_field fields r.id ≡ true) (map (changed method k) rows)
changed-known fields method k [] h = tt
changed-known fields method k (x ∷ xs) (h, hs) = (
  elim (Bool-cases (x.id == k)) [ inl hit ↦ rw hit h | inr miss ↦ rw miss h ],
  changed-known fields method k xs hs,
)

-- An offered field is a field of the table and no row.
offered_new :
    (fields : List DataTableFieldsType) (rows : List SkippingIndexRowType) (id : String)
    → is_field (filter (λ x. not (has_id x.id rows)) fields) id ≡ true
    → (is_field fields id ≡ true) × (has_id id rows ≡ false)
offered_new [] rows id h = cc
offered_new (x ∷ xs) rows id h = elim (Bool-cases (has_id x.id rows)) [
  | inl old ↦ let rest = offered_new xs rows id (rw old at h) in (ground (arith, rest), rest.1)
  | inr new ↦ elim (Bool-cases (x.id == id)) [
    | inl same ↦ (rw same refl, rw (← (eq_iff x.id id).0 same) new)
    | inr other ↦
        let rest = offered_new xs rows id (rw other at (rw new at h)) in
        (ground (arith, rest), rest.1)
  ]
]

selected_new :
    (fields selected : List DataTableFieldsType) (rows : List SkippingIndexRowType)
    → All (λ s. is_field (filter (λ x. not (has_id x.id rows)) fields) s.id ≡ true) selected
    → All (λ r. is_field fields r.id ≡ true) (map row_of selected)
      × All (λ s. has_id s.id rows ≡ false) selected
selected_new fields [] rows h = (tt, tt)
selected_new fields (s ∷ ss) rows (h, hs) =
    let (known, new) = offered_new fields rows s.id h in
    let (knowns, news) = selected_new fields ss rows hs in ((known, knowns), (new, news))

apart_one :
    (x : SkippingIndexRowType) (xs : List SkippingIndexRowType)
    (selected : List DataTableFieldsType)
    → All (λ s. has_id s.id (x ∷ xs) ≡ false) selected
    → (has_id x.id (map row_of selected) ≡ false) × All (λ s. has_id s.id xs ≡ false) selected
apart_one x xs [] h = (refl, tt)
apart_one x xs (s ∷ ss) (h, hs) =
    let (one, rest) = apart_one x xs ss hs in
    (ground (arith, one, eq_iff x.id s.id, eq_iff s.id x.id), (ground arith, rest))

apart_rows :
    (rows : List SkippingIndexRowType) (selected : List DataTableFieldsType)
    → All (λ s. has_id s.id rows ≡ false) selected
    → Apart rows (map row_of selected)
apart_rows [] selected h = tt
apart_rows (x ∷ xs) selected h =
    let (one, rest) = apart_one x xs selected h in (one, apart_rows xs selected rest)

one_row-IsRows :
    (f : CreateAccelerationForm) (fields : List DataTableFieldsType)
    → f.data_table_fields ≡ fields
    → IsRows (on_fields f)
unfolding on_fields
one_row-IsRows f [] e = record { distinct = rw e tt; known = rw e tt }
one_row-IsRows f (x ∷ xs) e = record {
  distinct = rw e (refl, tt);
  known = rw e (ground (arith, eq_refl x.id), tt);
}

module _ (d : DifferenceBy) (laws : DifferenceByLaws d) where
  RowStep-IsRows : {f g : CreateAccelerationForm} → RowStep d f g → IsRows f → IsRows g
  unfolding on_change_acceleration_method on_delete_row on_add_fields on_delete_fields
      offered_fields
  RowStep-IsRows {f} (load fields) r =
      one_row-IsRows (record f { data_table_fields = fields }) fields refl
  RowStep-IsRows {f} (change_method method row) r = record {
    distinct = changed-Distinct method row.id f.skipping_index_query_data r.distinct;
    known = changed-known f.data_table_fields method row.id f.skipping_index_query_data r.known;
  }
  RowStep-IsRows {f} (delete_row row) r = record {
    distinct = filter-Distinct _ f.skipping_index_query_data r.distinct;
    known = filter-All _ _ f.skipping_index_query_data r.known;
  }
  RowStep-IsRows {f} (add_fields selected s) r =
      let among =
        subst (λ o. All (λ x. is_field o x.id ≡ true) selected)
          (laws.fields_law f.data_table_fields f.skipping_index_query_data) s.among in
      let (known, new) =
        selected_new f.data_table_fields selected f.skipping_index_query_data among in
      record {
        distinct =
            append-Distinct f.skipping_index_query_data (map row_of selected) r.distinct s.once
              (apart_rows f.skipping_index_query_data selected new);
        known = All-append _ f.skipping_index_query_data (map row_of selected) r.known known;
      }
  RowStep-IsRows {f} (delete_fields selected) r = record {
    distinct =
        rw (laws.rows_law f.skipping_index_query_data selected)
          (filter-Distinct _ f.skipping_index_query_data r.distinct);
    known =
        rw (laws.rows_law f.skipping_index_query_data selected)
          (filter-All _ _ f.skipping_index_query_data r.known);
  }

  -- From a form with no rows, after any sequence of table loads, method changes, deletions and additions of
  -- offered fields (each selected once), the rows of the skipping index are fields of the loaded table, and no
  -- field is a row twice; for a `differenceBy` that does what lodash documents.
  pub RowReach-IsRows :
      (f g : CreateAccelerationForm) → f.skipping_index_query_data ≡ [] → RowReach d f g → IsRows g
  RowReach-IsRows f _ e here = record { distinct = rw e tt; known = rw e tt }
  RowReach-IsRows f g e (next r s) = RowStep-IsRows s (RowReach-IsRows f _ e r)

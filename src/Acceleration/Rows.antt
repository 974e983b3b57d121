-- ===== src/Acceleration/Rows.antt =====
-- The rows of a skipping index: visual_editors/skipping_index/ under public/components/acceleration,
-- with skipping_index_builder.tsx, add_fields_modal.tsx and delete_fields_modal.tsx.
pub mod Distinct
pub mod Reachable
use dashboards_query_workben.Common.{
  String, Bool, true, false, not, List, [], ◌∷◌, ◌++◌, map, ◌≡◌, refl, arith, if◌then◌else◌, ◌==◌,
  eq_iff, any, filter, All, All-append, Bool-cases, inl, inr, ◌≢◌,
}
use dashboards_query_workben.Acceleration.Types.{
  CreateAccelerationForm, DataTableFieldsType, SkippingIndexRowType, SkippingIndexAccMethodType,
  partition,
}
use dashboards_query_workben.Acceleration.Validate.{validate_skipping_index_data}

-- `{ ...field, accelerationMethod: 'PARTITION' }`
abbrev pub row_of : DataTableFieldsType → SkippingIndexRowType
row_of x = record {
  id = x.id;
  field_name = x.field_name;
  data_type = x.data_type;
  acceleration_method = partition;
}

abbrev with_rows : List SkippingIndexRowType → CreateAccelerationForm → CreateAccelerationForm
with_rows rows f = record f { skipping_index_query_data = rows }

-- the rows, and the message about them
abbrev with_checked_rows :
    List SkippingIndexRowType → CreateAccelerationForm → CreateAccelerationForm
with_checked_rows rows f = record f {
  skipping_index_query_data = rows;
  form_errors = record f.form_errors {
    skipping_index_error = validate_skipping_index_data f.acceleration_index_type rows;
  };
}

-- The effect of a change of `dataTableFields`.
unfoldable pub on_fields : CreateAccelerationForm → CreateAccelerationForm
on_fields f = elim f.data_table_fields [
  | [] ↦ with_rows [] f
  | field ∷ fields ↦ with_checked_rows (row_of field ∷ []) f
]

unfoldable pub on_change_acceleration_method :
    SkippingIndexAccMethodType
    → SkippingIndexRowType
    → CreateAccelerationForm
    → CreateAccelerationForm
on_change_acceleration_method method update_row f =
    with_rows
      (map
        (λ row.
          if row.id == update_row.id then record row { acceleration_method = method } else row)
        f.skipping_index_query_data)
      f

unfoldable pub on_delete_row :
    SkippingIndexRowType → CreateAccelerationForm → CreateAccelerationForm
on_delete_row item f = with_rows (filter (λ o. not (item.id == o.id)) f.skipping_index_query_data) f

unfoldable pub on_add_fields :
    List DataTableFieldsType → CreateAccelerationForm → CreateAccelerationForm
on_add_fields selected_fields f =
    with_checked_rows (f.skipping_index_query_data ++ map row_of selected_fields) f

-- `_.differenceBy(xs, ys, 'id')` of lodash, on the ids.
pub record DifferenceBy : Type 0 where
  pub rows_by_rows :
      List SkippingIndexRowType → List SkippingIndexRowType → List SkippingIndexRowType
  pub fields_by_rows :
      List DataTableFieldsType → List SkippingIndexRowType → List DataTableFieldsType

-- lodash: the items of the first list whose id no item of the second has, in their order.
pub record DifferenceByLaws (d : DifferenceBy) : Type 0 where
  pub rows_law :
      (xs ys : List SkippingIndexRowType)
      → d.rows_by_rows xs ys ≡ filter (λ x. not (any (λ y. y.id == x.id) ys)) xs
  pub fields_law :
      (xs : List DataTableFieldsType) (ys : List SkippingIndexRowType)
      → d.fields_by_rows xs ys ≡ filter (λ x. not (any (λ y. y.id == x.id) ys)) xs

module _ (d : DifferenceBy) where
  -- The fields that the modal offers.
  unfoldable pub offered_fields : CreateAccelerationForm → List DataTableFieldsType
  offered_fields f = d.fields_by_rows f.data_table_fields f.skipping_index_query_data

  unfoldable pub on_delete_fields :
      List SkippingIndexRowType → CreateAccelerationForm → CreateAccelerationForm
  on_delete_fields selected_fields f =
      with_rows (d.rows_by_rows f.skipping_index_query_data selected_fields) f

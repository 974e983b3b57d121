-- ===== src/Acceleration/ViewColumns.antt =====
-- The columns of a materialized view: visual_editors/materialized_view/ under
-- public/components/acceleration, with materialized_view_builder.tsx, add_column_popover.tsx and
-- column_expression.tsx. The builder keeps its own copy of the columns beside the form's.
use dashboards_query_workben.Common.{
  ℕ, zero, suc, String, not, some, List, [], ◌∷◌, ◌++◌, map, ◌≡◌, refl, ◌==◌, filter,
}
use dashboards_query_workben.Acceleration.Types.{
  CreateAccelerationForm, MaterializedViewColumn, AggregationFunctionType, count,
  DataTableFieldsType,
}
use dashboards_query_workben.Acceleration.Query.{acceleration_query_builder}

pub record ColumnEditor : Type 0 where
  pub form : CreateAccelerationForm
  pub column_expression_values : List MaterializedViewColumn

abbrev with_columns : List MaterializedViewColumn → CreateAccelerationForm → CreateAccelerationForm
with_columns columns f = record f {
  materialized_view_query_data = record f.materialized_view_query_data { columns_values = columns };
}

-- both copies
abbrev commit : List MaterializedViewColumn → ColumnEditor → ColumnEditor
commit columns s = record { form = with_columns columns s.form; column_expression_values = columns }

-- `newColumnExpressionId` of the module is an argument.
unfoldable pub on_fields : String → ColumnEditor → ColumnEditor
on_fields new_column_expression_id s = elim s.form.data_table_fields [
  | [] ↦ s
  | field ∷ fields ↦
      commit
        (record {
          id = new_column_expression_id;
          function_name = count;
          function_param = field.field_name;
          field_alias = some "counter1";
        }
          ∷ [])
        s
]

-- What the popover holds when `Add` is clicked, with a fresh id.
unfoldable pub on_add_expression : MaterializedViewColumn → ColumnEditor → ColumnEditor
on_add_expression new_column s = commit (s.column_expression_values ++ (new_column ∷ [])) s

unfoldable pub on_delete_column_expression : MaterializedViewColumn → ColumnEditor → ColumnEditor
on_delete_column_expression current s =
    commit (filter (λ o. not (o.id == current.id)) s.column_expression_values) s

-- The three inputs of a shown column.
pub data ColumnChange : Type 0 where
  to_function : AggregationFunctionType → ColumnChange
  to_param : String → ColumnChange
  to_alias : String → ColumnChange

unfoldable pub changed_column : ColumnChange → MaterializedViewColumn → MaterializedViewColumn
changed_column (to_function name) current = record current { function_name = name }
changed_column (to_param param) current = record current { function_param = param }
changed_column (to_alias text) current = record current { field_alias = some text }

-- `updatedArray[columnIndex] = newValue`, for the column that is shown at the index
unfoldable pub changed_at :
    ℕ → ColumnChange → List MaterializedViewColumn → List MaterializedViewColumn
unfolding changed_column
changed_at column_index change [] = []
changed_at zero change (x ∷ xs) = changed_column change x ∷ xs
changed_at (suc column_index) change (x ∷ xs) = x ∷ changed_at column_index change xs

unfoldable pub update_column_expression_value : ColumnChange → ℕ → ColumnEditor → ColumnEditor
unfolding changed_at
update_column_expression_value change column_index s = record s {
  column_expression_values = changed_at column_index change s.column_expression_values;
}

pub data ColumnEvent : Type 0 where
  loads : String → List DataTableFieldsType → ColumnEvent
  adds : MaterializedViewColumn → ColumnEvent
  deletes : MaterializedViewColumn → ColumnEvent
  updates : ColumnChange → ℕ → ColumnEvent

unfoldable pub on_column_event : ColumnEvent → ColumnEditor → ColumnEditor
on_column_event (loads new_column_expression_id fields) s =
    on_fields new_column_expression_id
      (record s { form = record s.form { data_table_fields = fields } })
on_column_event (adds new_column) s = on_add_expression new_column s
on_column_event (deletes current) s = on_delete_column_expression current s
on_column_event (updates change column_index) s =
    update_column_expression_value change column_index s

unfoldable pub run_column_events : List ColumnEvent → ColumnEditor → ColumnEditor
run_column_events [] s = s
run_column_events (e ∷ events) s = run_column_events events (on_column_event e s)

abbrev pub ids : List MaterializedViewColumn → List String
ids columns = map (λ c. c.id) columns

abbrev pub form_columns : ColumnEditor → List MaterializedViewColumn
form_columns s = s.form.materialized_view_query_data.columns_values

changed_at-ids :
    (column_index : ℕ) (change : ColumnChange) (columns : List MaterializedViewColumn)
    → ids (changed_at column_index change columns) ≡ ids columns
unfolding changed_at changed_column
changed_at-ids column_index change [] = refl
changed_at-ids zero (to_function name) (x ∷ xs) = refl
changed_at-ids zero (to_param param) (x ∷ xs) = refl
changed_at-ids zero (to_alias text) (x ∷ xs) = refl
changed_at-ids (suc column_index) change (x ∷ xs) = rw (changed_at-ids column_index change xs) refl

on_fields-ids :
    (id : String) (s : ColumnEditor) (fields : List DataTableFieldsType)
    → s.form.data_table_fields ≡ fields
    → ids (form_columns s) ≡ ids s.column_expression_values
    → ids (form_columns (on_fields id s)) ≡ ids (on_fields id s).column_expression_values
unfolding on_fields
on_fields-ids id s [] e h = rw e h
on_fields-ids id s (x ∷ xs) e h = rw e refl

on_column_event-ids :
    (e : ColumnEvent) (s : ColumnEditor)
    → ids (form_columns s) ≡ ids s.column_expression_values
    → ids (form_columns (on_column_event e s)) ≡ ids (on_column_event e s).column_expression_values
unfolding on_column_event on_add_expression on_delete_column_expression
    update_column_expression_value
on_column_event-ids (loads id fields) s h =
    on_fields-ids id (record s { form = record s.form { data_table_fields = fields } }) fields refl
      h
on_column_event-ids (adds new_column) s h = refl
on_column_event-ids (deletes current) s h = refl
on_column_event-ids (updates change column_index) s h =
    rw (changed_at-ids column_index change s.column_expression_values) h

-- From a builder whose form has the columns it shows, whatever the user loads, adds, deletes and edits, the
-- form has as many columns as are shown, with the same ids in the same order.
pub form_ids_are_shown :
    (events : List ColumnEvent) (s : ColumnEditor)
    → ids (form_columns s) ≡ ids s.column_expression_values
    → ids (form_columns (run_column_events events s))
      ≡ ids (run_column_events events s).column_expression_values
unfolding run_column_events
form_ids_are_shown [] s h = h
form_ids_are_shown (e ∷ events) s h =
    form_ids_are_shown events (on_column_event e s) (on_column_event-ids e s h)

abbrev pub only_updates : List (ColumnChange × ℕ) → List ColumnEvent
only_updates edits = map (λ e. updates e.0 e.1) edits

updates-form :
    (edits : List (ColumnChange × ℕ)) (s : ColumnEditor)
    → (run_column_events (only_updates edits) s).form ≡ s.form
unfolding run_column_events on_column_event update_column_expression_value
updates-form [] s = refl
updates-form ((change, column_index) ∷ edits) s =
    updates-form edits (update_column_expression_value change column_index s)

-- No edit of a shown column (of its function, its field or its alias), nor any sequence of edits, changes the
-- query that the form builds; a later addition of a column brings every edit into the form.
pub edits_wait_for_an_addition :
    (edits : List (ColumnChange × ℕ)) (new_column : MaterializedViewColumn) (s : ColumnEditor)
    → (acceleration_query_builder (run_column_events (only_updates edits) s).form
        ≡ acceleration_query_builder s.form)
      × (form_columns (on_add_expression new_column (run_column_events (only_updates edits) s))
          ≡ (run_column_events (only_updates edits) s).column_expression_values
            ++ (new_column ∷ []))
unfolding on_add_expression
edits_wait_for_an_addition edits new_column s = (rw (updates-form edits s) refl, refl)

-- ===== src/Acceleration/Tumble/Tests.antt =====
-- A window, from the first form to the statement.
use dashboards_query_workben.Common.{false, none, [], ◌∷◌, ◌≡◌, refl}
use dashboards_query_workben.Common.Numbers.{show, int, pos}
use dashboards_query_workben.Common.ParseInt.{parse_int}
use dashboards_query_workben.Acceleration.Create.{initial_form}
use dashboards_query_workben.Acceleration.Query.{build_tumble_value}
use dashboards_query_workben.Acceleration.Validate.{pluralize_time}
use dashboards_query_workben.Acceleration.Tumble.{
  TumbleEditor, first_tumble, on_change_time_field, on_change_tumble_interval,
  on_change_tumble_window, tumble_text, is_tumble_invalid, time_fields,
}

abbrev opened : TumbleEditor
opened = first_tumble (initial_form none)

-- The first form has another window than the button shows.
opened_text : tumble_text opened ≡ "TUMBLE(, '1 millisecond')"
unfolding first_tumble tumble_text show
opened_text = refl

opened_window :
    opened.form.materialized_view_query_data.group_by_tumble_value.tumble_window ≡ int (pos 0)
unfolding first_tumble initial_form
opened_window = refl

abbrev edited : TumbleEditor
edited =
    on_change_tumble_window parse_int "10"
      (on_change_tumble_interval "minute" (on_change_time_field ("at" ∷ []) opened))

edited_text : tumble_text edited ≡ "TUMBLE(at, '10 minutes')"
unfolding first_tumble initial_form on_change_time_field on_change_tumble_interval
    on_change_tumble_window tumble_text show parse_int
edited_text = refl

edited_statement :
    build_tumble_value edited.form.materialized_view_query_data.group_by_tumble_value
    ≡ "(`at`, '10 minutes')"
unfolding first_tumble initial_form on_change_time_field on_change_tumble_interval
    on_change_tumble_window build_tumble_value pluralize_time show parse_int
edited_statement = refl

unreported : is_tumble_invalid opened ≡ false
unfolding first_tumble initial_form is_tumble_invalid
unreported = refl

offered_fields :
    time_fields (record (initial_form none) {
      data_table_fields =
          record { id = "1"; field_name = "at"; data_type = "timestamp_ntz" }
          ∷ record { id = "2"; field_name = "size"; data_type = "int" }
          ∷ [];
    })
    ≡ "at" ∷ []
unfolding time_fields
offered_fields = refl

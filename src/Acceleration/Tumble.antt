-- ===== src/Acceleration/Tumble.antt =====
-- visual_editors/materialized_view/group_by_tumble_expression.tsx: the window that a materialized view groups by,
-- which the expression keeps beside the form's.
mod Tests
use dashboards_query_workben.Common.{
  String, Bool, ◌&&◌, not, List, [], ◌∷◌, map, filter, ◌⧺◌, is_blank, is_empty,
}
use dashboards_query_workben.Common.Numbers.{Number, int, pos, show}
use dashboards_query_workben.Common.Search.{includes}
use dashboards_query_workben.Acceleration.Types.{
  CreateAccelerationForm, DataTableFieldsType, GroupByTumbleType,
}
use dashboards_query_workben.Acceleration.Validate.{pluralize_time}

pub record TumbleEditor : Type 0 where
  pub form : CreateAccelerationForm
  pub group_by_values : GroupByTumbleType

unfoldable pub first_tumble : CreateAccelerationForm → TumbleEditor
first_tumble form = record {
  form = form;
  group_by_values = record {
    time_field = "";
    tumble_window = int (pos 1);
    tumble_interval = "millisecond";
  };
}

unfoldable pub update_group_by_states : GroupByTumbleType → TumbleEditor → TumbleEditor
update_group_by_states value s = record {
  form = record s.form {
    materialized_view_query_data = record s.form.materialized_view_query_data {
      group_by_tumble_value = value;
    };
  };
  group_by_values = value;
}

unfoldable pub on_change_tumble_window : (String → Number) → String → TumbleEditor → TumbleEditor
unfolding update_group_by_states
on_change_tumble_window parse_int text s =
    update_group_by_states (record s.group_by_values { tumble_window = parse_int text }) s

unfoldable pub on_change_tumble_interval : String → TumbleEditor → TumbleEditor
unfolding update_group_by_states
on_change_tumble_interval text s =
    update_group_by_states (record s.group_by_values { tumble_interval = text }) s

unfoldable pub on_change_time_field : List String → TumbleEditor → TumbleEditor
unfolding update_group_by_states
on_change_time_field [] s = s
on_change_time_field (label ∷ labels) s =
    update_group_by_states (record s.group_by_values { time_field = label }) s

-- the text of the button
unfoldable pub tumble_text : TumbleEditor → String
unfolding pluralize_time
tumble_text s =
    let g = s.group_by_values in
    "TUMBLE("
    ⧺ g.time_field
    ⧺ ", '"
    ⧺ show g.tumble_window
    ⧺ " "
    ⧺ g.tumble_interval
    ⧺ pluralize_time g.tumble_window
    ⧺ "')"

unfoldable pub is_tumble_invalid : TumbleEditor → Bool
is_tumble_invalid s =
    not (is_empty s.form.form_errors.materialized_view_error)
    && is_blank s.group_by_values.time_field

-- the time fields that are offered
unfoldable pub time_fields : CreateAccelerationForm → List String
time_fields form =
    map (λ d. d.field_name)
      (filter (λ (d : DataTableFieldsType). includes "timestamp" d.data_type)
        form.data_table_fields)

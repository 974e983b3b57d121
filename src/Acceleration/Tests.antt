-- ===== src/Acceleration/Tests.antt =====
-- Concrete forms and inputs.
use dashboards_query_workben.Common.{
  All, ℕ, String, true, false, not, none, some, List, [], ◌∷◌, ◌++◌, ◌≡◌, ◌↔◌, refl, filter, any,
  ◌==◌, inl, inr,
}
use dashboards_query_workben.Common.Numbers.{Number, nan, int, pos}
use dashboards_query_workben.Acceleration.Types.{
  interval, CreateAccelerationForm, DataTableFieldsType, MaterializedViewColumn, covering, auto,
  sum, count,
}
use dashboards_query_workben.Acceleration.Validate.{form_validator, has_error}
use dashboards_query_workben.Acceleration.Valid.{IsValidForm, has_error-form_validator_iff}
use dashboards_query_workben.Acceleration.Query.{acceleration_query_builder}
use dashboards_query_workben.Acceleration.Columns.{quoted_names}
use dashboards_query_workben.Acceleration.Columns.Whole.{quoted_names-acceleration_query_builder}
use dashboards_query_workben.Acceleration.Settings.{
  Panel, initial_shown, Input, interval_refresh_id, on_change_refresh_type, refresh_option,
}
use dashboards_query_workben.Acceleration.SettingsLaws.{
  IsShown, PanelEvent, edits, rewrites, AreTimely, run_panel_events, on_panel_event,
  run_panel_events-IsShown,
}
use dashboards_query_workben.Acceleration.Rows.{DifferenceBy, DifferenceByLaws, on_fields}
use dashboards_query_workben.Acceleration.Rows.Reachable.{IsRows, here, next, load, RowReach-IsRows}
use dashboards_query_workben.Acceleration.ViewColumns.{
  ColumnEditor, ColumnEvent, loads, adds, deletes, updates, ColumnChange, to_function, to_alias,
  run_column_events, on_add_expression, ids, form_columns, only_updates, form_ids_are_shown,
  edits_wait_for_an_addition,
}
use dashboards_query_workben.Acceleration.Create.{
  initial_form, no_errors, Flyout, changes, copies, run_flyout_events, IsOfValidForm,
  run_flyout_events-IsOfValidForm,
}

abbrev form : CreateAccelerationForm
form = record {
  data_source = "glue";
  database = "default";
  data_table = "logs";
  data_table_fields = [];
  acceleration_index_type = covering;
  skipping_index_query_data = [];
  covering_index_query_data = "status" ∷ "bytes" ∷ [];
  materialized_view_query_data = record {
    columns_values = [];
    group_by_tumble_value = record {
      time_field = "";
      tumble_window = int (pos 0);
      tumble_interval = "";
    };
  };
  acceleration_index_name = "by_status";
  primary_shards_count = int (pos 5);
  replica_shards_count = nan;
  refresh_type = auto;
  checkpoint_location = some "s3://bucket/path";
  watermark_delay = record { delay_window = int (pos 1); delay_interval = "second" };
  refresh_interval_options = record { refresh_window = int (pos 1); refresh_interval = "second" };
  form_errors = no_errors;
}

has_error-form_validator_iff_example : (has_error (form_validator form) ≡ false) ↔ IsValidForm form
has_error-form_validator_iff_example = has_error-form_validator_iff form

quoted_names_example : quoted_names (acceleration_query_builder form) ≡ "status" ∷ "bytes" ∷ []
quoted_names_example =
    quoted_names-acceleration_query_builder form
      (record {
        data_source = refl;
        database = refl;
        data_table = refl;
        index_name = refl;
        refresh_unit = refl;
        delay_unit = refl;
        checkpoint_location = refl;
      })
      refl (refl, (refl, tt))

abbrev flyout : Flyout
flyout = record { form = form; sent = []; is_open = true }

run_flyout_events-IsOfValidForm_example :
    All IsOfValidForm
      (run_flyout_events
        (copies ∷ changes (record form { acceleration_index_name = "" }) ∷ copies ∷ [])
        flyout).sent
run_flyout_events-IsOfValidForm_example =
    run_flyout_events-IsOfValidForm
      (copies ∷ changes (record form { acceleration_index_name = "" }) ∷ copies ∷ []) flyout refl

-- a `parseInt` that knows one number
abbrev parse_three : String → Number
parse_three s = elim (s == "3") [ true ↦ int (pos 3) | false ↦ nan ]

abbrev panel : Panel
panel = record { form = initial_form none; shown = initial_shown }

panel-IsShown : IsShown panel
unfolding initial_form
panel-IsShown = record {
  primary_shards = refl;
  replica_count = refl;
  refresh_type = refl;
  refresh_window = refl;
  refresh_interval = refl;
  delay_window = refl;
  delay_interval = refl;
  checkpoint = refl;
}

abbrev panel_events : List PanelEvent
panel_events =
    edits Input.refresh_type interval_refresh_id
    ∷ rewrites (record (initial_form none) { refresh_type = interval; data_table = "logs" })
    ∷ edits Input.refresh_window "3"
    ∷ []

run_panel_events-IsShown_example : IsShown (run_panel_events parse_three panel_events panel)
unfolding AreTimely on_panel_event initial_form on_change_refresh_type refresh_option
run_panel_events-IsShown_example =
    run_panel_events-IsShown parse_three panel_events panel
      (
        inr (inl refl),
        (
          record {
            primary_shards_count = refl;
            replica_shards_count = refl;
            refresh_type = refl;
            refresh_interval_options = refl;
            watermark_delay = refl;
            checkpoint_location = refl;
          },
          (tt, tt),
        ),
      )
      panel-IsShown

abbrev difference : DifferenceBy
difference = record {
  rows_by_rows = λ xs ys. filter (λ x. not (any (λ y. y.id == x.id) ys)) xs;
  fields_by_rows = λ xs ys. filter (λ x. not (any (λ y. y.id == x.id) ys)) xs;
}

difference-DifferenceByLaws : DifferenceByLaws difference
difference-DifferenceByLaws = record { rows_law = λ xs ys. refl; fields_law = λ xs ys. refl }

abbrev fields : List DataTableFieldsType
fields =
    record { id = "1"; field_name = "status"; data_type = "int" }
    ∷ record { id = "2"; field_name = "time"; data_type = "timestamp" }
    ∷ []

abbrev loaded : CreateAccelerationForm
loaded = on_fields (record form { data_table_fields = fields })

RowReach-IsRows_example : IsRows loaded
RowReach-IsRows_example =
    RowReach-IsRows difference difference-DifferenceByLaws form loaded refl
      (next here (load fields))

abbrev editor : ColumnEditor
editor = record { form = form; column_expression_values = [] }

abbrev column : MaterializedViewColumn
column = record { id = "9"; function_name = sum; function_param = "bytes"; field_alias = some "" }

abbrev column_events : List ColumnEvent
column_events = loads "0" fields ∷ adds column ∷ updates (to_alias "total") 1 ∷ deletes column ∷ []

form_ids_are_shown_example :
    ids (form_columns (run_column_events column_events editor))
    ≡ ids (run_column_events column_events editor).column_expression_values
form_ids_are_shown_example = form_ids_are_shown column_events editor refl

abbrev column_edits : List (ColumnChange × ℕ)
column_edits = (to_function count, 0) ∷ (to_alias "n", 0) ∷ []

edits_wait_for_an_addition_example :
    (acceleration_query_builder (run_column_events (only_updates column_edits) editor).form
      ≡ acceleration_query_builder editor.form)
    × (form_columns
          (on_add_expression column (run_column_events (only_updates column_edits) editor))
        ≡ (run_column_events (only_updates column_edits) editor).column_expression_values
          ++ (column ∷ []))
edits_wait_for_an_addition_example = edits_wait_for_an_addition column_edits column editor

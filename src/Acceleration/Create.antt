-- ===== src/Acceleration/Create.antt =====
-- public/components/acceleration/create/create_acceleration.tsx, and the handlers of
-- selectors/index_type_selector.tsx, define_index_options.tsx and covering_index_builder.tsx: the form from its
-- first state to the query that is copied to the editor.
use dashboards_query_workben.Common.{
  All, String, Bool, true, false, Option, none, List, [], ◌∷◌, ◌≡◌, refl, if◌then◌else◌, Bool-cases,
  inl, inr, get_or,
}
use dashboards_query_workben.Common.Numbers.{int, pos}
use dashboards_query_workben.Acceleration.Types.{
  CreateAccelerationForm, FormErrorsType, AccelerationIndexType, skipping, auto,
}
use dashboards_query_workben.Acceleration.Validate.{form_validator, has_error}
use dashboards_query_workben.Acceleration.Query.{acceleration_query_builder}
use dashboards_query_workben.Acceleration.Valid.{IsValidForm, has_error-form_validator_iff}

abbrev pub no_errors : FormErrorsType
no_errors = record {
  data_source_error = [];
  database_error = [];
  data_table_error = [];
  skipping_index_error = [];
  covering_index_error = [];
  materialized_view_error = [];
  index_name_error = [];
  primary_shards_error = [];
  replica_shards_error = [];
  refresh_interval_error = [];
  checkpoint_location_error = [];
  watermark_delay_error = [];
}

-- The argument is the label of the selected data source, if one is selected.
unfoldable pub initial_form : Option String → CreateAccelerationForm
initial_form selected_datasource = record {
  data_source = get_or selected_datasource "";
  data_table = "";
  database = "";
  data_table_fields = [];
  acceleration_index_type = skipping;
  skipping_index_query_data = [];
  covering_index_query_data = [];
  materialized_view_query_data = record {
    columns_values = [];
    group_by_tumble_value = record {
      time_field = "";
      tumble_window = int (pos 0);
      tumble_interval = "";
    };
  };
  acceleration_index_name = "skipping";
  primary_shards_count = int (pos 5);
  replica_shards_count = int (pos 1);
  refresh_type = auto;
  checkpoint_location = none;
  watermark_delay = record { delay_window = int (pos 1); delay_interval = "second" };
  refresh_interval_options = record { refresh_window = int (pos 1); refresh_interval = "second" };
  form_errors = no_errors;
}

abbrev is_skipping : AccelerationIndexType → Bool
is_skipping skipping = true
is_skipping _ = false

unfoldable pub on_change_index_type :
    AccelerationIndexType → CreateAccelerationForm → CreateAccelerationForm
on_change_index_type index_type f = record f {
  acceleration_index_type = index_type;
  acceleration_index_name = if is_skipping index_type then "skipping" else "";
}

unfoldable pub on_change_index_name : String → CreateAccelerationForm → CreateAccelerationForm
on_change_index_name value f = record f { acceleration_index_name = value }

-- `onChange` of the covering index's columns, with the labels of the selected options
unfoldable pub on_change_covering_fields :
    List String → CreateAccelerationForm → CreateAccelerationForm
on_change_covering_fields labels f = record f { covering_index_query_data = labels }

-- The flyout: its form, the queries it handed to `updateQueries`, and whether it is open.
pub record Flyout : Type 0 where
  pub form : CreateAccelerationForm
  pub sent : List String
  pub is_open : Bool

unfoldable pub copy_to_editor : Flyout → Flyout
copy_to_editor s =
    let errors = form_validator s.form in
    if has_error errors
    then record s { form = record s.form { form_errors = errors } }
    else record {
      form = s.form;
      sent = acceleration_query_builder s.form ∷ s.sent;
      is_open = false;
    }

-- The form is changed in some way, or copied to the editor.
pub data FlyoutEvent : Type 0 where
  changes : CreateAccelerationForm → FlyoutEvent
  copies : FlyoutEvent

unfoldable pub run_flyout_events : List FlyoutEvent → Flyout → Flyout
unfolding copy_to_editor
run_flyout_events [] s = s
run_flyout_events (changes form ∷ es) s = run_flyout_events es (record s { form = form })
run_flyout_events (copies ∷ es) s = run_flyout_events es (copy_to_editor s)

-- The statement of a valid form.
abbrev pub IsOfValidForm : String → Type 0
IsOfValidForm query =
    (form : CreateAccelerationForm) × IsValidForm form × (query ≡ acceleration_query_builder form)

copy_to_editor-IsOfValidForm :
    (s : Flyout) → All IsOfValidForm s.sent → All IsOfValidForm (copy_to_editor s).sent
unfolding copy_to_editor
copy_to_editor-IsOfValidForm s h = elim (Bool-cases (has_error (form_validator s.form))) [
  | inl bad ↦ rw bad h
  | inr good ↦ rw good ((s.form, (has_error-form_validator_iff s.form).0 good, refl), h)
]

run-IsOfValidForm :
    (es : List FlyoutEvent) (s : Flyout)
    → All IsOfValidForm s.sent
    → All IsOfValidForm (run_flyout_events es s).sent
unfolding run_flyout_events
run-IsOfValidForm [] s h = h
run-IsOfValidForm (changes form ∷ es) s h = run-IsOfValidForm es (record s { form = form }) h
run-IsOfValidForm (copies ∷ es) s h =
    run-IsOfValidForm es (copy_to_editor s) (copy_to_editor-IsOfValidForm s h)

-- From a flyout that has sent nothing, however its form is changed and however often it is copied to the editor, every
-- statement that was sent is the one of a form that is valid.
pub run_flyout_events-IsOfValidForm :
    (es : List FlyoutEvent) (s : Flyout)
    → s.sent ≡ []
    → All IsOfValidForm (run_flyout_events es s).sent
run_flyout_events-IsOfValidForm es s nothing = run-IsOfValidForm es s (rw nothing tt)

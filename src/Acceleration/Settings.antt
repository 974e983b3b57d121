-- ===== src/Acceleration/Settings.antt =====
-- public/components/acceleration/selectors/index_setting_options.tsx: the settings of an index, kept
-- both in the form and in the component that shows them.
use dashboards_query_workben.Common.{String, some, if◌then◌else◌, ◌==◌}
use dashboards_query_workben.Common.Numbers.{Number, int, pos}
use dashboards_query_workben.Acceleration.Types.{
  CreateAccelerationForm, FormErrorsType, AccelerationRefreshType, auto, interval, manual,
}
use dashboards_query_workben.Acceleration.Validate.{
  validate_primary_shard_count, validate_replica_count, validate_refresh_interval,
  validate_checkpoint_location, validate_watermark_delay,
}

abbrev pub auto_refresh_id : String
auto_refresh_id = "refresh-option-1"

abbrev pub interval_refresh_id : String
interval_refresh_id = "refresh-option-2"

abbrev pub manual_refresh_id : String
manual_refresh_id = "refresh-option-3"

-- The component's own state.
pub record Shown : Type 0 where
  pub primary_shards : Number
  pub replica_count : Number
  pub refresh_type_selected : String
  pub refresh_window : Number
  pub refresh_interval : String
  pub delay_window : Number
  pub delay_interval : String
  pub checkpoint : String

abbrev pub initial_shown : Shown
initial_shown = record {
  primary_shards = int (pos 5);
  replica_count = int (pos 1);
  refresh_type_selected = auto_refresh_id;
  refresh_window = int (pos 1);
  refresh_interval = "second";
  delay_window = int (pos 1);
  delay_interval = "second";
  checkpoint = "";
}

pub record Panel : Type 0 where
  pub form : CreateAccelerationForm
  pub shown : Shown

-- the `switch` of `onChangeRefreshType`
unfoldable pub refresh_option : String → AccelerationRefreshType
refresh_option option_id =
    if option_id == auto_refresh_id
    then auto
    else if option_id == interval_refresh_id
    then interval
    else if option_id == manual_refresh_id
    then manual
    else auto

-- The inputs of the component; each brings the text of its target.
pub data Input : Type 0 where
  primary_shards replica_count refresh_type refresh_window : Input
  delay_window refresh_interval delay_interval checkpoint : Input
  blur_primary_shards blur_replica_count blur_refresh_window : Input
  blur_checkpoint blur_delay_window : Input

-- `parseInt(text, 10)` is the platform's.
module _ (parse_int : String → Number) where
  unfoldable pub on_change_primary_shards : String → Panel → Panel
  on_change_primary_shards value p = record {
    form = record p.form { primary_shards_count = parse_int value };
    shown = record p.shown { primary_shards = parse_int value };
  }

  unfoldable pub on_change_replica_count : String → Panel → Panel
  on_change_replica_count value p = record {
    form = record p.form { replica_shards_count = parse_int value };
    shown = record p.shown { replica_count = parse_int value };
  }

  unfoldable pub on_change_refresh_type : String → Panel → Panel
  unfolding refresh_option
  on_change_refresh_type option_id p = record {
    form = record p.form { refresh_type = refresh_option option_id };
    shown = record p.shown { refresh_type_selected = option_id };
  }

  unfoldable pub on_change_refresh_window : String → Panel → Panel
  on_change_refresh_window value p = record {
    form = record p.form {
      refresh_interval_options = record p.form.refresh_interval_options {
        refresh_window = parse_int value;
      };
    };
    shown = record p.shown { refresh_window = parse_int value };
  }

  unfoldable pub on_change_delay_window : String → Panel → Panel
  on_change_delay_window value p = record {
    form = record p.form {
      watermark_delay = record p.form.watermark_delay { delay_window = parse_int value };
    };
    shown = record p.shown { delay_window = parse_int value };
  }

  unfoldable pub on_change_refresh_interval : String → Panel → Panel
  on_change_refresh_interval value p = record {
    form = record p.form {
      refresh_interval_options = record p.form.refresh_interval_options {
        refresh_interval = value;
      };
    };
    shown = record p.shown { refresh_interval = value };
  }

  unfoldable pub on_change_delay_interval : String → Panel → Panel
  on_change_delay_interval value p = record {
    form = record p.form {
      watermark_delay = record p.form.watermark_delay { delay_interval = value };
    };
    shown = record p.shown { delay_interval = value };
  }

  unfoldable pub on_change_checkpoint : String → Panel → Panel
  on_change_checkpoint value p = record {
    form = record p.form { checkpoint_location = some value };
    shown = record p.shown { checkpoint = value };
  }

  abbrev with_errors : (FormErrorsType → FormErrorsType) → Panel → Panel
  with_errors f p = record p { form = record p.form { form_errors = f p.form.form_errors } }

  unfoldable pub on_blur_primary_shards : String → Panel → Panel
  on_blur_primary_shards value =
      with_errors
        λ e. record e { primary_shards_error = validate_primary_shard_count (parse_int value) }

  unfoldable pub on_blur_replica_count : String → Panel → Panel
  on_blur_replica_count value =
      with_errors λ e. record e { replica_shards_error = validate_replica_count (parse_int value) }

  -- The validator is given the option's id.
  unfoldable pub on_blur_refresh_window : String → Panel → Panel
  on_blur_refresh_window value p =
      with_errors
        (λ e. record e {
          refresh_interval_error =
              validate_refresh_interval p.shown.refresh_type_selected (parse_int value);
        })
        p

  unfoldable pub on_blur_checkpoint : String → Panel → Panel
  on_blur_checkpoint value p =
      with_errors
        (λ e. record e {
          checkpoint_location_error = validate_checkpoint_location p.form.refresh_type (some value);
        })
        p

  unfoldable pub on_blur_delay_window : String → Panel → Panel
  on_blur_delay_window value p =
      with_errors
        (λ e. record e {
          watermark_delay_error =
              validate_watermark_delay p.form.acceleration_index_type (parse_int value);
        })
        p

  unfoldable pub on_input : Input → String → Panel → Panel
  on_input primary_shards = on_change_primary_shards
  on_input replica_count = on_change_replica_count
  on_input refresh_type = on_change_refresh_type
  on_input refresh_window = on_change_refresh_window
  on_input delay_window = on_change_delay_window
  on_input refresh_interval = on_change_refresh_interval
  on_input delay_interval = on_change_delay_interval
  on_input checkpoint = on_change_checkpoint
  on_input blur_primary_shards = on_blur_primary_shards
  on_input blur_replica_count = on_blur_replica_count
  on_input blur_refresh_window = on_blur_refresh_window
  on_input blur_checkpoint = on_blur_checkpoint
  on_input blur_delay_window = on_blur_delay_window

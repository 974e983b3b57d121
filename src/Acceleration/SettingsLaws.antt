-- ===== src/Acceleration/SettingsLaws.antt =====
-- selectors/index_setting_options.tsx: what is shown beside what the form holds.
use dashboards_query_workben.Common.{
  String, some, List, [], ◌∷◌, ◌≡◌, refl, arith, ap, sym, ◌∙◌, ◌⊎◌, inl, inr,
}
use dashboards_query_workben.Common.Numbers.{Number}
use dashboards_query_workben.Capabilities.{truthy}
use dashboards_query_workben.Acceleration.Types.{
  CreateAccelerationForm, AccelerationRefreshType, auto, interval, manual,
}
use dashboards_query_workben.Acceleration.Validate.{validate_refresh_interval}
use dashboards_query_workben.Acceleration.Settings.{
  refresh_option, Panel, Input, on_input, on_change_primary_shards, on_change_replica_count,
  on_change_refresh_type, on_change_refresh_window, on_change_delay_window,
  on_change_refresh_interval, on_change_delay_interval, on_change_checkpoint,
  on_blur_primary_shards, on_blur_replica_count, on_blur_refresh_window, on_blur_checkpoint,
  on_blur_delay_window, auto_refresh_id, interval_refresh_id, manual_refresh_id,
}

-- The option whose refresh type the form holds.
abbrev pub option_of : AccelerationRefreshType → String
option_of auto = auto_refresh_id
option_of interval = interval_refresh_id
option_of manual = manual_refresh_id

pub record IsShown (p : Panel) : Type 0 where
  pub primary_shards : p.shown.primary_shards ≡ p.form.primary_shards_count
  pub replica_count : p.shown.replica_count ≡ p.form.replica_shards_count
  pub refresh_type : p.shown.refresh_type_selected ≡ option_of p.form.refresh_type
  pub refresh_window : p.shown.refresh_window ≡ p.form.refresh_interval_options.refresh_window
  pub refresh_interval : p.shown.refresh_interval ≡ p.form.refresh_interval_options.refresh_interval
  pub delay_window : p.shown.delay_window ≡ p.form.watermark_delay.delay_window
  pub delay_interval : p.shown.delay_interval ≡ p.form.watermark_delay.delay_interval
  pub checkpoint : truthy (some p.shown.checkpoint) ≡ truthy p.form.checkpoint_location

-- What the user does to an input, and a form that another part of the flyout writes, such as the one that the reply with
-- a table's fields puts back.
pub data PanelEvent : Type 0 where
  edits : Input → String → PanelEvent
  rewrites : CreateAccelerationForm → PanelEvent

pub record SameSettings (a b : CreateAccelerationForm) : Type 0 where
  pub primary_shards_count : a.primary_shards_count ≡ b.primary_shards_count
  pub replica_shards_count : a.replica_shards_count ≡ b.replica_shards_count
  pub refresh_type : a.refresh_type ≡ b.refresh_type
  pub refresh_interval_options : a.refresh_interval_options ≡ b.refresh_interval_options
  pub watermark_delay : a.watermark_delay ≡ b.watermark_delay
  pub checkpoint_location : a.checkpoint_location ≡ b.checkpoint_location

-- The radio group brings the id of one of its options.
abbrev pub IsOffered : Input → String → Type 0
IsOffered Input.refresh_type value =
    (value ≡ auto_refresh_id) ⊎ (value ≡ interval_refresh_id) ⊎ (value ≡ manual_refresh_id)
IsOffered _ value = Unit

option_of-refresh_option :
    (value : String) → IsOffered Input.refresh_type value → value ≡ option_of (refresh_option value)
unfolding refresh_option
option_of-refresh_option value (inl e) = rw e refl
option_of-refresh_option value (inr (inl e)) = rw e refl
option_of-refresh_option value (inr (inr e)) = rw e refl

module _ (parse_int : String → Number) where
  on_change_refresh_type-IsShown :
      (value : String) (p : Panel)
      → IsOffered Input.refresh_type value
      → IsShown p
      → IsShown (on_change_refresh_type parse_int value p)
  unfolding on_change_refresh_type
  on_change_refresh_type-IsShown value p o s = record {
    primary_shards = s.primary_shards;
    replica_count = s.replica_count;
    refresh_type = option_of-refresh_option value o;
    refresh_window = s.refresh_window;
    refresh_interval = s.refresh_interval;
    delay_window = s.delay_window;
    delay_interval = s.delay_interval;
    checkpoint = s.checkpoint;
  }

  on_input-IsShown :
      (i : Input) (value : String) (p : Panel)
      → IsOffered i value
      → IsShown p
      → IsShown (on_input parse_int i value p)
  unfolding on_input on_change_primary_shards on_change_replica_count on_change_refresh_window
      on_change_delay_window on_change_refresh_interval on_change_delay_interval
      on_change_checkpoint on_blur_primary_shards on_blur_replica_count on_blur_refresh_window
      on_blur_checkpoint on_blur_delay_window
  on_input-IsShown Input.primary_shards value p o s = ground arith
  on_input-IsShown Input.replica_count value p o s = ground arith
  on_input-IsShown Input.refresh_type value p o s = on_change_refresh_type-IsShown value p o s
  on_input-IsShown Input.refresh_window value p o s = ground arith
  on_input-IsShown Input.delay_window value p o s = ground arith
  on_input-IsShown Input.refresh_interval value p o s = ground arith
  on_input-IsShown Input.delay_interval value p o s = ground arith
  on_input-IsShown Input.checkpoint value p o s = ground arith
  on_input-IsShown Input.blur_primary_shards value p o s = ground arith
  on_input-IsShown Input.blur_replica_count value p o s = ground arith
  on_input-IsShown Input.blur_refresh_window value p o s = ground arith
  on_input-IsShown Input.blur_checkpoint value p o s = ground arith
  on_input-IsShown Input.blur_delay_window value p o s = ground arith

  unfoldable pub on_panel_event : PanelEvent → Panel → Panel
  unfolding on_input
  on_panel_event (edits i value) p = on_input parse_int i value p
  on_panel_event (rewrites form) p = record p { form = form }

  unfoldable pub run_panel_events : List PanelEvent → Panel → Panel
  unfolding on_panel_event
  run_panel_events [] p = p
  run_panel_events (e ∷ es) p = run_panel_events es (on_panel_event e p)

  -- The radio group brings one of its options, and a form that another part writes has the settings of the form that it
  -- replaces.
  abbrev pub IsTimelyEvent : PanelEvent → Panel → Type 0
  IsTimelyEvent (edits i value) p = IsOffered i value
  IsTimelyEvent (rewrites form) p = SameSettings form p.form

  unfoldable pub AreTimely : List PanelEvent → Panel → Type 0
  AreTimely [] p = Unit
  AreTimely (e ∷ es) p = IsTimelyEvent e p × AreTimely es (on_panel_event e p)

  on_panel_event-IsShown :
      (e : PanelEvent) (p : Panel) → IsTimelyEvent e p → IsShown p → IsShown (on_panel_event e p)
  unfolding on_panel_event
  on_panel_event-IsShown (edits i value) p o s = on_input-IsShown i value p o s
  on_panel_event-IsShown (rewrites form) p o s = record {
    primary_shards = s.primary_shards ∙ sym o.primary_shards_count;
    replica_count = s.replica_count ∙ sym o.replica_shards_count;
    refresh_type = s.refresh_type ∙ ap option_of (sym o.refresh_type);
    refresh_window = s.refresh_window ∙ ap (λ w. w.refresh_window) (sym o.refresh_interval_options);
    refresh_interval =
        s.refresh_interval ∙ ap (λ w. w.refresh_interval) (sym o.refresh_interval_options);
    delay_window = s.delay_window ∙ ap (λ w. w.delay_window) (sym o.watermark_delay);
    delay_interval = s.delay_interval ∙ ap (λ w. w.delay_interval) (sym o.watermark_delay);
    checkpoint = s.checkpoint ∙ ap truthy (sym o.checkpoint_location);
  }

  -- However the user edits the settings, leaving inputs and choosing among the offered refresh types, and whatever forms
  -- other parts of the flyout write that have the settings of the form they replace, the panel goes on showing exactly
  -- the settings that the form holds.
  pub run_panel_events-IsShown :
      (es : List PanelEvent) (p : Panel)
      → AreTimely es p
      → IsShown p
      → IsShown (run_panel_events es p)
  unfolding run_panel_events AreTimely
  run_panel_events-IsShown [] p o s = s
  run_panel_events-IsShown (e ∷ es) p (o, os) s =
      run_panel_events-IsShown es (on_panel_event e p) os (on_panel_event-IsShown e p o s)

  -- Leaving the input of the refresh interval never reports an error, whatever the number and
  -- whatever refresh type is chosen, as long as the panel shows what the form holds.
  pub on_blur_refresh_window_silent :
      (value : String) (p : Panel)
      → IsShown p
      → (on_blur_refresh_window parse_int value p).form.form_errors.refresh_interval_error ≡ []
  unfolding on_blur_refresh_window validate_refresh_interval
  on_blur_refresh_window_silent value p s = silent p.form.refresh_type s.refresh_type
    where
      silent :
          (t : AccelerationRefreshType)
          → p.shown.refresh_type_selected ≡ option_of t
          → validate_refresh_interval p.shown.refresh_type_selected (parse_int value) ≡ []
      silent auto e = rw e refl
      silent interval e = rw e refl
      silent manual e = rw e refl

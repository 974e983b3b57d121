-- ===== src/Acceleration/Source/Selected.antt =====
-- The form beside what the three combo boxes show.
use dashboards_query_workben.Common.{
  String, Option, none, some, List, [], ◌∷◌, ◌≡◌, refl, arith, ◌∙◌,
}
use dashboards_query_workben.DataSources.{DataSourceItem}
use dashboards_query_workben.Acceleration.Types.{CreateAccelerationForm}
use dashboards_query_workben.Acceleration.Source.{
  Source, first_source, mount, chosen_data_source, chosen_database, on_change_data_source,
  on_change_database, on_change_table, on_data_sources, on_databases, on_tables, data_source_effect,
  database_effect, load_databases, load_tables, effects, load_data_source,
}

-- The label that a combo box with one selection shows.
abbrev pub shown_label : List String → String
shown_label [] = ""
shown_label (label ∷ labels) = label

pub record IsShown (s : Source) : Type 0 where
  pub data_source : s.form.data_source ≡ shown_label s.selected_data_connection
  pub database : s.form.database ≡ shown_label s.selected_database
  pub data_table : s.form.data_table ≡ shown_label s.selected_table

-- The user's choices, the replies to the component's calls, and a form that another part of the flyout writes, such as
-- the one that the reply with a table's fields puts back.
pub data SourceEvent : Type 0 where
  chooses_data_source chooses_database chooses_table : List String → SourceEvent
  gets_data_sources : Option (List DataSourceItem) → SourceEvent
  gets_databases gets_tables : String → List (List String) → SourceEvent
  rewrites : CreateAccelerationForm → SourceEvent

data_source_effect-IsShown :
    (before : Option String) (s : Source) → IsShown s → IsShown (data_source_effect before s)
unfolding data_source_effect load_databases
data_source_effect-IsShown before s h = ground arith

database_effect-IsShown :
    (before : Option String) (s : Source) → IsShown s → IsShown (database_effect before s)
unfolding database_effect load_tables
database_effect-IsShown before s h = ground arith

effects-IsShown :
    (before : CreateAccelerationForm) (s : Source) → IsShown s → IsShown (effects before s)
effects-IsShown before s h =
    database_effect-IsShown (some before.database) (data_source_effect (some before.data_source) s)
      (data_source_effect-IsShown (some before.data_source) s h)

first_source-IsShown :
    (selected : Option String) → IsShown (load_data_source (first_source selected))
unfolding first_source load_data_source
first_source-IsShown none = record { data_source = refl; database = refl; data_table = refl }
first_source-IsShown (some label) = record {
  data_source = refl;
  database = refl;
  data_table = refl;
}

mount-IsShown : (selected : Option String) → IsShown (mount selected)
unfolding mount
mount-IsShown selected =
    let s = load_data_source (first_source selected) in
    database_effect-IsShown none (data_source_effect none s)
      (data_source_effect-IsShown none s (first_source-IsShown selected))

module _ (to_upper_case to_lower_case : String → String) where
  unfoldable pub on_source_event : SourceEvent → Source → Source
  unfolding on_change_data_source on_change_database on_change_table on_data_sources on_databases
      on_tables data_source_effect database_effect
  on_source_event (chooses_data_source labels) s = on_change_data_source labels s
  on_source_event (chooses_database labels) s = on_change_database labels s
  on_source_event (chooses_table labels) s = on_change_table labels s
  on_source_event (gets_data_sources reply) s = on_data_sources to_upper_case reply s
  on_source_event (gets_databases status rows) s = on_databases to_lower_case status rows s
  on_source_event (gets_tables status rows) s = on_tables to_lower_case status rows s
  on_source_event (rewrites form) s = effects s.form (record s { form = form })

  unfoldable pub run_source_events : List SourceEvent → Source → Source
  run_source_events [] s = s
  run_source_events (e ∷ es) s = run_source_events es (on_source_event e s)

  -- The form that another part writes was made since the last choice: it has the data source, the database and the
  -- table of the form that it replaces.
  abbrev pub IsTimelyEvent : SourceEvent → Source → Type 0
  IsTimelyEvent (rewrites form) s =
      (form.data_source ≡ s.form.data_source)
      × (form.database ≡ s.form.database)
      × (form.data_table ≡ s.form.data_table)
  IsTimelyEvent _ s = Unit

  unfoldable pub AreTimely : List SourceEvent → Source → Type 0
  AreTimely [] s = Unit
  AreTimely (e ∷ es) s = IsTimelyEvent e s × AreTimely es (on_source_event e s)

  on_source_event-IsShown :
      (e : SourceEvent) (s : Source) → IsTimelyEvent e s → IsShown s → IsShown (on_source_event e s)
  unfolding on_source_event
  on_source_event-IsShown (chooses_data_source []) s timely h = h
  on_source_event-IsShown (chooses_data_source (label ∷ labels)) s timely h =
      effects-IsShown s.form (chosen_data_source label labels s)
        (record { data_source = refl; database = h.database; data_table = h.data_table })
  on_source_event-IsShown (chooses_database []) s timely h = h
  on_source_event-IsShown (chooses_database (label ∷ labels)) s timely h =
      effects-IsShown s.form (chosen_database label labels s)
        (record { data_source = h.data_source; database = refl; data_table = h.data_table })
  on_source_event-IsShown (chooses_table []) s timely h = h
  on_source_event-IsShown (chooses_table (label ∷ labels)) s timely h = record {
    data_source = h.data_source;
    database = h.database;
    data_table = refl;
  }
  on_source_event-IsShown (gets_data_sources none) s timely h = record {
    data_source = h.data_source;
    database = h.database;
    data_table = h.data_table;
  }
  on_source_event-IsShown (gets_data_sources (some connections)) s timely h = record {
    data_source = h.data_source;
    database = h.database;
    data_table = h.data_table;
  }
  on_source_event-IsShown (gets_databases status rows) s timely h = ground arith
  on_source_event-IsShown (gets_tables status rows) s timely h = ground arith
  on_source_event-IsShown (rewrites form) s (source, base, table) h =
      effects-IsShown s.form (record s { form = form })
        (record {
          data_source = source ∙ h.data_source;
          database = base ∙ h.database;
          data_table = table ∙ h.data_table;
        })

  run-IsShown :
      (es : List SourceEvent) (s : Source)
      → AreTimely es s
      → IsShown s
      → IsShown (run_source_events es s)
  unfolding run_source_events AreTimely
  run-IsShown [] s timely h = h
  run-IsShown (e ∷ es) s (timely, later) h =
      run-IsShown es (on_source_event e s) later (on_source_event-IsShown e s timely h)

  -- From the form that the flyout starts with, whatever the user chooses and whatever replies come, in whatever
  -- order, and whatever forms other parts of the flyout write that have the three texts of the form they replace: the
  -- form has the data source, the database and the table that the combo boxes show.
  pub run_source_events-IsShown :
      (selected : Option String) (es : List SourceEvent)
      → AreTimely es (mount selected)
      → IsShown (run_source_events es (mount selected))
  run_source_events-IsShown selected es timely =
      run-IsShown es (mount selected) timely (mount-IsShown selected)

-- ===== src/Acceleration/Source/Tests.antt =====
-- The combo boxes and the loading of fields, on concrete choices and replies.
use dashboards_query_workben.Common.{
  String, true, false, none, some, List, [], ◌∷◌, ◌≡◌, refl, map, ◌==◌, if◌then◌else◌, trim,
}
use dashboards_query_workben.Common.Numbers.{show_nat}
use dashboards_query_workben.Acceleration.Types.{DataTableFieldsType}
use dashboards_query_workben.Acceleration.Source.Selected.{
  IsShown, SourceEvent, AreTimely, on_source_event, rewrites, chooses_database, chooses_table,
  gets_tables, run_source_events, run_source_events-IsShown,
}
use dashboards_query_workben.Acceleration.Source.{
  Source, Call, mount, on_change_database, on_change_table, on_data_sources, on_databases,
  on_tables, FieldLoading, load_fields, on_table_fields,
}

abbrev sent : List Call → List String
sent calls = map (λ c. c.query.query) calls

abbrev lower : String → String
lower s = if s == "SUCCESS" then "success" else s

abbrev upper : String → String
upper s = if s == "s3glue" then "S3GLUE" else s

abbrev mounted : Source
mounted = mount (some "glue")

mount_calls : sent mounted.calls ≡ "SHOW SCHEMAS IN `glue`" ∷ []
unfolding mount
mount_calls = refl

mount_unselected : sent (mount none).calls ≡ []
unfolding mount
mount_unselected = refl

abbrev offered : Source
offered =
    on_data_sources upper
      (some (
        record { connector = "s3glue"; name = "glue" }
        ∷ record { connector = "prometheus"; name = "metrics" }
        ∷ []))
      mounted

offered_names : offered.data_connections ≡ "glue" ∷ []
unfolding mount on_data_sources
offered_names = refl

-- a database and a table, chosen of what was loaded
abbrev with_databases : Source
with_databases = on_databases lower "SUCCESS" (("old" ∷ []) ∷ ("new" ∷ []) ∷ []) offered

abbrev with_table : Source
with_table = on_change_table ("logs" ∷ []) (
    on_tables lower "success" (("old" ∷ "logs" ∷ []) ∷ ("short" ∷ []) ∷ [])
      (on_change_database ("old" ∷ []) with_databases))

loaded_databases : with_databases.databases ≡ some "old" ∷ some "new" ∷ []
unfolding mount on_data_sources on_databases
loaded_databases = refl

loaded_tables : with_table.tables ≡ some "logs" ∷ none ∷ []
unfolding mount on_data_sources on_databases on_tables on_change_database on_change_table
loaded_tables = refl

-- Another database leaves the table of the first one in the form.
abbrev moved : Source
moved = on_change_database ("new" ∷ []) with_table

moved_table : moved.form.data_table ≡ "logs"
unfolding mount on_data_sources on_databases on_tables on_change_database on_change_table
moved_table = refl

moved_calls :
    sent moved.calls
    ≡ "SHOW TABLES IN `glue`.`new`" ∷ "SHOW TABLES IN `glue`.`old`" ∷ "SHOW SCHEMAS IN `glue`" ∷ []
unfolding mount on_data_sources on_databases on_tables on_change_database on_change_table
moved_calls = refl

-- The same database again loads nothing.
same_calls : sent (on_change_database ("old" ∷ []) with_table).calls ≡ sent with_table.calls
unfolding mount on_data_sources on_databases on_tables on_change_database on_change_table
same_calls = refl

-- A blank database is reported as a data source.
blank_database :
    (on_change_database (" " ∷ []) with_table).form.form_errors.database_error
    ≡ "Select a valid data source" ∷ []
unfolding mount on_data_sources on_databases on_tables on_change_database on_change_table trim
blank_database = refl

-- A poll that is neither a success nor a failure leaves the combo box loading.
unrecognised : (on_databases lower "unknown" [] mounted).loading_combo_boxes.database ≡ true
unfolding mount on_databases
unrecognised = refl

abbrev fields_out : FieldLoading
fields_out = load_fields (record { form = with_table.form; loading = false; calls = [] })

fields_call : sent fields_out.calls ≡ "DESC `glue`.`old`.`logs`" ∷ []
unfolding mount on_data_sources on_databases on_tables on_change_database on_change_table
    load_fields
fields_call = refl

-- The reply to DESC, after the other database was chosen
abbrev replied : FieldLoading
replied =
    on_table_fields lower "id" with_table.form "success"
      (("status", "int") ∷ ("# Partition Information", "") ∷ ("day", "date") ∷ [])
      (record fields_out { form = moved.form })

replied_fields :
    map (λ (d : DataTableFieldsType). d.id) replied.form.data_table_fields ≡ "id1" ∷ "id2" ∷ []
unfolding on_table_fields show_nat
replied_fields = refl

-- puts the first one back in the form, while the combo box shows the other.
replied_database : replied.form.database ≡ "old"
unfolding mount on_data_sources on_databases on_tables on_change_database on_change_table
    on_table_fields
replied_database = refl

replied_selected : moved.selected_database ≡ "new" ∷ []
unfolding mount on_data_sources on_databases on_tables on_change_database on_change_table
replied_selected = refl

abbrev events : List SourceEvent
events =
    chooses_database ("old" ∷ [])
    ∷ gets_tables "success" (("old" ∷ "logs" ∷ []) ∷ [])
    ∷ chooses_table ("logs" ∷ [])
    ∷ rewrites (record (mount (some "glue")).form {
      database = "old";
      data_table = "logs";
      acceleration_index_name = "index";
    })
    ∷ chooses_database ("new" ∷ [])
    ∷ []

run_source_events-IsShown_example :
    IsShown (run_source_events upper lower events (mount (some "glue")))
unfolding AreTimely on_source_event mount on_tables on_change_database on_change_table
run_source_events-IsShown_example =
    run_source_events-IsShown upper lower (some "glue") events
      (tt, (tt, (tt, ((refl, refl, refl), (tt, tt)))))

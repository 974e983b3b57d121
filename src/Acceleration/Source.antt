-- ===== src/Acceleration/Source.antt =====
-- public/components/acceleration/selectors/source_selector.tsx, the three combo boxes that choose a table, and the
-- effect of index_type_selector.tsx that loads the table's fields.
pub mod Selected
mod Tests
use Prim.Native.Char.{code}
use dashboards_query_workben.Common.{
  ℕ, suc, String, Bool, true, false, not, Option, none, some, List, [], ◌∷◌, map, filter,
  if◌then◌else◌, ◌==◌, ◌⧺◌, is_blank, eqb, get_elem?,
}
use dashboards_query_workben.Common.Numbers.{show_nat}
use dashboards_query_workben.DataSources.{DataSourceItem}
use dashboards_query_workben.Async.{
  AsyncQuery, AsyncQueryStatus, success, failed, cancelled, status_of,
}
use dashboards_query_workben.Acceleration.Types.{CreateAccelerationForm, DataTableFieldsType}
use dashboards_query_workben.Acceleration.Validate.{validate_data_source}
use dashboards_query_workben.Acceleration.Create.{initial_form}

-- The arguments of a call of `executeAsyncQuery`. Its fourth argument is a function where it takes the
-- capabilities, so `caps.hasSessionId` is undefined; the arguments after it are missing.
pub record Call : Type 0 where
  pub current_data_source : String
  pub query : AsyncQuery

pub record LoadingComboBoxes : Type 0 where
  pub data_source : Bool
  pub database : Bool
  pub data_table : Bool

-- The component's state, the form of its parent, the calls it has made and the errors shown, the latest first.
-- A label read past the end of a row is undefined.
pub record Source : Type 0 where
  pub form : CreateAccelerationForm
  pub data_connections : List String
  pub selected_data_connection : List String
  pub databases : List (Option String)
  pub selected_database : List String
  pub tables : List (Option String)
  pub selected_table : List String
  pub loading_combo_boxes : LoadingComboBoxes
  pub calls : List Call
  pub toasts : List String

abbrev quoted : String → String
quoted name = "`" ⧺ name ⧺ "`"

abbrev sql_query : String → String → AsyncQuery
sql_query text data_source = record { lang = "sql"; query = text; datasource = data_source }

abbrev pub set_database_loading : Bool → Source → Source
set_database_loading b s = record s {
  loading_combo_boxes = record s.loading_combo_boxes { database = b };
}

abbrev pub set_table_loading : Bool → Source → Source
set_table_loading b s = record s {
  loading_combo_boxes = record s.loading_combo_boxes { data_table = b };
}

-- `loadDataSource` up to its reply: the flag is set and at once reset
unfoldable pub load_data_source : Source → Source
load_data_source s = record s {
  loading_combo_boxes = record s.loading_combo_boxes { data_source = false };
}

unfoldable pub load_databases : Source → Source
load_databases s = set_database_loading true (record s {
  calls =
      record {
        current_data_source = s.form.data_source;
        query = sql_query ("SHOW SCHEMAS IN " ⧺ quoted s.form.data_source) s.form.data_source;
      }
      ∷ s.calls;
})

unfoldable pub load_tables : Source → Source
load_tables s = set_table_loading true (record s {
  calls =
      record {
        current_data_source = s.form.data_source;
        query =
            sql_query ("SHOW TABLES IN " ⧺ quoted s.form.data_source ⧺ "." ⧺ quoted s.form.database)
              s.form.data_source;
      }
      ∷ s.calls;
})

-- The two effects on the form, with the texts that they depend on as they were at the last rendering; `none` on
-- the first.
abbrev pub is_due : Option String → String → Bool
is_due none now = not (is_blank now)
is_due (some before) now = if before == now then false else not (is_blank now)

unfoldable pub data_source_effect : Option String → Source → Source
unfolding load_databases
data_source_effect before s = if is_due before s.form.data_source then load_databases s else s

unfoldable pub database_effect : Option String → Source → Source
unfolding load_tables
database_effect before s = if is_due before s.form.database then load_tables s else s

abbrev pub effects : CreateAccelerationForm → Source → Source
effects before s =
    database_effect (some before.database) (data_source_effect (some before.data_source) s)

abbrev option_labels : Option String → List String
option_labels none = []
option_labels (some label) = label ∷ []

-- the form as the parent makes it, and the first values of the component's state
unfoldable pub first_source : Option String → Source
unfolding initial_form
first_source selected_datasource = record {
  form = initial_form selected_datasource;
  data_connections = [];
  selected_data_connection = option_labels selected_datasource;
  databases = [];
  selected_database = [];
  tables = [];
  selected_table = [];
  loading_combo_boxes = record { data_source = false; database = false; data_table = false };
  calls = [];
  toasts = [];
}

-- the first rendering
unfoldable pub mount : Option String → Source
unfolding first_source load_data_source data_source_effect database_effect
mount selected_datasource =
    database_effect none
      (data_source_effect none (load_data_source (first_source selected_datasource)))

-- what the first two handlers set, before the effects that this brings about
unfoldable pub chosen_data_source : String → List String → Source → Source
unfolding validate_data_source
chosen_data_source label labels s = record s {
  form = record s.form {
    data_source = label;
    form_errors = record s.form.form_errors { data_source_error = validate_data_source label };
  };
  selected_data_connection = label ∷ labels;
}

unfoldable pub chosen_database : String → List String → Source → Source
unfolding validate_data_source
chosen_database label labels s = record s {
  form = record s.form {
    database = label;
    form_errors = record s.form.form_errors { database_error = validate_data_source label };
  };
  selected_database = label ∷ labels;
}

unfoldable pub on_change_data_source : List String → Source → Source
unfolding chosen_data_source data_source_effect database_effect
on_change_data_source [] s = s
on_change_data_source (label ∷ labels) s = effects s.form (chosen_data_source label labels s)

unfoldable pub on_change_database : List String → Source → Source
unfolding chosen_database data_source_effect database_effect
on_change_database [] s = s
on_change_database (label ∷ labels) s = effects s.form (chosen_database label labels s)

unfoldable pub on_change_table : List String → Source → Source
unfolding validate_data_source
on_change_table [] s = s
on_change_table (label ∷ labels) s = record s {
  form = record s.form {
    data_table = label;
    form_errors = record s.form.form_errors { data_table_error = validate_data_source label };
  };
  selected_table = label ∷ labels;
}

abbrev is_final_failure : Option AsyncQueryStatus → Bool
is_final_failure (some failed) = true
is_final_failure (some cancelled) = true
is_final_failure _ = false

abbrev is_success : Option AsyncQueryStatus → Bool
is_success (some success) = true
is_success _ = false

module _ (to_upper_case : String → String) where
  -- `none` is a request that fails.
  unfoldable pub on_data_sources : Option (List DataSourceItem) → Source → Source
  on_data_sources none s = record s { toasts = "ERROR: failed to load datasources" ∷ s.toasts }
  on_data_sources (some connections) s = record s {
    data_connections =
        map (λ c. c.name)
          (filter (λ (c : DataSourceItem). to_upper_case c.connector == "S3GLUE") connections);
  }

module _ (to_lower_case : String → String) where
  unfoldable pub on_databases : String → List (List String) → Source → Source
  unfolding status_of
  on_databases text datarows s =
      let status = status_of (to_lower_case text) in
      if is_success status
      then set_database_loading false
          (record s { databases = map (λ row. get_elem? row 0) datarows })
      else if is_final_failure status
      then set_database_loading false s
      else s

  unfoldable pub on_tables : String → List (List String) → Source → Source
  unfolding status_of
  on_tables text datarows s =
      let status = status_of (to_lower_case text) in
      if is_success status
      then set_table_loading false (record s { tables = map (λ row. get_elem? row 1) datarows })
      else if is_final_failure status
      then set_table_loading false s
      else s

-- index_type_selector.tsx: the form and the flag of the loading, with the calls, the latest first
pub record FieldLoading : Type 0 where
  pub form : CreateAccelerationForm
  pub loading : Bool
  pub calls : List Call

-- the effect that runs when the table of the form has changed
unfoldable pub load_fields : FieldLoading → FieldLoading
load_fields s = if is_blank s.form.data_table then s else record s {
  loading = true;
  calls =
      record {
        current_data_source = s.form.data_source;
        query =
            sql_query
              ("DESC "
                ⧺ quoted s.form.data_source
                ⧺ "."
                ⧺ quoted s.form.database
                ⧺ "."
                ⧺ quoted s.form.data_table)
              s.form.data_source;
      }
      ∷ s.calls;
}

abbrev is_comment : String → Bool
is_comment String.[] = false
is_comment (String.◌∷◌ c s) = eqb (code c) b'#'

unfoldable pub fields_from : String → ℕ → List (String × String) → List DataTableFieldsType
fields_from id_prefix index [] = []
fields_from id_prefix index (row ∷ rows) =
    record { id = id_prefix ⧺ show_nat (suc index); field_name = row.0; data_type = row.1 }
    ∷ fields_from id_prefix (suc index) rows

-- A row of the reply to DESC has a name and a type. `captured` is the form that the effect was run with.
module _ (to_lower_case : String → String) (id_prefix : String)
    (captured : CreateAccelerationForm) where
  unfoldable pub on_table_fields : String → List (String × String) → FieldLoading → FieldLoading
  unfolding status_of fields_from
  on_table_fields text datarows s =
      let status = status_of (to_lower_case text) in
      if is_success status
      then record s {
        form = record captured {
          data_table_fields =
              fields_from id_prefix 0 (filter (λ row. not (is_comment row.0)) datarows);
        };
        loading = false;
      }
      else if is_final_failure status
      then record s { loading = false }
      else s

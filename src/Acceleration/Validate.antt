-- ===== src/Acceleration/Validate.antt =====
-- public/components/acceleration/create/utils.tsx: the validators of the acceleration form.
use Prim.Native.Char.{code}
use dashboards_query_workben.Common.{
  ℕ, String, Bool, true, false, not, ◌&&◌, ◌||◌, Option, none, some, List, [], ◌∷◌, if◌then◌else◌,
  leb, eqb, every, is_blank, trim, is_empty, ◌==◌,
}
use dashboards_query_workben.Common.Numbers.{Number, less, greater}
use dashboards_query_workben.Capabilities.{truthy}
use dashboards_query_workben.Acceleration.Types.{
  AccelerationIndexType, skipping, covering, materialized, AccelerationRefreshType, auto, interval,
  manual, CreateAccelerationForm, FormErrorsType, MaterializedViewQueryType, SkippingIndexRowType,
}

abbrev pub is_lower : ℕ → Bool
is_lower c = leb b'a' c && leb c b'z'

abbrev is_upper : ℕ → Bool
is_upper c = leb b'A' c && leb c b'Z'

abbrev is_digit : ℕ → Bool
is_digit c = leb b'0' c && leb c b'9'

-- `ACCELERATION_INDEX_NAME_REGEX`, /^[a-z][a-z_]*$/
abbrev pub is_name_char : ℕ → Bool
is_name_char c = is_lower c || eqb c b'_'

unfoldable pub is_index_name : String → Bool
is_index_name String.[] = false
is_index_name (String.◌∷◌ c s) = is_lower (code c) && every is_name_char s

-- `ACCELERATION_S3_URL_REGEX`, /^(s3|s3a):\/\/[a-zA-Z0-9.\-]+/, which is not anchored at the end
abbrev pub is_bucket_char : ℕ → Bool
is_bucket_char c = is_lower c || is_upper c || is_digit c || eqb c b'.' || eqb c b'-'

abbrev has_bucket : String → Bool
has_bucket String.[] = false
has_bucket (String.◌∷◌ c s) = is_bucket_char (code c)

-- `://` and a bucket
abbrev after_scheme : String → Bool
after_scheme (String.◌∷◌ a (String.◌∷◌ b (String.◌∷◌ c s))) =
    eqb (code a) b':' && eqb (code b) b'/' && eqb (code c) b'/' && has_bucket s
after_scheme _ = false

-- an optional `a` before it
abbrev after_s3 : String → Bool
after_s3 String.[] = false
after_s3 (String.◌∷◌ c s) =
    if eqb (code c) b'a' then after_scheme s else after_scheme (String.◌∷◌ c s)

unfoldable pub is_s3_url : String → Bool
is_s3_url (String.◌∷◌ a (String.◌∷◌ b s)) = eqb (code a) b's' && eqb (code b) b'3' && after_s3 s
is_s3_url _ = false

abbrev pub report : Bool → String → List String
report bad message = if bad then message ∷ [] else []

unfoldable pub pluralize_time : Number → String
pluralize_time time_window = if greater time_window 1 then "s" else ""

-- The keys of `FormErrorsType`.
pub data ErrorKey : Type 0 where
  data_source_error database_error data_table_error skipping_index_error : ErrorKey
  covering_index_error materialized_view_error index_name_error primary_shards_error : ErrorKey
  replica_shards_error refresh_interval_error checkpoint_location_error : ErrorKey
  watermark_delay_error : ErrorKey

abbrev pub errors_of : ErrorKey → FormErrorsType → List String
errors_of data_source_error e = e.data_source_error
errors_of database_error e = e.database_error
errors_of data_table_error e = e.data_table_error
errors_of skipping_index_error e = e.skipping_index_error
errors_of covering_index_error e = e.covering_index_error
errors_of materialized_view_error e = e.materialized_view_error
errors_of index_name_error e = e.index_name_error
errors_of primary_shards_error e = e.primary_shards_error
errors_of replica_shards_error e = e.replica_shards_error
errors_of refresh_interval_error e = e.refresh_interval_error
errors_of checkpoint_location_error e = e.checkpoint_location_error
errors_of watermark_delay_error e = e.watermark_delay_error

unfoldable pub has_error_at : FormErrorsType → ErrorKey → Bool
has_error_at e key = not (is_empty (errors_of key e))

-- `hasError` with no key
unfoldable pub has_error : FormErrorsType → Bool
has_error e =
    not (is_empty e.data_source_error)
    || not (is_empty e.database_error)
    || not (is_empty e.data_table_error)
    || not (is_empty e.skipping_index_error)
    || not (is_empty e.covering_index_error)
    || not (is_empty e.materialized_view_error)
    || not (is_empty e.index_name_error)
    || not (is_empty e.primary_shards_error)
    || not (is_empty e.replica_shards_error)
    || not (is_empty e.refresh_interval_error)
    || not (is_empty e.checkpoint_location_error)
    || not (is_empty e.watermark_delay_error)

unfoldable pub validate_data_source : String → List String
validate_data_source data_source = report (is_blank (trim data_source)) "Select a valid data source"

unfoldable pub validate_database : String → List String
validate_database database = report (is_blank (trim database)) "Select a valid database"

unfoldable pub validate_data_table : String → List String
validate_data_table data_table = report (is_blank (trim data_table)) "Select a valid table"

unfoldable pub validate_primary_shard_count : Number → List String
validate_primary_shard_count n = report (less n 1) "Primary shards count should be greater than 0"

unfoldable pub validate_replica_count : Number → List String
validate_replica_count n = report (less n 0) "Replica count should be equal or greater than 0"

abbrev pub is_materialized : AccelerationIndexType → Bool
is_materialized materialized = true
is_materialized _ = false

unfoldable pub validate_watermark_delay : AccelerationIndexType → Number → List String
validate_watermark_delay index_type delay_window =
    report (is_materialized index_type && less delay_window 1)
      "delay window should be greater than 0"

unfoldable pub validate_index_name : String → List String
unfolding is_index_name
validate_index_name value = report (not (is_index_name value)) "Enter a valid index name"

abbrev pub is_manual : AccelerationRefreshType → Bool
is_manual manual = true
is_manual _ = false

-- the text of a refresh type, which `validateRefreshInterval` is given
abbrev pub refresh_type_text : AccelerationRefreshType → String
refresh_type_text auto = "auto"
refresh_type_text interval = "interval"
refresh_type_text manual = "manual"

unfoldable pub validate_refresh_interval : String → Number → List String
validate_refresh_interval refresh_type refresh_window =
    report (refresh_type == "interval" && less refresh_window 1)
      "refresh window should be greater than 0"

unfoldable pub validate_checkpoint_location : AccelerationRefreshType → Option String → List String
unfolding is_s3_url
validate_checkpoint_location refresh_type checkpoint_location = elim (truthy checkpoint_location) [
  | none ↦ report (not (is_manual refresh_type)) "Checkpoint location is mandatory for auto refresh"
  | some location ↦ report (not (is_s3_url location)) "Enter a valid checkpoint location"
]

unfoldable pub validate_skipping_index_data :
    AccelerationIndexType → List SkippingIndexRowType → List String
validate_skipping_index_data skipping rows =
    report (is_empty rows) "Add fields to the skipping index definition"
validate_skipping_index_data _ rows = []

unfoldable pub validate_covering_index_data : AccelerationIndexType → List String → List String
validate_covering_index_data covering fields =
    report (is_empty fields) "Add fields to covering index definition"
validate_covering_index_data _ fields = []

unfoldable pub validate_materialized_view_data :
    AccelerationIndexType → MaterializedViewQueryType → List String
validate_materialized_view_data materialized q =
    let tumble = q.group_by_tumble_value in
    if is_empty q.columns_values
    then "Add columns to materialized view definition" ∷ []
    else if is_blank tumble.time_field
    then "Add a time field to tumble function in materialized view definition" ∷ []
    else report (less tumble.tumble_window 1)
        "Add a valid time window to tumble function in materialized view definition"
validate_materialized_view_data _ q = []

unfoldable pub form_validator : CreateAccelerationForm → FormErrorsType
form_validator form =
    let index_type = form.acceleration_index_type in
    record {
      data_source_error = validate_data_source form.data_source;
      database_error = validate_database form.database;
      data_table_error = validate_data_table form.data_table;
      skipping_index_error = validate_skipping_index_data index_type form.skipping_index_query_data;
      covering_index_error = validate_covering_index_data index_type form.covering_index_query_data;
      materialized_view_error =
          validate_materialized_view_data index_type form.materialized_view_query_data;
      index_name_error = validate_index_name form.acceleration_index_name;
      primary_shards_error = validate_primary_shard_count form.primary_shards_count;
      replica_shards_error = validate_replica_count form.replica_shards_count;
      refresh_interval_error =
          validate_refresh_interval (refresh_type_text form.refresh_type)
            form.refresh_interval_options.refresh_window;
      checkpoint_location_error =
          validate_checkpoint_location form.refresh_type form.checkpoint_location;
      watermark_delay_error = validate_watermark_delay index_type form.watermark_delay.delay_window;
    }

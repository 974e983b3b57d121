-- ===== src/Acceleration/Valid.antt =====
-- create/utils.tsx: when the form has no error.
use dashboards_query_workben.Common.{
  ℕ, String, true, false, Option, none, some, [], ◌≡◌, refl, ◌≢◌, ◌↔◌, arith, every, is_space,
  is_blank, is_empty,
}
use dashboards_query_workben.Common.Numbers.{Number, NotBelow, less, nan, int, pos, negsuc}
use dashboards_query_workben.Common.Spaces.{is_blank-trim}
use dashboards_query_workben.Capabilities.{truthy}
use dashboards_query_workben.Acceleration.Types.{
  skipping, covering, materialized, auto, interval, manual, CreateAccelerationForm,
  AccelerationRefreshType, AccelerationIndexType, FormErrorsType,
}
use dashboards_query_workben.Acceleration.Validate.{
  is_index_name, is_s3_url, has_error, form_validator, validate_data_source, validate_database,
  validate_data_table, validate_primary_shard_count, validate_replica_count,
  validate_watermark_delay, validate_index_name, validate_refresh_interval, refresh_type_text,
  validate_checkpoint_location, validate_skipping_index_data, validate_covering_index_data,
  validate_materialized_view_data,
}

-- Some character is not white space.
abbrev pub HasText : String → Type 0
HasText s = every is_space s ≡ false

-- A location is there unless the refresh is manual, and a location that is there is an S3 address.
abbrev pub IsLocated : AccelerationRefreshType → Option String → Type 0
IsLocated manual none = Unit
IsLocated _ none = ⊥
IsLocated _ (some location) = is_s3_url location ≡ true

-- A refresh at an interval has one.
abbrev pub IsTimely : AccelerationRefreshType → Number → Type 0
IsTimely interval n = NotBelow 1 n
IsTimely _ n = Unit

-- What the query of the index type is built from.
abbrev pub IsDefined : AccelerationIndexType → CreateAccelerationForm → Type 0
IsDefined skipping f = f.skipping_index_query_data ≢ []
IsDefined covering f = f.covering_index_query_data ≢ []
IsDefined materialized f =
    let q = f.materialized_view_query_data in
    (q.columns_values ≢ [])
    × (q.group_by_tumble_value.time_field ≢ "")
    × NotBelow 1 q.group_by_tumble_value.tumble_window
    × NotBelow 1 f.watermark_delay.delay_window

-- A form that can be turned into a query. `NaN` counts as a number of shards, replicas or units.
pub record IsValidForm (f : CreateAccelerationForm) : Type 0 where
  pub data_source : HasText f.data_source
  pub database : HasText f.database
  pub data_table : HasText f.data_table
  pub index_name : is_index_name f.acceleration_index_name ≡ true
  pub primary_shards : NotBelow 1 f.primary_shards_count
  pub replica_shards : NotBelow 0 f.replica_shards_count
  pub refresh_interval : IsTimely f.refresh_type f.refresh_interval_options.refresh_window
  pub checkpoint_location : IsLocated f.refresh_type (truthy f.checkpoint_location)
  pub definition : IsDefined f.acceleration_index_type f

less_iff : (n : Number) (k : ℕ) → (less n k ≡ false) ↔ NotBelow k n
less_iff nan k = ground arith
less_iff (int (pos n)) k = ground arith
less_iff (int (negsuc n)) k = ground arith

-- No list of messages has a message.
record IsClean (e : FormErrorsType) : Type 0 where
  data_source : is_empty e.data_source_error ≡ true
  database : is_empty e.database_error ≡ true
  data_table : is_empty e.data_table_error ≡ true
  skipping_index : is_empty e.skipping_index_error ≡ true
  covering_index : is_empty e.covering_index_error ≡ true
  materialized_view : is_empty e.materialized_view_error ≡ true
  index_name : is_empty e.index_name_error ≡ true
  primary_shards : is_empty e.primary_shards_error ≡ true
  replica_shards : is_empty e.replica_shards_error ≡ true
  refresh_interval : is_empty e.refresh_interval_error ≡ true
  checkpoint_location : is_empty e.checkpoint_location_error ≡ true
  watermark_delay : is_empty e.watermark_delay_error ≡ true

has_error_iff : (e : FormErrorsType) → (has_error e ≡ false) ↔ IsClean e
unfolding has_error
has_error_iff e = ground arith

data_source_iff : (s : String) → (is_empty (validate_data_source s) ≡ true) ↔ HasText s
unfolding validate_data_source
data_source_iff s = ground (arith, is_blank-trim s)

database_iff : (s : String) → (is_empty (validate_database s) ≡ true) ↔ HasText s
unfolding validate_database
database_iff s = ground (arith, is_blank-trim s)

data_table_iff : (s : String) → (is_empty (validate_data_table s) ≡ true) ↔ HasText s
unfolding validate_data_table
data_table_iff s = ground (arith, is_blank-trim s)

index_name_iff : (s : String) → (is_empty (validate_index_name s) ≡ true) ↔ (is_index_name s ≡ true)
unfolding validate_index_name
index_name_iff s = ground arith

primary_shards_iff :
    (n : Number) → (is_empty (validate_primary_shard_count n) ≡ true) ↔ NotBelow 1 n
unfolding validate_primary_shard_count
primary_shards_iff n = ground (arith, less_iff n 1)

replica_shards_iff : (n : Number) → (is_empty (validate_replica_count n) ≡ true) ↔ NotBelow 0 n
unfolding validate_replica_count
replica_shards_iff n = ground (arith, less_iff n 0)

refresh_interval_iff :
    (t : AccelerationRefreshType) (n : Number)
    → (is_empty (validate_refresh_interval (refresh_type_text t) n) ≡ true) ↔ IsTimely t n
unfolding validate_refresh_interval
refresh_interval_iff auto n = ground (arith, less_iff n 1)
refresh_interval_iff interval n = ground (arith, less_iff n 1)
refresh_interval_iff manual n = ground (arith, less_iff n 1)

checkpoint_location_iff :
    (t : AccelerationRefreshType) (location : Option String)
    → (is_empty (validate_checkpoint_location t location) ≡ true) ↔ IsLocated t (truthy location)
unfolding validate_checkpoint_location
checkpoint_location_iff auto none = ground arith
checkpoint_location_iff interval none = ground arith
checkpoint_location_iff manual none = ground arith
checkpoint_location_iff auto (some l) = ground arith
checkpoint_location_iff interval (some l) = ground arith
checkpoint_location_iff manual (some l) = ground arith

is_blank_iff : (s : String) → (is_blank s ≡ false) ↔ (s ≢ "")
is_blank_iff String.[] = ((λ h. cc), (λ h. absurd (h refl)))
is_blank_iff (String.◌∷◌ c s) = ((λ h e. cc), (λ h. refl))

-- The four validators that look at the index type.
definition_iff :
    (t : AccelerationIndexType) (f : CreateAccelerationForm)
    → ((is_empty (validate_skipping_index_data t f.skipping_index_query_data) ≡ true)
        × (is_empty (validate_covering_index_data t f.covering_index_query_data) ≡ true)
        × (is_empty (validate_materialized_view_data t f.materialized_view_query_data) ≡ true)
        × (is_empty (validate_watermark_delay t f.watermark_delay.delay_window) ≡ true))
      ↔ IsDefined t f
unfolding validate_skipping_index_data validate_covering_index_data validate_materialized_view_data
    validate_watermark_delay
definition_iff skipping f = ground arith
definition_iff covering f = ground arith
definition_iff materialized f =
    let q = f.materialized_view_query_data in
    ground (
      arith,
      is_blank_iff q.group_by_tumble_value.time_field,
      less_iff q.group_by_tumble_value.tumble_window 1,
      less_iff f.watermark_delay.delay_window 1,
    )

-- The validator finds no error exactly in a form whose data source, database and table have text,
-- whose index name is well formed, whose numbers of shards and replicas are not too small, whose
-- refresh interval is not too small if it is used, whose checkpoint location is an S3 address and is
-- there unless the refresh is manual, and that defines what the query of its index type needs.
pub has_error-form_validator_iff :
    (f : CreateAccelerationForm) → (has_error (form_validator f) ≡ false) ↔ IsValidForm f
unfolding form_validator
has_error-form_validator_iff f =
    let location = checkpoint_location_iff f.refresh_type f.checkpoint_location in
    let window = refresh_interval_iff f.refresh_type f.refresh_interval_options.refresh_window in
    let defined = definition_iff f.acceleration_index_type f in
    (
      λ h.
          let c = (has_error_iff (form_validator f)).0 h in
          record {
            data_source = (data_source_iff f.data_source).0 c.data_source;
            database = (database_iff f.database).0 c.database;
            data_table = (data_table_iff f.data_table).0 c.data_table;
            index_name = (index_name_iff f.acceleration_index_name).0 c.index_name;
            primary_shards = (primary_shards_iff f.primary_shards_count).0 c.primary_shards;
            replica_shards = (replica_shards_iff f.replica_shards_count).0 c.replica_shards;
            refresh_interval = window.0 c.refresh_interval;
            checkpoint_location = location.0 c.checkpoint_location;
            definition =
                defined.0
                  (c.skipping_index, c.covering_index, c.materialized_view, c.watermark_delay);
          },
      λ v.
          let d = defined.1 v.definition in
          (has_error_iff (form_validator f)).1 (record {
            data_source = (data_source_iff f.data_source).1 v.data_source;
            database = (database_iff f.database).1 v.database;
            data_table = (data_table_iff f.data_table).1 v.data_table;
            skipping_index = d.0;
            covering_index = d.1;
            materialized_view = d.2;
            index_name = (index_name_iff f.acceleration_index_name).1 v.index_name;
            primary_shards = (primary_shards_iff f.primary_shards_count).1 v.primary_shards;
            replica_shards = (replica_shards_iff f.replica_shards_count).1 v.replica_shards;
            refresh_interval = window.1 v.refresh_interval;
            checkpoint_location = location.1 v.checkpoint_location;
            watermark_delay = d.3;
          }),
    )

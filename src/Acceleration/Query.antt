-- ===== src/Acceleration/Query.antt =====
-- public/components/acceleration/visual_editors/query_builder.tsx: the CREATE statement of a form.
use dashboards_query_workben.Common.{
  String, Bool, true, false, Option, none, some, List, [], ◌∷◌, ◌++◌, map, if◌then◌else◌, ◌==◌, ◌⧺◌,
  join,
}
use dashboards_query_workben.Common.Numbers.{show}
use dashboards_query_workben.Capabilities.{truthy}
use dashboards_query_workben.Acceleration.Types.{
  AccelerationIndexType, skipping, covering, materialized, AccelerationRefreshType, interval,
  CreateAccelerationForm, SkippingIndexRowType, SkippingIndexAccMethodType, partition, value_set,
  min_max, AggregationFunctionType, count, sum, avg, max, min, MaterializedViewColumn,
  GroupByTumbleType,
}
use dashboards_query_workben.Acceleration.Validate.{pluralize_time, is_manual, is_materialized}

abbrev pub is_interval : AccelerationRefreshType → Bool
is_interval interval = true
is_interval _ = false

abbrev pub settings_option : CreateAccelerationForm → String
settings_option form =
    "index_settings = '{\"number_of_shards\":"
    ⧺ show form.primary_shards_count
    ⧺ ",\"number_of_replicas\":"
    ⧺ show form.replica_shards_count
    ⧺ "}'"

abbrev pub auto_refresh_option : CreateAccelerationForm → String
auto_refresh_option form =
    "auto_refresh = " ⧺ (if is_manual form.refresh_type then "false" else "true")

abbrev pub interval_option : CreateAccelerationForm → String
interval_option form =
    let o = form.refresh_interval_options in
    "refresh_interval = '"
    ⧺ show o.refresh_window
    ⧺ " "
    ⧺ o.refresh_interval
    ⧺ pluralize_time o.refresh_window
    ⧺ "'"

abbrev pub watermark_option : CreateAccelerationForm → String
watermark_option form =
    let o = form.watermark_delay in
    "watermark_delay = '"
    ⧺ show o.delay_window
    ⧺ " "
    ⧺ o.delay_interval
    ⧺ pluralize_time o.delay_window
    ⧺ "'"

abbrev pub checkpoint_option : Option String → List String
checkpoint_option none = []
checkpoint_option (some location) = ("checkpoint_location = '" ⧺ location ⧺ "'") ∷ []

-- the array that the options are pushed to
unfoldable pub index_options : CreateAccelerationForm → List String
index_options form =
    settings_option form
    ∷ auto_refresh_option form
    ∷ ((if is_interval form.refresh_type then interval_option form ∷ [] else [])
        ++ ((if is_materialized form.acceleration_index_type
              then watermark_option form ∷ []
              else [])
            ++ (if is_manual form.refresh_type
                then []
                else checkpoint_option (truthy form.checkpoint_location))))

unfoldable pub build_index_options : CreateAccelerationForm → String
unfolding index_options
build_index_options form = "WITH (\n" ⧺ join ",\n" (index_options form) ⧺ "\n)"

abbrev pub method_text : SkippingIndexAccMethodType → String
method_text partition = "PARTITION"
method_text value_set = "VALUE_SET"
method_text min_max = "MIN_MAX"

abbrev pub skipping_column : SkippingIndexRowType → String
skipping_column n = "   `" ⧺ n.field_name ⧺ "` " ⧺ method_text n.acceleration_method

unfoldable pub build_skipping_index_columns : List SkippingIndexRowType → String
build_skipping_index_columns rows = join ", \n" (map skipping_column rows)

-- `${dataSource}.${database}.${dataTable}`
abbrev pub table_name : CreateAccelerationForm → String
table_name form = form.data_source ⧺ "." ⧺ form.database ⧺ "." ⧺ form.data_table

unfoldable pub skipping_index_query_builder : CreateAccelerationForm → String
unfolding build_skipping_index_columns
skipping_index_query_builder form =
    "CREATE SKIPPING INDEX\nON "
    ⧺ table_name form
    ⧺ " (\n"
    ⧺ build_skipping_index_columns form.skipping_index_query_data
    ⧺ "\n  ) "
    ⧺ build_index_options form

abbrev pub covering_column : String → String
covering_column field = "   `" ⧺ field ⧺ "`"

unfoldable pub build_covering_index_columns : List String → String
build_covering_index_columns fields = join ", \n" (map covering_column fields)

unfoldable pub covering_index_query_builder : CreateAccelerationForm → String
unfolding build_covering_index_columns
covering_index_query_builder form =
    "CREATE INDEX "
    ⧺ form.acceleration_index_name
    ⧺ "\nON "
    ⧺ table_name form
    ⧺ " (\n"
    ⧺ build_covering_index_columns form.covering_index_query_data
    ⧺ "\n  ) "
    ⧺ build_index_options form

abbrev pub function_text : AggregationFunctionType → String
function_text count = "count"
function_text sum = "sum"
function_text avg = "avg"
function_text max = "max"
function_text min = "min"

abbrev pub build_materialized_view_column_name : String → String
build_materialized_view_column_name column_name =
    if column_name == "*" then column_name else "`" ⧺ column_name ⧺ "`"

abbrev pub alias_text : Option String → String
alias_text none = ""
alias_text (some alias) = " AS `" ⧺ alias ⧺ "`"

abbrev pub materialized_column : MaterializedViewColumn → String
materialized_column column =
    "   "
    ⧺ function_text column.function_name
    ⧺ "("
    ⧺ build_materialized_view_column_name column.function_param
    ⧺ ")"
    ⧺ alias_text (truthy column.field_alias)

unfoldable pub build_materialized_view_columns : List MaterializedViewColumn → String
build_materialized_view_columns columns = join ", \n" (map materialized_column columns)

unfoldable pub build_tumble_value : GroupByTumbleType → String
build_tumble_value g =
    "(`"
    ⧺ g.time_field
    ⧺ "`, '"
    ⧺ show g.tumble_window
    ⧺ " "
    ⧺ g.tumble_interval
    ⧺ pluralize_time g.tumble_window
    ⧺ "')"

unfoldable pub materialized_query_view_builder : CreateAccelerationForm → String
unfolding build_materialized_view_columns build_tumble_value
materialized_query_view_builder form =
    let q = form.materialized_view_query_data in
    "CREATE MATERIALIZED VIEW "
    ⧺ form.data_source
    ⧺ "."
    ⧺ form.database
    ⧺ "."
    ⧺ form.acceleration_index_name
    ⧺ "\nAS SELECT\n"
    ⧺ build_materialized_view_columns q.columns_values
    ⧺ "\nFROM "
    ⧺ table_name form
    ⧺ "\nGROUP BY TUMBLE "
    ⧺ build_tumble_value q.group_by_tumble_value
    ⧺ "\n "
    ⧺ build_index_options form

-- The `switch`; its default case is no index type.
unfoldable pub by_type : AccelerationIndexType → CreateAccelerationForm → String
by_type skipping form = skipping_index_query_builder form
by_type covering form = covering_index_query_builder form
by_type materialized form = materialized_query_view_builder form

unfoldable pub acceleration_query_builder : CreateAccelerationForm → String
unfolding by_type
acceleration_query_builder form = by_type form.acceleration_index_type form

-- ===== src/Acceleration/Types.antt =====
-- common/types/index.ts: the data of the acceleration form.
use dashboards_query_workben.Common.{String, Option, List}
use dashboards_query_workben.Common.Numbers.{Number}

pub data AggregationFunctionType : Type 0 where
  count sum avg max min : AggregationFunctionType

pub record MaterializedViewColumn : Type 0 where
  pub id : String
  pub function_name : AggregationFunctionType
  pub function_param : String
  pub field_alias : Option String

pub data SkippingIndexAccMethodType : Type 0 where
  partition value_set min_max : SkippingIndexAccMethodType

pub record SkippingIndexRowType : Type 0 where
  pub id : String
  pub field_name : String
  pub data_type : String
  pub acceleration_method : SkippingIndexAccMethodType

pub record DataTableFieldsType : Type 0 where
  pub id : String
  pub field_name : String
  pub data_type : String

pub record RefreshIntervalType : Type 0 where
  pub refresh_window : Number
  pub refresh_interval : String

pub record WatermarkDelayType : Type 0 where
  pub delay_window : Number
  pub delay_interval : String

pub data AccelerationIndexType : Type 0 where
  skipping covering materialized : AccelerationIndexType

pub record GroupByTumbleType : Type 0 where
  pub time_field : String
  pub tumble_window : Number
  pub tumble_interval : String

pub record MaterializedViewQueryType : Type 0 where
  pub columns_values : List MaterializedViewColumn
  pub group_by_tumble_value : GroupByTumbleType

pub record FormErrorsType : Type 0 where
  pub data_source_error : List String
  pub database_error : List String
  pub data_table_error : List String
  pub skipping_index_error : List String
  pub covering_index_error : List String
  pub materialized_view_error : List String
  pub index_name_error : List String
  pub primary_shards_error : List String
  pub replica_shards_error : List String
  pub refresh_interval_error : List String
  pub checkpoint_location_error : List String
  pub watermark_delay_error : List String

pub data AccelerationRefreshType : Type 0 where
  auto interval manual : AccelerationRefreshType

pub record CreateAccelerationForm : Type 0 where
  pub data_source : String
  pub database : String
  pub data_table : String
  pub data_table_fields : List DataTableFieldsType
  pub acceleration_index_type : AccelerationIndexType
  pub skipping_index_query_data : List SkippingIndexRowType
  pub covering_index_query_data : List String
  pub materialized_view_query_data : MaterializedViewQueryType
  pub acceleration_index_name : String
  pub primary_shards_count : Number
  pub replica_shards_count : Number
  pub refresh_type : AccelerationRefreshType
  pub checkpoint_location : Option String
  pub watermark_delay : WatermarkDelayType
  pub refresh_interval_options : RefreshIntervalType
  pub form_errors : FormErrorsType

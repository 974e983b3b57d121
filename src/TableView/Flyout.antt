-- ===== src/TableView/Flyout.antt =====
-- public/components/SQLPage/acceleration_index_flyout.tsx: the statements that the flyout offers for an acceleration.
use dashboards_query_workben.Common.{String, ◌∷◌, get_or, ◌⧺◌}
use dashboards_query_workben.Acceleration.Types.{skipping, covering, materialized}
use dashboards_query_workben.TableView.{IndexFlyout, View, undefined, shown, reset_flyout}

pub record IndexMetaData : Type 0 where
  pub describe_query : String
  pub drop_query : String
  pub index_name : String
  pub context_type : String

module _ (props : IndexFlyout) where
  -- `${dataSource}.${database}.${dataTable}`, with another separator for the name of the index
  abbrev path : String → String
  path separator =
      props.data_source ⧺ separator ⧺ shown props.database ⧺ separator ⧺ shown props.data_table

  abbrev own_name : String
  own_name = shown (get_or props.index_name undefined)

  abbrev pub acceleration_query : String
  acceleration_query = elim props.acceleration_index_type [
    | skipping ↦ "SKIPPING INDEX ON " ⧺ path "."
    | covering ↦ "INDEX " ⧺ own_name ⧺ " ON " ⧺ path "."
    | materialized ↦ "MATERIALIZED VIEW " ⧺ path "."
  ]

  abbrev pub generated_index_name : String
  generated_index_name = elim props.acceleration_index_type [
    | skipping ↦ "flint_" ⧺ path "_" ⧺ "_skipping_index"
    | covering ↦ "flint_" ⧺ path "_" ⧺ "_" ⧺ own_name ⧺ "_index"
    | materialized ↦ "flint_" ⧺ path "_"
  ]

  unfoldable pub generate_query_and_index_name : IndexMetaData
  generate_query_and_index_name = record {
    describe_query = "DESC " ⧺ acceleration_query;
    drop_query = "DROP " ⧺ acceleration_query;
    index_name = generated_index_name;
    context_type = elim props.acceleration_index_type [ materialized ↦ "view" | _ ↦ "index" ];
  }

unfoldable pub update_describe_query : IndexFlyout → View → View
unfolding generate_query_and_index_name reset_flyout
update_describe_query props v =
    reset_flyout
      (record v { editor = (generate_query_and_index_name props).describe_query ∷ v.editor })

unfoldable pub update_drop_query : IndexFlyout → View → View
unfolding generate_query_and_index_name reset_flyout
update_drop_query props v =
    reset_flyout (record v { editor = (generate_query_and_index_name props).drop_query ∷ v.editor })

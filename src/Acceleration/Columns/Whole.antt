-- ===== src/Acceleration/Columns/Whole.antt =====
-- visual_editors/query_builder.tsx: the names that a whole statement quotes.
use dashboards_query_workben.Common.{String, none, List, [], ◌∷◌, ◌≡◌, refl, ap, ◌⧺◌, All}
use dashboards_query_workben.Acceleration.Types.{
  CreateAccelerationForm, AccelerationIndexType, skipping, covering, materialized,
}
use dashboards_query_workben.Acceleration.Query.{
  skipping_column, build_skipping_index_columns, skipping_index_query_builder, covering_column,
  build_covering_index_columns, covering_index_query_builder, materialized_column,
  build_materialized_view_columns, materialized_query_view_builder, build_tumble_value,
  build_index_options, table_name, by_type, acceleration_query_builder,
}
use dashboards_query_workben.Acceleration.Columns.{
  quoted_names, Reads, Reads-then, Reads-join, gather,
}
use dashboards_query_workben.Acceleration.Columns.Plain.{
  IsPlain, IsPlainForm, append-IsPlain, build_index_options-IsPlain, table_name-IsPlain,
}
use dashboards_query_workben.Acceleration.Columns.Statement.{
  Reads-prefixed, column_names, selected_names, gather_singletons, framed-Reads, tumble-Reads,
  skipping_columns-Reads, covering_columns-Reads, materialized_columns-Reads, All-left, All-right,
}

gather_self : (xs : List String) → gather (λ x. x ∷ []) xs ≡ xs
gather_self [] = refl
gather_self (x ∷ xs) = rw (gather_self xs)

module _ (f : CreateAccelerationForm) (plain : IsPlainForm f) where
  skipping-Reads :
      All IsPlain (selected_names skipping f)
      → Reads none (skipping_index_query_builder f) (selected_names skipping f) none
  unfolding skipping_index_query_builder build_skipping_index_columns
  skipping-Reads h =
      let rows = f.skipping_index_query_data in
      framed-Reads ("CREATE SKIPPING INDEX\nON " ∷ table_name f ∷ " (\n" ∷ [])
        (build_skipping_index_columns rows) ("\n  ) " ⧺ build_index_options f)
        (selected_names skipping f) (refl, (table_name-IsPlain f plain, (refl, tt)))
        (rw (gather_singletons (λ n. n.field_name) rows) at (
          Reads-join ", \n" skipping_column (λ n. n.field_name ∷ []) rows refl
            (skipping_columns-Reads rows h)))
        (append-IsPlain "\n  ) " (build_index_options f) refl (build_index_options-IsPlain f plain))

  covering-Reads :
      All IsPlain (selected_names covering f)
      → Reads none (covering_index_query_builder f) (selected_names covering f) none
  unfolding covering_index_query_builder build_covering_index_columns
  covering-Reads h =
      let fields = f.covering_index_query_data in
      framed-Reads
        ("CREATE INDEX " ∷ f.acceleration_index_name ∷ "\nON " ∷ table_name f ∷ " (\n" ∷ [])
        (build_covering_index_columns fields) ("\n  ) " ⧺ build_index_options f) fields
        (refl, (plain.index_name, (refl, (table_name-IsPlain f plain, (refl, tt)))))
        (rw (gather_self fields) at (
          Reads-join ", \n" covering_column (λ x. x ∷ []) fields refl
            (covering_columns-Reads fields h)))
        (append-IsPlain "\n  ) " (build_index_options f) refl (build_index_options-IsPlain f plain))

  materialized-Reads :
      IsPlain f.materialized_view_query_data.group_by_tumble_value.tumble_interval
      → All IsPlain (selected_names materialized f)
      → Reads none (materialized_query_view_builder f) (selected_names materialized f) none
  unfolding materialized_query_view_builder build_materialized_view_columns
  materialized-Reads unit h =
      let q = f.materialized_view_query_data in
      let names = gather column_names q.columns_values in
      let tumble = q.group_by_tumble_value in
      let group = build_tumble_value tumble ⧺ "\n " ⧺ build_index_options f in
      let columns_read =
        Reads-join ", \n" materialized_column column_names q.columns_values refl (
          materialized_columns-Reads q.columns_values
            (All-left names (tumble.time_field ∷ []) h)) in
      let time = All-right names (tumble.time_field ∷ []) h in
      Reads-prefixed
        ("CREATE MATERIALIZED VIEW " ∷ f.data_source ∷ "." ∷ f.database ∷ "."
          ∷ f.acceleration_index_name ∷ "\nAS SELECT\n" ∷ [])
        (build_materialized_view_columns q.columns_values
          ⧺ "\nFROM "
          ⧺ table_name f
          ⧺ "\nGROUP BY TUMBLE "
          ⧺ group)
        (
          refl,
          (plain.data_source, (refl, (plain.database, (refl, (plain.index_name, (refl, tt)))))),
        )
        (Reads-then none (build_materialized_view_columns q.columns_values) _ columns_read (
          Reads-prefixed ("\nFROM " ∷ table_name f ∷ "\nGROUP BY TUMBLE " ∷ []) group
            (refl, (table_name-IsPlain f plain, (refl, tt)))
            (framed-Reads [] (build_tumble_value tumble) ("\n " ⧺ build_index_options f)
              (tumble.time_field ∷ []) tt (tumble-Reads tumble time.0 unit)
              (append-IsPlain "\n " (build_index_options f) refl
                (build_index_options-IsPlain f plain)))))

  statement-Reads :
      (t : AccelerationIndexType)
      → IsPlain f.materialized_view_query_data.group_by_tumble_value.tumble_interval
      → All IsPlain (selected_names t f)
      → Reads none (by_type t f) (selected_names t f) none
  unfolding by_type
  statement-Reads skipping unit h = skipping-Reads h
  statement-Reads covering unit h = covering-Reads h
  statement-Reads materialized unit h = materialized-Reads unit h

-- If no part of the form holds a backquote, then the names between backquotes in the generated
-- statement are the selected ones, in order and with nothing added or lost: the fields of a skipping
-- or a covering index, or the parameters (but for `*`) and aliases of a materialized view and its
-- time field.
pub quoted_names-acceleration_query_builder :
    (f : CreateAccelerationForm)
    → IsPlainForm f
    → IsPlain f.materialized_view_query_data.group_by_tumble_value.tumble_interval
    → All IsPlain (selected_names f.acceleration_index_type f)
    → quoted_names (acceleration_query_builder f) ≡ selected_names f.acceleration_index_type f
unfolding quoted_names acceleration_query_builder
quoted_names-acceleration_query_builder f plain unit h =
    ap (λ r. r.0) (statement-Reads f plain f.acceleration_index_type unit h)

-- ===== src/Acceleration/Columns/Statement.antt =====
-- visual_editors/query_builder.tsx: reading the columns of a statement.
use dashboards_query_workben.Common.{
  String, Option, none, some, List, [], ◌∷◌, ◌++◌, map, ◌≡◌, refl, ◌⧺◌, All, if◌then◌else◌,
  Bool-cases, inl, inr, ◌==◌, eq_iff,
}
use dashboards_query_workben.Common.Numbers.{show}
use dashboards_query_workben.Capabilities.{truthy}
use dashboards_query_workben.Acceleration.Types.{
  CreateAccelerationForm, SkippingIndexRowType, MaterializedViewColumn, GroupByTumbleType,
  AccelerationIndexType, skipping, covering, materialized, SkippingIndexAccMethodType, partition,
  value_set, min_max, AggregationFunctionType, count,
}
use dashboards_query_workben.Acceleration.Validate.{pluralize_time}
use dashboards_query_workben.Acceleration.Query.{
  function_text, alias_text, build_materialized_view_column_name, skipping_column, covering_column,
  materialized_column, method_text, build_tumble_value,
}
use dashboards_query_workben.Acceleration.Columns.{
  read, Reads, Reads-then, Reads-plain, Reads-quoted, gather,
}
use dashboards_query_workben.Acceleration.Columns.Plain.{
  IsPlain, parts-IsPlain, show-IsPlain, pluralize_time-IsPlain,
}

covering_column-Reads :
    (field : String) → IsPlain field → Reads none (covering_column field) (field ∷ []) none
unfolding read
covering_column-Reads field plain = Reads-quoted "   `" field "`" refl plain refl

method_text-IsPlain : (m : SkippingIndexAccMethodType) → IsPlain (method_text m)
method_text-IsPlain partition = refl
method_text-IsPlain value_set = refl
method_text-IsPlain min_max = refl

skipping_column-Reads :
    (n : SkippingIndexRowType)
    → IsPlain n.field_name
    → Reads none (skipping_column n) (n.field_name ∷ []) none
unfolding read
skipping_column-Reads n plain =
    let method = method_text n.acceleration_method in
    Reads-quoted "   `" n.field_name ("` " ⧺ method) refl plain (
      Reads-then (some n.field_name) {st' = none} {names = n.field_name ∷ []} "` " method refl
        (Reads-plain method (method_text-IsPlain n.acceleration_method)))

-- Plain texts in front of the rest of a statement.
abbrev pub prefixed : List String → String → String
prefixed [] rest = rest
prefixed (p ∷ ps) rest = p ⧺ prefixed ps rest

pub Reads-prefixed :
    (ps : List String) (rest : String) {names : List String}
    → All IsPlain ps
    → Reads none rest names none
    → Reads none (prefixed ps rest) names none
Reads-prefixed [] rest h k = k
Reads-prefixed (p ∷ ps) rest (h, hs) k =
    Reads-then none p (prefixed ps rest) (Reads-plain p h) (Reads-prefixed ps rest hs k)

-- The names that a column of a materialized view quotes: its field, unless that is `*`, and its
-- alias, if it has one.
abbrev pub optional : Option String → List String
optional none = []
optional (some s) = s ∷ []

abbrev pub column_names : MaterializedViewColumn → List String
column_names c =
    (if c.function_param == "*" then [] else c.function_param ∷ [])
    ++ optional (truthy c.field_alias)

-- What the form has selected, in the order of the statement.
abbrev pub selected_names : AccelerationIndexType → CreateAccelerationForm → List String
selected_names skipping f = map (λ n. n.field_name) f.skipping_index_query_data
selected_names covering f = f.covering_index_query_data
selected_names materialized f =
    let q = f.materialized_view_query_data in
    gather column_names q.columns_values ++ q.group_by_tumble_value.time_field ∷ []

pub skipping_columns-Reads :
    (rows : List SkippingIndexRowType)
    → All IsPlain (map (λ n. n.field_name) rows)
    → All (λ n. Reads none (skipping_column n) (n.field_name ∷ []) none) rows
skipping_columns-Reads [] h = tt
skipping_columns-Reads (n ∷ rows) (h, hs) =
    (skipping_column-Reads n h, skipping_columns-Reads rows hs)

pub gather_singletons {ℓ} :
    {A : Type ℓ} (f : A → String) (xs : List A) → gather (λ x. f x ∷ []) xs ≡ map f xs
gather_singletons f [] = refl
gather_singletons f (x ∷ xs) = rw (gather_singletons f xs)

pub covering_columns-Reads :
    (fields : List String)
    → All IsPlain fields
    → All (λ x. Reads none (covering_column x) (x ∷ []) none) fields
covering_columns-Reads [] h = tt
covering_columns-Reads (x ∷ xs) (h, hs) = (covering_column-Reads x h, covering_columns-Reads xs hs)

pub All-left : (xs ys : List String) → All IsPlain (xs ++ ys) → All IsPlain xs
All-left [] ys h = tt
All-left (x ∷ xs) ys (h, hs) = (h, All-left xs ys hs)

pub All-right : (xs ys : List String) → All IsPlain (xs ++ ys) → All IsPlain ys
All-right [] ys h = h
All-right (x ∷ xs) ys (h, hs) = All-right xs ys hs

function_text-IsPlain : (g : AggregationFunctionType) → IsPlain (function_text g)
function_text-IsPlain count = refl
function_text-IsPlain _ = refl

alias-Reads :
    (alias : Option String)
    → All IsPlain (optional alias)
    → Reads none (alias_text alias) (optional alias) none
unfolding read
alias-Reads none h = refl
alias-Reads (some a) (h, _) = Reads-quoted " AS `" a "`" refl h refl

column_name-Reads :
    (param : String)
    → let names = if param == "*" then [] else param ∷ [] in
      All IsPlain names → Reads none (build_materialized_view_column_name param) names none
unfolding read
column_name-Reads param = elim (Bool-cases (param == "*")) [
  | inl star ↦ rw star (λ h. rw ((eq_iff param "*").0 star) refl)
  | inr field ↦ rw field (λ h. Reads-quoted "`" param "`" refl h.0 refl)
]

materialized_column-Reads :
    (c : MaterializedViewColumn)
    → All IsPlain (column_names c)
    → Reads none (materialized_column c) (column_names c) none
materialized_column-Reads c h =
    let names = if c.function_param == "*" then [] else c.function_param ∷ [] in
    let alias = truthy c.field_alias in
    Reads-prefixed ("   " ∷ function_text c.function_name ∷ "(" ∷ [])
      (build_materialized_view_column_name c.function_param ⧺ ")" ⧺ alias_text alias)
      (refl, (function_text-IsPlain c.function_name, (refl, tt)))
      (Reads-then none (build_materialized_view_column_name c.function_param)
        (")" ⧺ alias_text alias)
        (column_name-Reads c.function_param (All-left names (optional alias) h))
        (Reads-prefixed (")" ∷ []) (alias_text alias) (refl, tt)
          (alias-Reads alias (All-right names (optional alias) h))))

pub materialized_columns-Reads :
    (columns : List MaterializedViewColumn)
    → All IsPlain (gather column_names columns)
    → All (λ c. Reads none (materialized_column c) (column_names c) none) columns
materialized_columns-Reads [] h = tt
materialized_columns-Reads (c ∷ cs) h = (
  materialized_column-Reads c (All-left (column_names c) (gather column_names cs) h),
  materialized_columns-Reads cs (All-right (column_names c) (gather column_names cs) h),
)

rest_append : (names : List String) → names ++ [] ≡ names
rest_append [] = refl
rest_append (n ∷ ns) = rw (rest_append ns)

-- Columns between plain texts.
pub framed-Reads :
    (before : List String) (columns after : String) (names : List String)
    → All IsPlain before
    → Reads none columns names none
    → IsPlain after
    → Reads none (prefixed before (columns ⧺ after)) names none
framed-Reads before columns after names h k l =
    Reads-prefixed before (columns ⧺ after) h
      (rw (rest_append names) at (Reads-then none columns after k (Reads-plain after l)))

pub tumble-Reads :
    (g : GroupByTumbleType)
    → IsPlain g.time_field
    → IsPlain g.tumble_interval
    → Reads none (build_tumble_value g) (g.time_field ∷ []) none
unfolding build_tumble_value read
tumble-Reads g h k =
    let rest =
      show g.tumble_window ⧺ " " ⧺ g.tumble_interval ⧺ pluralize_time g.tumble_window ⧺ "')" in
    Reads-quoted "(`" g.time_field ("`, '" ⧺ rest) refl h (
      Reads-then (some g.time_field) {st' = none} {names = g.time_field ∷ []} "`, '" rest refl (
        Reads-plain rest (
          parts-IsPlain (show g.tumble_window)
            (" " ∷ g.tumble_interval ∷ pluralize_time g.tumble_window ∷ "')" ∷ [])
            (show-IsPlain g.tumble_window)
            (refl, (k, (pluralize_time-IsPlain g.tumble_window, (refl, tt)))))))

-- ===== src/Results/Cells.antt =====
-- getQueryResultsForTable of public/components/Main/main.tsx: where a cell is in its table.
use dashboards_query_workben.Capabilities.{truthy}
use dashboards_query_workben.Common.{
  ap, sym, get_or, Option, none, ℕ, zero, suc, ◌+◌, String, true, false, not, ◌||◌, some, List, [],
  ◌∷◌, map, any, ◌==◌, ◌≡◌, refl, arith, get_elem?, eq_refl, ◌∙◌, Bool-cases, inl, inr,
}
use dashboards_query_workben.Common.Dict.{lookup, insert, lookup-insert}
use dashboards_query_workben.Results.{
  Cell, undefined, null, dash, value, Column, DataRow, label, shown_cell, cell_at, rest_of,
  fill_row, number_rows, query_type, full_table, table_of, has_column,
}

-- A cell as it is shown: with a dash for `null`.
abbrev pub IsShownAs : {J : Type 0} → Cell J → Cell J → Type 0
IsShownAs null shown = shown ≡ dash
IsShownAs undefined shown = shown ≡ undefined
IsShownAs dash shown = shown ≡ dash
IsShownAs (value v) shown = shown ≡ value v

shown_cell-IsShownAs : {J : Type 0} (cell : Cell J) → IsShownAs cell (shown_cell cell)
shown_cell-IsShownAs null = refl
shown_cell-IsShownAs undefined = refl
shown_cell-IsShownAs dash = refl
shown_cell-IsShownAs (value v) = refl

-- The label of a column with an alias, if it has one and it is not empty, and a name.
abbrev pub IsLabel : Option String → String → String → Type 0
IsLabel none name k = k ≡ name
IsLabel (some String.[]) name k = k ≡ name
IsLabel (some (String.◌∷◌ c rest)) name k = k ≡ String.◌∷◌ c rest

label_lem : (column : Column) (k : String) → IsLabel column.alias column.name k → label column ≡ k
label_lem column k h = by_alias column.alias h
  where
    by_alias :
        (alias : Option String)
        → IsLabel alias column.name k
        → get_or (truthy alias) column.name ≡ k
    by_alias none e = sym e
    by_alias (some String.[]) e = sym e
    by_alias (some (String.◌∷◌ c rest)) e = sym e

get_elem?-label :
    (schema : List Column) (j : ℕ) (column : Column)
    → get_elem? schema j ≡ some column
    → get_elem? (map label schema) j ≡ some (label column)
get_elem?-label [] j column at = cc
get_elem?-label (c ∷ cs) zero column at =
    let same : c ≡ column = cc in ap (λ x. some (label x)) same
get_elem?-label (c ∷ cs) (suc j) column at = get_elem?-label cs j column at

-- No two labels are the same.
abbrev pub AreDistinct : List String → Type 0
AreDistinct [] = Unit
AreDistinct (k ∷ ks) = (any (λ l. l == k) ks ≡ false) × AreDistinct ks

module _ {J : Type 0} where
  fill_row-other :
      (k : String) (fields : List String) (cells : List (Cell J)) (row : List (String × Cell J))
      → any (λ l. l == k) fields ≡ false
      → lookup k (fill_row fields cells row) ≡ lookup k row
  unfolding fill_row
  fill_row-other k [] cells row h = refl
  fill_row-other k (f ∷ fs) cells row h =
      let new = shown_cell (cell_at cells 0) in
      fill_row-other k fs (rest_of cells) (insert f new row) (ground arith)
      ∙ (lookup-insert f k new row ∙ ground arith)

  cell_at-rest_of :
      (cells : List (Cell J)) (i : ℕ) → cell_at (rest_of cells) i ≡ cell_at cells (suc i)
  cell_at-rest_of [] i = refl
  cell_at-rest_of (c ∷ cs) i = refl

  fill_row-lookup :
      (fields : List String) (i : ℕ) (k : String) (cells : List (Cell J))
      (row : List (String × Cell J))
      → AreDistinct fields
      → get_elem? fields i ≡ some k
      → lookup k (fill_row fields cells row) ≡ some (shown_cell (cell_at cells i))
  unfolding fill_row
  fill_row-lookup [] i k cells row d at = cc
  fill_row-lookup (f ∷ fs) zero k cells row (new, d) at =
      let new_cell = shown_cell (cell_at cells 0) in
      fill_row-other k fs (rest_of cells) (insert f new_cell row) (ground arith)
      ∙ (lookup-insert f k new_cell row ∙ ground (arith, eq_refl k))
  fill_row-lookup (f ∷ fs) (suc i) k cells row (new, d) at =
      rw (cell_at-rest_of cells i) at
        (fill_row-lookup fs i k (rest_of cells) (insert f (shown_cell (cell_at cells 0)) row) d at)

  number_rows-get_elem? :
      (row : List (Cell J) → List (String × Cell J)) (id i : ℕ) (rows : List (List (Cell J)))
      (cells : List (Cell J))
      → get_elem? rows i ≡ some cells
      → get_elem? (number_rows row id rows) i
        ≡ some (record { row_id = id + i; contents = row cells })
  unfolding number_rows
  number_rows-get_elem? row id i [] cells at = cc
  number_rows-get_elem? row id zero (r ∷ rows) cells at = ground arith
  number_rows-get_elem? row id (suc i) (r ∷ rows) cells at =
      ground (arith, number_rows-get_elem? row (suc id) i rows cells)

  table_of-full :
      (schema : List Column) (rows : List (List (Cell J)))
      → not (has_column "TABLE_NAME" schema) || has_column "DATA_TYPE" schema ≡ true
      → table_of schema rows ≡ full_table schema rows
  unfolding table_of query_type
  table_of-full schema rows h = elim (Bool-cases (has_column "TABLE_NAME" schema)) [
    | inl named ↦ elim (Bool-cases (has_column "DATA_TYPE" schema)) [
      | inl typed ↦ rw (named, typed, table_of, query_type) refl
      | inr untyped ↦ ground arith
    ]
    | inr plain ↦ rw (plain, table_of, query_type) refl
  ]

  -- In the table of a response that is not a plain list of tables, and in which no two columns have one label, each
  -- row of the response is the row of the same number, and that row holds under each column's label, its alias or else
  -- its name, the cell of that column, with a dash for `null`.
  pub every_cell_is_shown :
      (schema : List Column) (rows : List (List (Cell J))) (cells : List (Cell J)) (i j : ℕ)
      (column : Column) (k : String)
      → not (has_column "TABLE_NAME" schema) || has_column "DATA_TYPE" schema ≡ true
      → AreDistinct (map label schema)
      → get_elem? rows i ≡ some cells
      → get_elem? schema j ≡ some column
      → IsLabel column.alias column.name k
      → (row : DataRow J) × (shown : Cell J) × (get_elem? (table_of schema rows).records i
          ≡ some row)
        × (row.row_id ≡ i)
        × (lookup k row.contents ≡ some shown)
        × IsShownAs (cell_at cells j) shown
  every_cell_is_shown schema rows cells i j column k full d row at labelled =
      let fill = λ (c : List (Cell J)). fill_row (map label schema) c [] in
      let labelled_at : get_elem? (map label schema) j ≡ some k =
        get_elem?-label schema j column at ∙ ap some (label_lem column k labelled) in
      (
        record { row_id = 0 + i; contents = fill cells },
        shown_cell (cell_at cells j),
        rw (table_of-full schema rows full) (number_rows-get_elem? fill 0 i rows cells row),
        omega arith,
        fill_row-lookup (map label schema) j k cells [] d labelled_at,
        shown_cell-IsShownAs (cell_at cells j),
      )

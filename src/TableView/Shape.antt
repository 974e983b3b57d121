-- ===== src/TableView/Shape.antt =====
-- The shape of the tree: what stands below what.
use dashboards_query_workben.Common.{
  String, Bool, Option, none, some, List, [], ◌∷◌, ◌≡◌, refl, map, filter, All, All-append,
  Bool-cases, inl, inr, get_elem?,
}
use dashboards_query_workben.CatalogTree.Objects.{
  TreeItemType, covering_index_type, skipping_index_type, table_type, database_type,
  materialized_view_type, load_materialized_type, badge_type, is_leaf,
}
use dashboards_query_workben.TableView.{
  Name, same, Index, Table, Database, View, new_item, load_tree_item, update_database, update_items,
  in_table, on_tree, load_materialized, row, name_of,
}
use dashboards_query_workben.TableView.Handlers.{or_badge, added, views_of, tables_of}

abbrev pub IsIndexType : TreeItemType → Type 0
IsIndexType covering_index_type = Unit
IsIndexType skipping_index_type = Unit
IsIndexType badge_type = Unit
IsIndexType _ = ⊥

abbrev pub IsTableType : TreeItemType → Type 0
IsTableType table_type = Unit
IsTableType materialized_view_type = Unit
IsTableType load_materialized_type = Unit
IsTableType badge_type = Unit
IsTableType _ = ⊥

abbrev pub Below : {C : Type 0} → (C → Type 0) → Option (List C) → Type 0
Below P none = Unit
Below P (some items) = All P items

abbrev pub IsIndex : Index → Type 0
IsIndex i = IsIndexType i.type

abbrev pub IsTable : Table → Type 0
IsTable t = IsTableType t.type × Below IsIndex t.values

abbrev pub IsDatabase : Database → Type 0
IsDatabase db = (db.type ≡ database_type) × Below IsTable db.values

-- Databases have below them tables, materialized views and badges, and these have below them indices and badges.
abbrev pub IsTree : View → Type 0
IsTree v = All IsDatabase v.tree_data

pub update_database-IsDatabase :
    (name : Name) (f : Database → Database)
    → ((db : Database) → IsDatabase db → IsDatabase (f db))
    → (dbs : List Database) → All IsDatabase dbs
    → All IsDatabase (update_database name f dbs)
unfolding update_database
update_database-IsDatabase name f keep [] h = tt
update_database-IsDatabase name f keep (db ∷ dbs) (p, h) = elim (Bool-cases (same db.name name)) [
  | inl yes_ ↦ rw yes_ (keep db p, update_database-IsDatabase name f keep dbs h)
  | inr no_ ↦ rw no_ (p, update_database-IsDatabase name f keep dbs h)
]

pub update_items-IsTable :
    (name : Name) (f : Table → Table)
    → ((t : Table) → IsTable t → IsTable (f t))
    → (ts : List Table) → All IsTable ts
    → All IsTable (update_items name f ts)
unfolding update_items
update_items-IsTable name f keep [] h = tt
update_items-IsTable name f keep (t ∷ ts) (p, h) = elim (Bool-cases (same t.name name)) [
  | inl yes_ ↦ rw yes_ (keep t p, update_items-IsTable name f keep ts h)
  | inr no_ ↦ rw no_ (p, update_items-IsTable name f keep ts h)
]

pub in_table-IsDatabase :
    (name : Name) (f : Table → Table)
    → ((t : Table) → IsTable t → IsTable (f t))
    → (db : Database) → IsDatabase db
    → IsDatabase (in_table name f db)
in_table-IsDatabase name f keep db (type, h) = below db.values refl
  where
    below : (vs : Option (List Table)) → db.values ≡ vs → IsDatabase (in_table name f db)
    below none e = rw e (type, tt)
    below (some ts) e = rw e (type, update_items-IsTable name f keep ts (rw e at h))

-- The same change in one item of one database.
pub in_both-IsTree :
    (database table : Name) (f : Table → Table) (v : View)
    → ((t : Table) → IsTable t → IsTable (f t))
    → IsTree v
    → IsTree (on_tree (update_database database (in_table table f)) v)
in_both-IsTree database table f v keep h =
    update_database-IsDatabase database (in_table table f) (in_table-IsDatabase table f keep)
      v.tree_data h

pub new_item-Below : (type : TreeItemType) (name : Name) → Below IsIndex (new_item type name).values
new_item-Below type name = elim (Bool-cases (is_leaf type)) [
  | inl yes_ ↦ rw yes_ tt
  | inr no_ ↦ rw no_ tt
]

pub new_tables-IsTable :
    (type : TreeItemType) (names : List Name)
    → IsTableType type
    → All IsTable (load_tree_item names type)
unfolding load_tree_item
new_tables-IsTable type [] k = tt
new_tables-IsTable type (name ∷ names) k =
    ((k, new_item-Below type name), new_tables-IsTable type names k)

pub new_indices-IsIndex :
    (type : TreeItemType) (names : List Name)
    → IsIndexType type
    → All IsIndex (load_tree_item names type)
unfolding load_tree_item
new_indices-IsIndex type [] k = tt
new_indices-IsIndex type (name ∷ names) k = (k, new_indices-IsIndex type names k)

pub new_databases-IsDatabase :
    (names : List Name) → All IsDatabase (load_tree_item names database_type)
unfolding load_tree_item
new_databases-IsDatabase [] = tt
new_databases-IsDatabase (name ∷ names) = ((refl, tt), new_databases-IsDatabase names)

pub tables_of-IsTable :
    (to_lower_case : String → String) (data_source : String) (rows : List (List String))
    → All IsTable (tables_of to_lower_case data_source rows)
tables_of-IsTable to_lower_case data_source rows =
    All-append IsTable (load_tree_item (map (λ r. name_of (get_elem? r 1)) rows) table_type)
      (load_tree_item (load_materialized ∷ []) load_materialized_type)
      (new_tables-IsTable table_type (map (λ r. name_of (get_elem? r 1)) rows) tt)
      (new_tables-IsTable load_materialized_type (load_materialized ∷ []) tt)

pub views_of-IsTable :
    (to_lower_case : String → String) (data_source : String) (rows : List (List String))
    → All IsTable (views_of to_lower_case data_source rows)
views_of-IsTable to_lower_case data_source [] = ((tt, tt), tt)
views_of-IsTable to_lower_case data_source (cells ∷ rows) =
    new_tables-IsTable materialized_view_type (map row (cells ∷ rows)) tt

pub filter-IsTable :
    (p : Table → Bool) (ts : List Table) → All IsTable ts → All IsTable (filter p ts)
filter-IsTable p [] h = tt
filter-IsTable p (t ∷ ts) (k, h) = elim (Bool-cases (p t)) [
  | inl yes_ ↦ rw yes_ (k, filter-IsTable p ts h)
  | inr no_ ↦ rw no_ (filter-IsTable p ts h)
]

pub added-IsIndex :
    (old : Option (List Index)) (new : List Index)
    → Below IsIndex old
    → All IsIndex new
    → Below IsIndex (or_badge (added old new))
added-IsIndex none new h k = tt
added-IsIndex (some []) [] h k = (tt, tt)
added-IsIndex (some []) (i ∷ is) h k = k
added-IsIndex (some (i ∷ is)) new (p, h) k = (p, All-append IsIndex is new h k)

-- ===== src/CatalogTree/Found.antt =====
-- public/components/SQLPage/sql_catalog_tree/: the items of the tree and the accelerations that they open.
use dashboards_query_workben.Common.{
  ◌||◌, none, ◌⊎◌, String, Bool, true, ◌&&◌, Option, some, List, [], ◌∷◌, ◌++◌, map, filter, find,
  any, ◌≡◌, refl, arith, All, All-append, Bool-cases, Option-cases, inl, inr, ◌==◌, eq_iff, eq_refl,
  append_assoc, sym, ap, subst, ◌∙◌, is_blank, get_or,
}
use dashboards_query_workben.CatalogTree.Objects.{
  AccelerationCacheItem, TreeItemType, materialized_view_type, Index, Table, Manager,
  get_accelerations_from_cache, find_skipping_and_covering_index_names,
  find_materialized_views_for_database, find_index_object, is_index_of, shown_name, is_object,
  in_table, same_name, is_none, load_tree_item,
}
use dashboards_query_workben.CatalogTree.{
  object_items, on_click_acceleration, index_item, table_item,
}

module _ {ℓ} {A : Type ℓ} (p : A → Bool) where
  any-middle :
      (before : List A) (x : A) (after : List A) → p x ≡ true → any p (before ++ x ∷ after) ≡ true
  any-middle [] x after h = rw h refl
  any-middle (y ∷ before) x after h = ground (arith, any-middle before x after h)

  find-any :
      (items : List A) → any p items ≡ true → (x : A) × (find p items ≡ some x) × (p x ≡ true)
  find-any [] h = cc
  find-any (x ∷ items) h = elim (Bool-cases (p x)) [
    | inl here_it_is ↦ (x, rw here_it_is refl, here_it_is)
    | inr other ↦ let (y, found, good) = find-any items (rw other at h) in (y, rw other found, good)
  ]

-- what holds of each image of an item that passes holds of all of them
module _ {ℓ κ λ'} {A : Type ℓ} {B : Type κ} (p : A → Bool) (f : A → B) (Q : B → Type λ')
    (items : List A)
    (h : (before : List A) (x : A) (after : List A)
      → items ≡ before ++ x ∷ after
      → p x ≡ true
      → Q (f x)) where
  All-map-filter_from :
      (before rest : List A) → items ≡ before ++ rest → All Q (map f (filter p rest))
  All-map-filter_from before [] e = tt
  All-map-filter_from before (x ∷ rest) e =
      let later =
        All-map-filter_from (before ++ x ∷ []) rest (e ∙ sym (append_assoc before (x ∷ []) rest)) in
      elim (Bool-cases (p x)) [
        | inl passes ↦ rw passes (h before x rest e passes, later)
        | inr fails ↦ rw fails later
      ]

  All-map-filter : All Q (map f (filter p items))
  All-map-filter = All-map-filter_from [] items refl

module _ {ℓ κ λ'} {A : Type ℓ} {B : Type κ} (f : A → B) (P : B → Type λ') where
  All-map : (xs : List A) → All (λ x. P (f x)) xs → All P (map f xs)
  All-map [] h = tt
  All-map (x ∷ xs) (h, hs) = (h, All-map xs hs)

same_name_refl : (name : Option String) → same_name name name ≡ true
same_name_refl none = refl
same_name_refl (some name) = eq_refl name

in_table_of :
    (table : String) (obj : AccelerationCacheItem)
    → (obj.table == table) ≡ true
    → in_table (some table) obj ≡ true
in_table_of table obj h = elim (Bool-cases (is_blank table)) [
  | inl blank ↦ rw (blank, in_table) refl
  | inr other ↦ rw (other, in_table) h
]

shown-is_object :
    (database table : String) (obj : AccelerationCacheItem)
    → is_index_of database table obj ≡ true
    → is_object database (some table) (shown_name obj) obj ≡ true
shown-is_object database table obj h = elim (Option-cases obj.index_name) [
  | inl nameless ↦ elim (Bool-cases (obj.type == "skipping")) [
    | inl skipping ↦ ground (arith, in_table_of table obj, eq_refl "skipping_index")
    | inr covering ↦ ground (arith, in_table_of table obj)
  ]
  | inr (name, named) ↦ ground (arith, in_table_of table obj, eq_refl name)
]

view-is_object :
    (database : String) (obj : AccelerationCacheItem)
    → ((obj.database == database) && (obj.type == "materialized")) ≡ true
    → is_object database none obj.index_name obj ≡ true
view-is_object database obj h = ground (arith, same_name_refl obj.index_name)

index_item-name : (index : Option String) → (index_item index).name ≡ index
unfolding load_tree_item
index_item-name none = refl
index_item-name (some name) = elim (Bool-cases (name == "skipping_index")) [
  | inl skipping ↦ rw skipping (sym (ap some ((eq_iff name "skipping_index").0 skipping)))
  | inr covering ↦ rw covering refl
]

-- The acceleration is of the table, where one is given.
abbrev pub IsOfTable : Option String → AccelerationCacheItem → Type 0
IsOfTable none obj = Unit
IsOfTable (some String.[]) obj = Unit
IsOfTable (some (String.◌∷◌ c table)) obj = obj.table ≡ String.◌∷◌ c table

in_table-IsOfTable :
    (table : Option String) (obj : AccelerationCacheItem)
    → in_table table obj ≡ true
    → IsOfTable table obj
in_table-IsOfTable none obj h = tt
in_table-IsOfTable (some String.[]) obj h = tt
in_table-IsOfTable (some (String.◌∷◌ c table)) obj h = (eq_iff obj.table (String.◌∷◌ c table)).0 h

-- The acceleration has the name, or is the skipping index that is shown by this one.
abbrev pub IsNamed : Option String → AccelerationCacheItem → Type 0
IsNamed name obj =
    (obj.index_name ≡ name)
    ⊎ ((name ≡ some "skipping_index") × (obj.type ≡ "skipping") × (obj.index_name ≡ none))

same_name_lem : (a b : Option String) → same_name a b ≡ true → a ≡ b
same_name_lem none none h = refl
same_name_lem none (some b) h = cc
same_name_lem (some a) none h = cc
same_name_lem (some a) (some b) h = ap some ((eq_iff a b).0 h)

is_none_lem : (a : Option String) → is_none a ≡ true → a ≡ none
is_none_lem none h = refl
is_none_lem (some a) h = cc

is_object-IsNamed :
    (name : Option String) (obj : AccelerationCacheItem)
    → (same_name obj.index_name name
        || (same_name name (some "skipping_index")
            && ((obj.type == "skipping") && is_none obj.index_name)))
      ≡ true
    → IsNamed name obj
is_object-IsNamed name obj h = elim (Bool-cases (same_name obj.index_name name)) [
  | inl same ↦ inl (same_name_lem obj.index_name name same)
  | inr other ↦ inr (
    same_name_lem name (some "skipping_index") (ground arith),
    (eq_iff obj.type "skipping").0 (ground arith),
    is_none_lem obj.index_name (ground arith),
  )
]

module _ (cache : Option Manager) (data_source : String) (mds_id : Option String)
    (database : String) where
  -- Clicking the name in the table opens an acceleration of the database, of the table and of that name.
  abbrev pub IsOpened : Option String → Option String → Type 0
  IsOpened table name =
      (obj : AccelerationCacheItem) × (on_click_acceleration cache data_source mds_id database table
          name
        ≡ some obj)
      × (obj.database ≡ database)
      × IsOfTable table obj
      × IsNamed name obj

  -- A view opens one, and so does each index below a table.
  pub Opens : TreeItemType → Table → Type 0
  Opens materialized_view_type item = IsOpened none item.name
  Opens _ item = All (λ (index : Index). IsOpened item.name index.name) (get_or item.values [])

  opened :
      (table name : Option String) (before : List AccelerationCacheItem)
      (obj : AccelerationCacheItem) (after : List AccelerationCacheItem)
      → get_accelerations_from_cache cache data_source mds_id ≡ before ++ obj ∷ after
      → is_object database table name obj ≡ true
      → IsOpened table name
  unfolding on_click_acceleration find_index_object
  opened table name before obj after e h =
      let (x, found, good) =
        find-any (is_object database table name)
          (get_accelerations_from_cache cache data_source mds_id)
          (rw e (any-middle (is_object database table name) before obj after h)) in
      (
        x,
        found,
        (eq_iff x.database database).0 (ground arith),
        in_table-IsOfTable table x (ground arith),
        is_object-IsNamed name x (ground arith),
      )

  -- the accelerations of the cache
  abbrev cached : List AccelerationCacheItem
  cached = get_accelerations_from_cache cache data_source mds_id

  table-Opens :
      (name : String)
      → Opens (table_item cached database name).type (table_item cached database name)
  unfolding Opens load_tree_item find_skipping_and_covering_index_names
  table-Opens name =
      All-map index_item (λ index. IsOpened (some name) index.name)
        (find_skipping_and_covering_index_names cached database name)
        (All-map-filter (is_index_of database name) shown_name
          (λ shown. IsOpened (some name) (index_item shown).name) cached
          λ before obj after e h.
            subst (IsOpened (some name)) (sym (index_item-name (shown_name obj))) (
              opened (some name) (shown_name obj) before obj after e
                (shown-is_object database name obj h)))

  tables-Opens :
      (names : List String)
      → All (λ item. Opens item.type item) (map (table_item cached database) names)
  tables-Opens [] = tt
  tables-Opens (name ∷ names) = (table-Opens name, tables-Opens names)

  views-Opens :
      All
        (λ item. Opens item.type item)
        (map
          (λ view. load_tree_item view materialized_view_type none)
          (find_materialized_views_for_database cached database))
  unfolding Opens load_tree_item find_materialized_views_for_database
  views-Opens =
      All-map (λ view. load_tree_item view materialized_view_type none)
        (λ item. Opens item.type item) (find_materialized_views_for_database cached database)
        (All-map-filter (λ obj. (obj.database == database) && (obj.type == "materialized"))
          (λ obj. obj.index_name) (IsOpened none) cached
          λ before obj after e h.
            opened none obj.index_name before obj after e (view-is_object database obj h))

  -- Of the items that are made from a reading of the cache for a data source's id, and while the cache reads the same for
  -- that id: every index below a table opens an acceleration of its database, its table and its name, and every
  -- materialized view one of its database and its name.
  pub object_items-Opens :
      (tables : List String)
      → All (λ item. Opens item.type item) (object_items database tables cached)
  unfolding object_items
  object_items-Opens tables =
      All-append (λ item. Opens item.type item) (map (table_item cached database) tables)
        (map (λ view. load_tree_item view materialized_view_type none)
          (find_materialized_views_for_database cached database))
        (tables-Opens tables) views-Opens

-- ===== src/DataSources/Offered.antt =====
-- common/utils/fetch_datasources.ts: the options against a description of them.
use mathlib.Core.List.{append-nil}
use dashboards_query_workben.Common.{
  String, Bool, true, false, ◌||◌, ◌&&◌, some, List, [], ◌∷◌, ◌++◌, map, filter, any, ◌==◌, ◌≡◌,
  refl, Bool-cases, inl, inr, append_assoc, ◌∙◌, eq_iff,
}
use dashboards_query_workben.Common.Dict.{lookup, insert}
use dashboards_query_workben.DataSources.{
  DataSourceItem, DataOption, Found, on_success, on_item, on_items, fetch_data_sources,
}

abbrev pub is_s3_glue : DataSourceItem → Bool
is_s3_glue item = item.connector == "S3GLUE"

-- The names of the S3 Glue sources, in order.
abbrev pub s3_names : List DataSourceItem → List String
s3_names items = map (λ i. i.name) (filter is_s3_glue items)

abbrev pub grouped : List String → Bool → Found
grouped [] found = record { connector_groups = []; url_source_found = found }
grouped (n ∷ ns) found = record {
  connector_groups = ("S3GLUE", n ∷ ns) ∷ [];
  url_source_found = found;
}

abbrev pub is_named : String → DataSourceItem → Bool
is_named url item = is_s3_glue item && (item.name == url)

on_item-grouped :
    (url : String) (item : DataSourceItem) (names : List String) (found : Bool)
    → item.connector ≡ "S3GLUE"
    → on_item url item (grouped names found)
      ≡ grouped (names ++ (item.name ∷ [])) (found || (item.name == url))
unfolding on_item lookup insert
on_item-grouped url item [] found e = rw e refl
on_item-grouped url item (n ∷ ns) found e = rw e refl

on_item-other :
    (url : String) (item : DataSourceItem) (s : Found)
    → is_s3_glue item ≡ false
    → on_item url item s ≡ s
unfolding on_item
on_item-other url item s h = rw (h, on_item) refl

or_false : (b : Bool) → (b || false) ≡ b
or_false true = refl
or_false false = refl

or_assoc : (a b c : Bool) → ((a || b) || c) ≡ (a || (b || c))
or_assoc true b c = refl
or_assoc false b c = refl

on_items-grouped :
    (url : String) (items : List DataSourceItem) (names : List String) (found : Bool)
    → on_items url items (grouped names found)
      ≡ grouped (names ++ s3_names items) (found || any (is_named url) items)
unfolding on_items
on_items-grouped url [] names found = rw (append-nil names, or_false found) refl
on_items-grouped url (i ∷ items) names found = elim (Bool-cases (is_s3_glue i)) [
  | inl glue ↦
      rw (on_item-grouped url i names found ((eq_iff i.connector "S3GLUE").0 glue), glue)
        (on_items-grouped url items (names ++ (i.name ∷ [])) (found || (i.name == url))
          ∙ rw
              (
                append_assoc names (i.name ∷ []) (s3_names items),
                or_assoc found (i.name == url) (any (is_named url) items),
              )
              refl)
  | inr other ↦
      rw (on_item-other url i (grouped names found) other, other)
        (on_items-grouped url items names found)
]

-- The one group that is offered.
abbrev pub s3_options : List String → List DataOption
s3_options [] = []
s3_options (n ∷ ns) = record { label = "S3GLUE"; options = n ∷ ns } ∷ []

-- When the server answers with a list of data sources, the page is offered those whose connector is S3GLUE and no
-- others, in their order and as one group, or no group if there are none; and the data source of the URL is said to
-- be found exactly when one of them has its name.
pub fetch_data_sources-s3_options :
    (url : String) (items : List DataSourceItem)
    → fetch_data_sources url (some items)
      ≡ on_success (s3_options (s3_names items)) (any (is_named url) items)
unfolding fetch_data_sources
fetch_data_sources-s3_options url items =
    rw (on_items-grouped url items [] false) (offered (s3_names items))
  where
    offered :
        (names : List String)
        → on_success
            (map
              (λ g. record { label = g.0; options = g.1 })
              (grouped names (any (is_named url) items)).connector_groups)
            (grouped names (any (is_named url) items)).url_source_found
          ≡ on_success (s3_options names) (any (is_named url) items)
    offered [] = refl
    offered (n ∷ ns) = refl

-- ===== src/CatalogTree/Indices/Tests.antt =====
-- Two loads at once, and what is rendered after each reply.
use dashboards_query_workben.Common.{
  eqb, if◌then◌else◌, String, true, false, Option, none, some, [], ◌∷◌, ◌≡◌, refl, get_or, map,
}
use dashboards_query_workben.CatalogTree.Indices.Latest.{Replies, settle, last_load_is_shown}
use dashboards_query_workben.CatalogTree.Indices.{
  Node, OsTree, first_tree, indices_request, load_open_search_tree, load_tree, on_tree_content,
  unmount, tree_renderer, loading_indices, no_indices, failed_to_load, catalog_tree, s3_tree,
  select_prompt,
}

abbrev label_of : Option String → String
label_of name = get_or name ""

-- the load before the engine is known, and the one after
abbrev guessed : OsTree
guessed = load_tree "OpenSearch" (indices_request true "es" false) first_tree

abbrev known : OsTree
known = load_tree "OpenSearch" (indices_request true "es" true) guessed

known_queries :
    map (λ r. r.1.query) known.requests ≡ "SHOW tables LIKE %" ∷ "SHOW tables LIKE '%'" ∷ []
unfolding load_tree indices_request
known_queries = refl

abbrev loaded : OsTree
loaded =
    on_tree_content 2
      (load_open_search_tree label_of (some (("c" ∷ "" ∷ "logs" ∷ []) ∷ ("short" ∷ []) ∷ []))) known

loaded_nodes : map (λ (n : Node). n.content) loaded.tree_data ≡ some "logs" ∷ none ∷ []
unfolding load_tree on_tree_content load_open_search_tree
loaded_nodes = refl

-- The reply to the first load comes last, and is dropped.
late_reply : on_tree_content 1 (load_open_search_tree label_of (some [])) loaded ≡ loaded
unfolding load_tree on_tree_content load_open_search_tree
late_reply = refl

-- It comes first: the tree is still loading.
early_reply :
    tree_renderer (on_tree_content 1 (load_open_search_tree label_of (some [])) known)
    ≡ loading_indices
unfolding load_tree on_tree_content load_open_search_tree tree_renderer
early_reply = refl

after_unmount :
    on_tree_content 2 (load_open_search_tree label_of none) (unmount known) ≡ unmount known
unfolding load_tree on_tree_content load_open_search_tree unmount
after_unmount = refl

-- A cluster without indices is shown as a failure.
empty_cluster :
    tree_renderer (on_tree_content 1 (load_open_search_tree label_of (some [])) guessed)
    ≡ failed_to_load "Failed to load OpenSearch indices"
unfolding load_tree on_tree_content load_open_search_tree tree_renderer
empty_cluster = refl

first_rendered : tree_renderer first_tree ≡ no_indices
unfolding tree_renderer
first_rendered = refl

-- Another label starts a load that nothing ends.
other_label :
    tree_renderer (load_tree "s3" (indices_request false "" false) first_tree) ≡ loading_indices
unfolding load_tree tree_renderer
other_label = refl

chosen_s3 : catalog_tree true (some (some "s3")) "Data source Connections" ≡ s3_tree "s3"
unfolding catalog_tree
chosen_s3 = refl

chosen_tab : catalog_tree true (some (some "OpenSearch")) "Data source Connections" ≡ select_prompt
unfolding catalog_tree
chosen_tab = refl

-- The first load has rows, the second none that can be read.
abbrev rows_of : Replies
rows_of load = if eqb load 1 then some (("c" ∷ "" ∷ "logs" ∷ []) ∷ []) else none

last_load_is_shown_example :
    tree_renderer (
      settle label_of rows_of
        (2 ∷ 1 ∷ [])
        (load_tree "OpenSearch" (indices_request true "es" true) guessed))
    ≡ failed_to_load "Failed to load OpenSearch indices, please check user permissions"
unfolding load_tree
last_load_is_shown_example =
    last_load_is_shown label_of rows_of (2 ∷ 1 ∷ []) "OpenSearch" (indices_request true "es" true)
      guessed

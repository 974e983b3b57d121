-- ===== src/CatalogTree/Indices/Latest.antt =====
-- Loads that overlap: the tree is that of the last one.
use dashboards_query_workben.Common.{
  ℕ, suc, String, Bool, true, false, Option, none, some, List, [], ◌∷◌, ◌≡◌, refl, arith, map, any,
  if◌then◌else◌, eqb, get_elem?, Bool-cases, inl, inr,
}
use dashboards_query_workben.CatalogTree.Indices.{
  TreeContent, OsTree, IndicesRequest, load_open_search_tree, generate_open_search_tree, load_tree,
  on_tree_content, tree_renderer, Rendered, loading_indices, failed_to_load, tree,
}

-- What the server replies to a load: its rows, or `none` if there is nothing that can be read.
abbrev pub Replies : Type 0
Replies = ℕ → Option (List (List String))

module _ (truncate : Option String → String) where
  -- The replies to these loads come, one after the other.
  unfoldable pub settle : Replies → List ℕ → OsTree → OsTree
  settle rows [] s = s
  settle rows (load ∷ later) s =
      settle rows later (on_tree_content load (load_open_search_tree truncate (rows load)) s)

  -- What is to be seen of a reply.
  abbrev pub expected : Option (List (List String)) → Rendered
  expected none = failed_to_load "Failed to load OpenSearch indices, please check user permissions"
  expected (some []) = failed_to_load "Failed to load OpenSearch indices"
  expected (some (row ∷ rows)) =
      tree (generate_open_search_tree truncate (map (λ r. get_elem? r 2) (row ∷ rows)))

  shows :
      (load : ℕ) (reply : Option (List (List String))) (s : OsTree)
      → eqb load s.last_load ≡ true
      → tree_renderer (on_tree_content load (load_open_search_tree truncate reply) s)
        ≡ expected reply
  unfolding tree_renderer on_tree_content load_open_search_tree
  shows load none s h = rw h
  shows load (some []) s h = rw h
  shows load (some (row ∷ rows)) s h = rw (h, generate_open_search_tree)

  last_load-on_tree_content :
      (load : ℕ) (content : TreeContent) (s : OsTree)
      → (on_tree_content load content s).last_load ≡ s.last_load
  unfolding on_tree_content
  last_load-on_tree_content load content s = ground arith

  superseded :
      (load : ℕ) (content : TreeContent) (s : OsTree)
      → eqb load s.last_load ≡ false
      → on_tree_content load content s ≡ s
  unfolding on_tree_content
  superseded load content s h = rw h

  same_if : (b : Bool) (r : Rendered) → (if b then r else r) ≡ r
  same_if true r = refl
  same_if false r = refl

  settle-renders :
      (rows : Replies) (loads : List ℕ) (s : OsTree)
      → tree_renderer (settle rows loads s) ≡ (
          if any (λ n. eqb n s.last_load) loads
          then expected (rows s.last_load)
          else tree_renderer s)
  unfolding settle
  settle-renders rows [] s = refl
  settle-renders rows (load ∷ later) s =
      let content = load_open_search_tree truncate (rows load) in
      let kept = last_load-on_tree_content load content s in
      let ih = settle-renders rows later (on_tree_content load content s) in
      elim (Bool-cases (eqb load s.last_load)) [
        | inl current ↦
            let same : load ≡ s.last_load = ground (arith, current) in
            let shown = shows load (rows load) s current in
            rw (ih, shown, kept, current, same, same_if) refl
        | inr old ↦ rw (ih, superseded load content s old, old) refl
      ]

  -- Whatever loads came before, and whatever replies then come to whichever loads and in whichever order: the
  -- tree is loading until the reply to the last load is among them, and then shows that reply, be it indices, no
  -- index or a failure.
  pub last_load_is_shown :
      (rows : Replies) (loads : List ℕ) (label : String) (request : IndicesRequest) (s : OsTree)
      → tree_renderer (settle rows loads (load_tree label request s)) ≡ (
          if any (λ n. eqb n (suc s.last_load)) loads
          then expected (rows (suc s.last_load))
          else loading_indices)
  unfolding load_tree tree_renderer
  last_load_is_shown rows loads label request s =
      settle-renders rows loads (load_tree label request s)

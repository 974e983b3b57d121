-- ===== src/Main/Caps/Selected.antt =====
-- public/components/Main/main.tsx: the capabilities that are shown, against the cluster that is selected.
use dashboards_query_workben.Common.{
  ℕ, suc, ◌<◌, String, Bool, true, false, ◌&&◌, not, ◌==◌, Option, some, List, [], ◌∷◌, ◌++◌, ◌≡◌,
  refl, arith, eqb, any, Bool-cases, inl, inr, ◌⊎◌, All, subst, is_empty,
}
use dashboards_query_workben.Capabilities.{DeploymentCapabilities}
use dashboards_query_workben.DataSources.{on_success, on_error}
use dashboards_query_workben.Results.{QueryResponse}
use dashboards_query_workben.Main.{
  MainProps, MainState, initial, update_sql_queries, get_open_search_sql_init_query,
}
use dashboards_query_workben.Main.Events.{handle}
use dashboards_query_workben.Main.Events.Kept.{LoadsByStatus, Kept, handle-Kept}
use dashboards_query_workben.Main.Caps.{
  CapsRequest, Mounted, component_did_mount, on_selected_data_source, on_resolved, on_caps,
  on_data_sources, fetch_and_set_caps, fetch_flint_data_sources, sync_seeded_sql_query, selected_id,
  is_untouched,
}
use dashboards_query_workben.Main.Caps.Steps.{
  Step, selects, resolves, finds_sources, handles, Reach, mounts, later,
}

module _ {ℓ} {A : Type ℓ} where
  any-split :
      (f : A → Bool) (before : List A) (x : A) (after : List A)
      → any f (before ++ x ∷ after) ≡ true
      → f x ≡ false
      → any f (before ++ after) ≡ true
  any-split f [] x after h miss = ground arith
  any-split f (y ∷ before) x after h miss = ground (arith, any-split f before x after)

module _ {ℓ κ} {A : Type ℓ} (P : A → Type κ) where
  All-split :
      (before : List A) (x : A) (after : List A)
      → All P (before ++ x ∷ after)
      → P x × All P (before ++ after)
  All-split [] x after h = h
  All-split (y ∷ before) x after (p, h) =
      let (q, rest) = All-split before x after h in (q, (p, rest))

-- a request of the latest token is out
abbrev is_pending : ℕ → List CapsRequest → Bool
is_pending token requests = any (λ r. eqb r.token token) requests

-- The token is an older one, or the request is for the selected cluster.
abbrev IsKnown : ℕ → Option String → CapsRequest → Type 0
IsKnown token selected r = (r.token < token) ⊎ ((r.token ≡ token) × (r.mds_id ≡ selected))

All-older :
    (token : ℕ) (selected now : Option String) (requests : List CapsRequest)
    → All (IsKnown token selected) requests
    → All (IsKnown (suc token) now) requests
All-older token selected now [] h = tt
All-older token selected now (r ∷ requests) (h, hs) =
    (older h, All-older token selected now requests hs)
  where
    older : IsKnown token selected r → IsKnown (suc token) now r
    older (inl below) = inl (omega arith)
    older (inr (same, for)) = inl (omega arith)

module _ {J E : Type 0} (to_lower_case : String → String)
    (json_parse : String → Option (QueryResponse J)) (object_text : String)
    (Gives : Option String → DeploymentCapabilities → Type 0) where
  record IsFresh (p : Mounted J E) : Type 0 where
    loads : LoadsByStatus p.page
    sources : is_empty p.page.selected_datasource ≡ false
    known :
        All (IsKnown p.caps_request_token p.page.selected_mds_data_connection_id) p.caps_requests
    fresh :
        (is_pending p.caps_request_token p.caps_requests ≡ true)
        ⊎ Gives p.page.selected_mds_data_connection_id p.page.caps

  -- The update of the page for the latest request changes nothing else that matters here.
  sync-cases :
      (P : MainState J E → Type 0) (caps : DeploymentCapabilities) (s : MainState J E)
      → ((waiting : Option String) → P (record s { waiting_sql = waiting }))
      → P (sync_seeded_sql_query caps s)
  unfolding sync_seeded_sql_query update_sql_queries
  sync-cases P caps s h =
      elim (Bool-cases (
        is_untouched s.sql_queries_string
        && not (
            s.sql_queries_string
            == get_open_search_sql_init_query caps.uses_legacy_open_distro_sql))) [
              | inl other ↦ rw (other, sync_seeded_sql_query) (h (some _))
              | inr same ↦ rw (same, sync_seeded_sql_query) (h s.waiting_sql)
            ]

  module _ (p : Mounted J E) (before : List CapsRequest) (r : CapsRequest)
      (after : List CapsRequest) (caps : DeploymentCapabilities)
      (e : p.caps_requests ≡ before ++ r ∷ after) (gives : Gives r.mds_id caps)
      (i : IsFresh p) where
    Latest : MainState J E → Type 0
    Latest page = IsFresh (record p { page = page; caps_requests = before ++ after })

    parts :
        IsKnown p.caps_request_token p.page.selected_mds_data_connection_id r
        × All
            (IsKnown p.caps_request_token p.page.selected_mds_data_connection_id)
            (before ++ after)
    parts = All-split _ before r after (
        subst (All (IsKnown p.caps_request_token p.page.selected_mds_data_connection_id)) e i.known)

    resolved-Latest :
        r.token ≡ p.caps_request_token
        → Latest (sync_seeded_sql_query caps (record p.page { caps = caps }))
    unfolding Latest
    resolved-Latest latest =
        sync-cases Latest caps (record p.page { caps = caps })
          λ waiting. record {
            loads = i.loads;
            sources = i.sources;
            known = parts.1;
            fresh = inr (elim parts.0 [
              | inl below ↦ absurd (omega arith)
              | inr (same, for) ↦ subst (λ mds_id. Gives mds_id caps) for gives
            ]);
          }

    resolved : IsFresh (on_caps r.token caps (record p { caps_requests = before ++ after }))
    unfolding on_caps Latest
    resolved = elim (Bool-cases (eqb r.token p.caps_request_token)) [
      | inl latest ↦ rw (latest, on_caps) (resolved-Latest (ground arith))
      | inr stale ↦
          rw (stale, on_caps)
            (record {
              loads = i.loads;
              sources = i.sources;
              known = parts.1;
              fresh = elim i.fresh [
                | inl pending ↦ inl (
                    any-split (λ q. eqb q.token p.caps_request_token) before r after
                      (rw e at pending) stale)
                | inr given ↦ inr given
              ];
            })
    ]

  flint-IsFresh :
      (caps : DeploymentCapabilities) (p : Mounted J E)
      → IsFresh p
      → IsFresh (fetch_flint_data_sources caps p)
  unfolding fetch_flint_data_sources
  flint-IsFresh caps p i = elim (Bool-cases caps.has_data_sources) [
    | inl asks ↦
        rw (asks, fetch_flint_data_sources)
          (record { loads = i.loads; sources = i.sources; known = i.known; fresh = i.fresh })
    | inr other ↦
        rw (other, fetch_flint_data_sources)
          (record { loads = i.loads; sources = i.sources; known = i.known; fresh = i.fresh })
  ]

  handled :
      (p : Mounted J E) (page : MainState J E)
      → Kept p.page.caps p.page.selected_mds_data_connection_id page
      → IsFresh p
      → IsFresh (record p { page = page })
  handled p page k i = record {
    loads = k.0;
    sources = k.3;
    known = rw (k.2) i.known;
    fresh = rw (k.1, k.2) i.fresh;
  }

  Step-IsFresh :
      {p q : Mounted J E}
      → IsFresh p
      → Step to_lower_case json_parse object_text Gives p q
      → IsFresh q
  unfolding on_selected_data_source fetch_and_set_caps on_resolved on_data_sources
  Step-IsFresh {p} i (selects e) = record {
    loads = i.loads;
    sources = refl;
    known = (
      inr (refl, refl),
      All-older p.caps_request_token p.page.selected_mds_data_connection_id (selected_id e)
          p.caps_requests i.known,
    );
    fresh = inl (ground arith);
  }
  Step-IsFresh {p} i (resolves before r after caps e gives) =
      flint-IsFresh caps (on_caps r.token caps (record p { caps_requests = before ++ after }))
        (resolved p before r after caps e gives i)
  Step-IsFresh i (finds_sources (on_success options found)) = record {
    loads = i.loads;
    sources = i.sources;
    known = i.known;
    fresh = i.fresh;
  }
  Step-IsFresh i (finds_sources on_error) = i
  Step-IsFresh {p} i (handles event) =
      handled p (handle to_lower_case json_parse object_text event p.page)
        (handle-Kept p.page.caps p.page.selected_mds_data_connection_id to_lower_case json_parse
          object_text event p.page (i.loads, refl, refl, i.sources))
        i

  Reach-IsFresh :
      (props : MainProps) {p : Mounted J E}
      → Reach to_lower_case json_parse object_text Gives props p
      → IsFresh p
  unfolding component_did_mount initial fetch_and_set_caps
  Reach-IsFresh props mounts = record {
    loads = refl;
    sources = refl;
    known = (inr (refl, refl), tt);
    fresh = inl refl;
  }
  Reach-IsFresh props (later r s) = Step-IsFresh (Reach-IsFresh props r) s

  -- However the selections of clusters, the answers and the user's actions interleave: when no request for
  -- capabilities is out any more, the page has capabilities that the selected cluster gave.
  pub caps_are_of_the_selected :
      (props : MainProps) {p : Mounted J E}
      → Reach to_lower_case json_parse object_text Gives props p
      → p.caps_requests ≡ []
      → Gives p.page.selected_mds_data_connection_id p.page.caps
  caps_are_of_the_selected props {p} r none_out = elim (Reach-IsFresh props r).fresh [
    | inl pending ↦ absurd (none_pending (rw none_out at pending))
    | inr given ↦ given
  ]
    where
      none_pending : is_pending p.caps_request_token [] ≡ true → ⊥
      none_pending h = cc

  -- Whatever the user does and whatever answers come, in whatever order, the page shows that it is loading exactly
  -- while the status of its asynchronous query is not a final one.
  pub loading_is_by_status :
      (props : MainProps) {p : Mounted J E}
      → Reach to_lower_case json_parse object_text Gives props p
      → LoadsByStatus p.page
  loading_is_by_status props r = (Reach-IsFresh props r).loads

  -- A data source is always chosen.
  pub source_is_chosen :
      (props : MainProps) {p : Mounted J E}
      → Reach to_lower_case json_parse object_text Gives props p
      → is_empty p.page.selected_datasource ≡ false
  source_is_chosen props r = (Reach-IsFresh props r).sources

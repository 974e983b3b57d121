-- ===== src/Main/Screen/Consistent.antt =====
-- What public/components/Main/main.tsx shows in the states that come about.
use dashboards_query_workben.Common.{
  String, Bool, true, false, ◌&&◌, ◌||◌, Option, some, List, [], ◌∷◌, ◌≡◌, refl, arith, inl, inr,
  Bool-cases, is_empty, ◌==◌,
}
use dashboards_query_workben.Capabilities.{DeploymentCapabilities}
use dashboards_query_workben.Results.{QueryResponse}
use dashboards_query_workben.Main.{
  MainProps, MainState, DataSourceChoice, set_is_acceleration_flyout_opened,
}
use dashboards_query_workben.Main.Events.Kept.{LoadsByStatus}
use dashboards_query_workben.Main.Caps.{Mounted}
use dashboards_query_workben.Main.Caps.Steps.{Reach}
use dashboards_query_workben.Main.Caps.Selected.{loading_is_by_status, source_is_chosen}
use dashboards_query_workben.Main.Screen.{
  Runner, on_run, on_run_async, ThirdButton, explain, sample_query, Editor, Controls, Pane,
  no_result, table, running, failed, Screen, full_screen, page, sql_page, ppl_page,
  async_query_body, query_results, controls, editor, screen_of, render, opens_flyout_by_itself,
  sql_page_did_update,
}

abbrev pub is_running : Pane → Bool
is_running no_result = false
is_running table = false
is_running (running status cancels) = true
is_running (failed error) = false

abbrev pub offers_explain : ThirdButton → Bool
offers_explain explain = true
offers_explain (sample_query text) = false

abbrev pub runs_at_once : Runner → Bool
runs_at_once on_run = true
runs_at_once on_run_async = false

-- The editor runs queries at once exactly where it offers Explain, and offers no acceleration there.
abbrev pub IsConsistentEditor : Editor → Controls → Type 0
IsConsistentEditor e c =
    (offers_explain e.third ≡ runs_at_once e.runner)
    × (runs_at_once e.runner && (e.accelerates || c.creates) ≡ false)

-- The results are of a running query exactly while the page is loading, which the editor and the other controls show,
-- and the editor is as above.
abbrev pub IsConsistent : {J E : Type 0} → MainState J E → Screen → Type 0
IsConsistent s (full_screen pane) = is_running pane ≡ s.async_loading
IsConsistent s (page e c pane) =
    (is_running pane ≡ s.async_loading)
    × (e.is_loading ≡ s.async_loading)
    × (e.is_disabled ≡ s.async_loading)
    × (c.is_disabled ≡ s.async_loading)
    × IsConsistentEditor e c

module _ {J E : Type 0} where
  query_results-is_running :
      (s : MainState J E) → LoadsByStatus s → is_running (query_results s) ≡ s.async_loading
  unfolding query_results async_query_body
  query_results-is_running s loads = ground arith

  editor_lem :
      (label : String) (s : MainState J E)
      → IsConsistentEditor (editor label s) (controls label s)
        × ((editor label s).is_loading ≡ s.async_loading)
        × ((editor label s).is_disabled ≡ s.async_loading)
  unfolding editor controls sql_page ppl_page
  editor_lem label s = elim (Bool-cases (s.language == "SQL")) [
    | inl sql ↦ elim (Bool-cases (label == "OpenSearch")) [
      | inl local ↦ rw (sql, local) (ground arith)
      | inr other ↦ rw (sql, other) (ground arith)
    ]
    | inr ppl ↦ elim (Bool-cases (label == "OpenSearch")) [
      | inl local ↦ rw (ppl, local) (ground arith)
      | inr other ↦ rw (ppl, other) (ground arith)
    ]
  ]

  -- Once the flyout has opened by itself, the next update does not open it, whichever data sources it is between.
  flyout_opens_once :
      (wanted : Bool) (before between after : String) (s : MainState J E)
      → opens_flyout_by_itself wanted before between s ≡ true
      → opens_flyout_by_itself wanted between after (sql_page_did_update wanted before between s)
        ≡ false
  unfolding opens_flyout_by_itself sql_page_did_update set_is_acceleration_flyout_opened
  flyout_opens_once wanted before between after s opens =
      rw (opens, sql_page_did_update) (ground arith)

  shown-IsConsistent :
      (s : MainState J E)
      → LoadsByStatus s
      → is_empty s.selected_datasource ≡ false
      → (screen : Screen) × (render s ≡ some screen) × IsConsistent s screen
  unfolding render screen_of
  shown-IsConsistent s loads chosen = by_sources s.selected_datasource chosen
    where
      by_sources :
          (sources : List DataSourceChoice)
          → is_empty sources ≡ false
          → (screen : Screen) × (screen_of sources s ≡ some screen) × IsConsistent s screen
      by_sources [] none_chosen = absurd (cc)
      by_sources (source ∷ sources) h = elim (Bool-cases s.is_result_full_screen) [
        | inl full ↦ (full_screen (query_results s), rw full refl, query_results-is_running s loads)
        | inr part ↦
            let (offers, loading, disabled) = editor_lem source.label s in
            (
              page (editor source.label s) (controls source.label s) (query_results s),
              rw part refl,
              (query_results-is_running s loads, loading, disabled, refl, offers),
            )
      ]

module _ {J E : Type 0} (to_lower_case : String → String)
    (json_parse : String → Option (QueryResponse J)) (object_text : String)
    (Gives : Option String → DeploymentCapabilities → Type 0) where
  -- In every state that comes about the page is shown, the results are of a running query exactly while the editor and
  -- the controls show that the page is loading, Explain is offered exactly where Run runs at once, and no table is
  -- accelerated or created from there.
  pub render-IsConsistent :
      (props : MainProps) {p : Mounted J E}
      → Reach to_lower_case json_parse object_text Gives props p
      → (screen : Screen) × (render p.page ≡ some screen) × IsConsistent p.page screen
  render-IsConsistent props {p} r =
      shown-IsConsistent p.page
        (loading_is_by_status to_lower_case json_parse object_text Gives props r)
        (source_is_chosen to_lower_case json_parse object_text Gives props r)

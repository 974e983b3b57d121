-- ===== src/Main/Caps/Seeded.antt =====
-- syncSeededSqlQuery of public/components/Main/main.tsx, and the debounced updates that it makes.
use dashboards_query_workben.Common.{
  String, Bool, true, not, ◌&&◌, ◌||◌, ap, ◌∙◌, none, List, [], ◌∷◌, ◌++◌, ◌≡◌, refl, arith, ◌==◌,
  eq_iff, if◌then◌else◌, Bool-cases, Option-cases, inl, inr, get_or, subst,
}
use dashboards_query_workben.Capabilities.{DeploymentCapabilities}
use dashboards_query_workben.Main.{
  MainState, update_sql_queries, store_sql_queries, get_open_search_sql_init_query,
}
use dashboards_query_workben.Main.Caps.{is_untouched, sync_seeded_sql_query}

-- The starter queries: the pattern stands without quotes for an engine with the legacy API.
abbrev pub seed_for : DeploymentCapabilities → String
seed_for caps =
    if caps.uses_legacy_open_distro_sql then "SHOW tables LIKE %;" else "SHOW tables LIKE '%';"

abbrev pub is_starter : String → Bool
is_starter text = (text == "SHOW tables LIKE '%';") || (text == "SHOW tables LIKE %;")

-- what the page makes of them
abbrev made_for : DeploymentCapabilities → String
made_for caps = get_open_search_sql_init_query caps.uses_legacy_open_distro_sql

made_for_lem : (caps : DeploymentCapabilities) → made_for caps ≡ seed_for caps
unfolding get_open_search_sql_init_query
made_for_lem caps = elim (Bool-cases caps.uses_legacy_open_distro_sql) [
  | inl legacy ↦ rw legacy refl
  | inr modern ↦ rw modern refl
]

made_for-untouched : (caps : DeploymentCapabilities) → is_untouched (made_for caps) ≡ true
unfolding get_open_search_sql_init_query
made_for-untouched caps = elim (Bool-cases caps.uses_legacy_open_distro_sql) [
  | inl legacy ↦ rw legacy refl
  | inr modern ↦ rw modern refl
]

seed_or_text :
    (text seed : String)
    → (if is_untouched text && not (text == seed) then seed else text)
      ≡ (if is_untouched text then seed else text)
seed_or_text text seed = ground (arith, eq_iff text seed)

seed_again :
    (caps last : DeploymentCapabilities) (text : String)
    → (if is_untouched (if is_untouched text then made_for caps else text)
        then made_for last
        else (if is_untouched text then made_for caps else text))
      ≡ (if is_untouched text then made_for last else text)
seed_again caps last text = elim (Bool-cases (is_untouched text)) [
  | inl seeded ↦ rw (seeded, made_for-untouched caps) refl
  | inr edited ↦ rw (edited, edited) refl
]

module _ {J E : Type 0} where
  -- what the page does for capabilities, one after the other, each update of the box stored before the next, though
  -- that takes 250 milliseconds
  unfoldable pub sync_all : List DeploymentCapabilities → MainState J E → MainState J E
  unfolding sync_seeded_sql_query store_sql_queries
  sync_all [] s = s
  sync_all (caps ∷ rest) s = sync_all rest (store_sql_queries (sync_seeded_sql_query caps s))

  -- The box has the text, and no other one waits.
  record Box (text : String) (s : MainState J E) : Type 0 where
    text_is : s.sql_queries_string ≡ text
    idle : s.waiting_sql ≡ none

  stored-Box :
      (s : MainState J E) → Box (get_or s.waiting_sql s.sql_queries_string) (store_sql_queries s)
  unfolding store_sql_queries
  stored-Box s = elim (Option-cases s.waiting_sql) [
    | inl idle ↦ rw (idle, store_sql_queries) (record { text_is = refl; idle = idle })
    | inr (query, waits) ↦ rw (waits, store_sql_queries) (record { text_is = refl; idle = refl })
  ]

  synced-Box :
      (caps : DeploymentCapabilities) (s : MainState J E)
      → Box
          (if is_untouched s.sql_queries_string && not (s.sql_queries_string == made_for caps)
            then made_for caps
            else get_or s.waiting_sql s.sql_queries_string)
          (store_sql_queries (sync_seeded_sql_query caps s))
  unfolding sync_seeded_sql_query update_sql_queries
  synced-Box caps s =
      elim (Bool-cases
        (is_untouched s.sql_queries_string && not (s.sql_queries_string == made_for caps))) [
          | inl other ↦
              rw (other, sync_seeded_sql_query) (stored-Box (update_sql_queries (made_for caps) s))
          | inr same ↦ rw (same, sync_seeded_sql_query) (stored-Box s)
        ]

  sync-Box :
      (caps : DeploymentCapabilities) (text : String) (s : MainState J E)
      → Box text s
      → Box
          (if is_untouched text then made_for caps else text)
          (store_sql_queries (sync_seeded_sql_query caps s))
  sync-Box caps text s b =
      subst (λ q. Box q (store_sql_queries (sync_seeded_sql_query caps s)))
        (rw (b.text_is, b.idle) (seed_or_text text (made_for caps))) (synced-Box caps s)

  sync_all-Box :
      (before : List DeploymentCapabilities) (last : DeploymentCapabilities) (text : String)
      (s : MainState J E)
      → Box text s
      → Box (if is_untouched text then made_for last else text) (sync_all (before ++ last ∷ []) s)
  unfolding sync_all
  sync_all-Box [] last text s b = sync-Box last text s b
  sync_all-Box (caps ∷ before) last text s b =
      subst
        (λ q.
          Box q (sync_all (before ++ last ∷ []) (store_sql_queries (sync_seeded_sql_query caps s))))
        (seed_again caps last text)
        (sync_all-Box before last (if is_untouched text then made_for caps else text)
          (store_sql_queries (sync_seeded_sql_query caps s)) (sync-Box caps text s b))

  -- When capabilities have come, however often, each update that they bring about being stored before the next ones come,
  -- and nothing is being typed, a box that had a starter query has the one for the engine that was found last, and any
  -- other text is as it was.
  pub starter_query_is_for_the_engine :
      (before : List DeploymentCapabilities) (last : DeploymentCapabilities) (s : MainState J E)
      → s.waiting_sql ≡ none
      → (sync_all (before ++ last ∷ []) s).sql_queries_string
        ≡ (if is_starter s.sql_queries_string then seed_for last else s.sql_queries_string)
  starter_query_is_for_the_engine before last s idle =
      (sync_all-Box before last s.sql_queries_string s
        (record { text_is = refl; idle = idle })).text_is
      ∙ ap (λ seed. if is_starter s.sql_queries_string then seed else s.sql_queries_string)
          (made_for_lem last)

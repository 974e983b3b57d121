-- ===== src/Server/Endpoints.antt =====
-- server/clusters/sql/sqlPlugin.js against LEGACY_ELIGIBLE_ACTIONS of server/services/QueryService.ts.
use dashboards_query_workben.Common.{
  String, true, List, [], ◌∷◌, ◌≡◌, refl, some, any, All, ◌==◌, eq_iff, ◌⧺◌, subst, Bool-cases, inl,
  inr,
}
use dashboards_query_workben.Common.Dict.{lookup}
use dashboards_query_workben.Server.SqlPlugin.{ClientAction, Method, sql_plugin}
use dashboards_query_workben.Server.Query.{legacy_eligible_actions, is_legacy_eligible}

-- The action and its legacy variant are declared, and their endpoints differ in nothing but the
-- namespace.
pub record HasLegacyTwin (action : String) : Type 0 where
  pub modern : ClientAction
  pub legacy : ClientAction
  pub rest : String
  pub modern_declared : lookup action sql_plugin ≡ some modern
  pub legacy_declared : lookup (action ⧺ "Legacy") sql_plugin ≡ some legacy
  pub modern_fmt : modern.fmt ≡ "/_plugins" ⧺ rest
  pub legacy_fmt : legacy.fmt ≡ "/_opendistro" ⧺ rest
  pub same_method : legacy.method ≡ modern.method
  pub same_body : legacy.need_body ≡ modern.need_body

All-any_eq {ℓ} :
    (P : String → Type ℓ) (xs : List String) (x : String)
    → All P xs
    → any (λ a. a == x) xs ≡ true
    → P x
All-any_eq P [] x h e = cc
All-any_eq P (y ∷ xs) x (p, h) e = elim (Bool-cases (y == x)) [
  | inl found ↦ subst P ((eq_iff y x).0 found) p
  | inr other ↦ All-any_eq P xs x h (rw other at e)
]

abbrev posted : String → ClientAction
posted fmt = record { fmt = fmt; need_body = true; method = Method.post }

-- An entry of the table, computed.
twin_of :
    (action rest : String)
    → lookup action sql_plugin ≡ some (posted ("/_plugins" ⧺ rest))
    → lookup (action ⧺ "Legacy") sql_plugin ≡ some (posted ("/_opendistro" ⧺ rest))
    → HasLegacyTwin action
twin_of action rest declared declared' = record {
  modern = posted ("/_plugins" ⧺ rest);
  legacy = posted ("/_opendistro" ⧺ rest);
  rest = rest;
  modern_declared = declared;
  legacy_declared = declared';
  modern_fmt = refl;
  legacy_fmt = refl;
  same_method = refl;
  same_body = refl;
}

eligible_twins : All HasLegacyTwin legacy_eligible_actions
unfolding lookup sql_plugin
eligible_twins = (
  twin_of "sql.sqlQuery" "/_sql" refl refl,
  (
    twin_of "sql.sqlJson" "/_sql?format=json" refl refl,
    (
      twin_of "sql.sqlCsv" "/_sql?format=csv" refl refl,
      (
        twin_of "sql.sqlText" "/_sql?format=raw" refl refl,
        (
          twin_of "sql.translateSQL" "/_sql/_explain" refl refl,
          (
            twin_of "sql.pplQuery" "/_ppl" refl refl,
            (
              twin_of "sql.pplJson" "/_ppl?format=json" refl refl,
              (
                twin_of "sql.pplCsv" "/_ppl?format=csv" refl refl,
                (
                  twin_of "sql.pplText" "/_ppl?format=raw" refl refl,
                  (twin_of "sql.translatePPL" "/_ppl/_explain" refl refl, tt),
                ),
              ),
            ),
          ),
        ),
      ),
    ),
  ),
)

-- Every action that `legacyActionFor` may rename is declared in the cluster client, and so is the
-- name that it makes of it; the two endpoints have the same method and body, and the same path under
-- `/_plugins` and `/_opendistro`.
pub eligible-HasLegacyTwin :
    (action : String) → is_legacy_eligible action ≡ true → HasLegacyTwin action
unfolding is_legacy_eligible
eligible-HasLegacyTwin action h =
    All-any_eq HasLegacyTwin legacy_eligible_actions action eligible_twins h

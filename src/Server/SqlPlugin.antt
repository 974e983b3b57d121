-- ===== src/Server/SqlPlugin.antt =====
-- server/clusters/sql/sqlPlugin.js and server/services/utils/constants.ts: the actions of the
-- cluster client and the endpoints behind them.
use dashboards_query_workben.Common.{String, Bool, true, false, List, [], ◌∷◌, ◌++◌, ◌⧺◌}

abbrev pub sql_translate_route : String
sql_translate_route = "/_plugins/_sql/_explain"

abbrev pub ppl_translate_route : String
ppl_translate_route = "/_plugins/_ppl/_explain"

abbrev pub sql_query_route : String
sql_query_route = "/_plugins/_sql"

abbrev pub ppl_query_route : String
ppl_query_route = "/_plugins/_ppl"

abbrev pub sql_translate_route_legacy : String
sql_translate_route_legacy = "/_opendistro/_sql/_explain"

abbrev pub ppl_translate_route_legacy : String
ppl_translate_route_legacy = "/_opendistro/_ppl/_explain"

abbrev pub sql_query_route_legacy : String
sql_query_route_legacy = "/_opendistro/_sql"

abbrev pub ppl_query_route_legacy : String
ppl_query_route_legacy = "/_opendistro/_ppl"

abbrev pub format_csv : String
format_csv = "format=csv"

abbrev pub format_json : String
format_json = "format=json"

abbrev pub format_text : String
format_text = "format=raw"

abbrev pub spark_sql_query_route : String
spark_sql_query_route = "/_plugins/_async_query"

abbrev pub datasources_get_query : String
datasources_get_query = "/_plugins/_query/_datasources"

pub data Method : Type 0 where
  get post delete : Method

-- What `ca({ url: { fmt }, needBody, method })` declares.
pub record ClientAction : Type 0 where
  pub fmt : String
  pub need_body : Bool
  pub method : Method

abbrev posted : String → ClientAction
posted fmt = record { fmt = fmt; need_body = true; method = post }

-- The OpenSearch actions.
unfoldable pub plugin_actions : List (String × ClientAction)
plugin_actions =
    ("sql.translateSQL", posted sql_translate_route)
    ∷ ("sql.translatePPL", posted ppl_translate_route)
    ∷ ("sql.sqlQuery", posted sql_query_route)
    ∷ ("sql.pplQuery", posted ppl_query_route)
    ∷ ("sql.sqlJson", posted (sql_query_route ⧺ "?" ⧺ format_json))
    ∷ ("sql.pplJson", posted (ppl_query_route ⧺ "?" ⧺ format_json))
    ∷ ("sql.sqlCsv", posted (sql_query_route ⧺ "?" ⧺ format_csv))
    ∷ ("sql.pplCsv", posted (ppl_query_route ⧺ "?" ⧺ format_csv))
    ∷ ("sql.sqlText", posted (sql_query_route ⧺ "?" ⧺ format_text))
    ∷ ("sql.pplText", posted (ppl_query_route ⧺ "?" ⧺ format_text))
    ∷ ("sql.sparkSqlQuery", posted spark_sql_query_route)
    ∷ (
      "sql.sparkSqlGetQuery",
      record { fmt = spark_sql_query_route ⧺ "/<%=jobId%>"; need_body = true; method = get },
    )
    ∷ (
      "sql.datasourcesGetQuery",
      record { fmt = datasources_get_query; need_body = false; method = get },
    )
    ∷ (
      "sql.asyncDeleteQuery",
      record { fmt = spark_sql_query_route ⧺ "/<%=jobId%>"; need_body = true; method = delete },
    )
    ∷ []

-- The OpenDistro actions.
unfoldable pub legacy_actions : List (String × ClientAction)
legacy_actions =
    ("sql.translateSQLLegacy", posted sql_translate_route_legacy)
    ∷ ("sql.translatePPLLegacy", posted ppl_translate_route_legacy)
    ∷ ("sql.sqlQueryLegacy", posted sql_query_route_legacy)
    ∷ ("sql.pplQueryLegacy", posted ppl_query_route_legacy)
    ∷ ("sql.sqlJsonLegacy", posted (sql_query_route_legacy ⧺ "?" ⧺ format_json))
    ∷ ("sql.pplJsonLegacy", posted (ppl_query_route_legacy ⧺ "?" ⧺ format_json))
    ∷ ("sql.sqlCsvLegacy", posted (sql_query_route_legacy ⧺ "?" ⧺ format_csv))
    ∷ ("sql.pplCsvLegacy", posted (ppl_query_route_legacy ⧺ "?" ⧺ format_csv))
    ∷ ("sql.sqlTextLegacy", posted (sql_query_route_legacy ⧺ "?" ⧺ format_text))
    ∷ ("sql.pplTextLegacy", posted (ppl_query_route_legacy ⧺ "?" ⧺ format_text))
    ∷ []

unfoldable pub sql_plugin : List (String × ClientAction)
unfolding plugin_actions legacy_actions
sql_plugin = plugin_actions ++ legacy_actions

-- ===== src/Lib.antt =====
-- The query workbench of OpenSearch Dashboards: a browser page that sends SQL and PPL queries to a
-- cluster or to one of its data sources, by way of routes of the Dashboards server, and a flyout that
-- writes the statements for acceleration indices.
--
-- The parts and how they interact. The browser resolves the capabilities of the selected cluster
-- (common/utils/resolve_capabilities.ts, common/utils/deployment_capabilities.ts) and shows only what
-- the cluster supports. A query goes to a route of the server (server/routes/), which asks a service
-- (server/services/QueryService.ts, TranslateService.ts); the service learns the engine of the
-- cluster from server/services/ClusterInfoService.ts, derives the same capabilities, chooses between
-- the `_plugins` and the `_opendistro` action of server/clusters/sql/sqlPlugin.js, and calls the
-- cluster's client. Queries on data sources such as S3 are asynchronous: the browser posts them, polls
-- their job and may cancel it (common/utils/async_query_helpers.ts). The flyout
-- (public/components/acceleration/) keeps one form, which its selectors and visual editors change, and
-- copies the statement that the form stands for into the editor.
--
-- The files, and the code that each models:
--   Common        shared names, tests, lists, texts, JavaScript numbers, maps with text keys
--   Capabilities  common/utils/deployment_capabilities.ts (getDeploymentCapabilities); its child
--                 Resolve is common/utils/resolve_capabilities.ts; Ladder and Engine are proofs,
--                 Samples and Tests a version order to try them on
--   ClusterInfo   server/services/ClusterInfoService.ts: the two cache fields with the promises made so
--                 far, `get_version` and `get_data_source_info`, and the two ways a promise settles;
--                 Cache is the step relation, SingleFlight and Agreement are proofs
--   Server        SqlPlugin is the table of actions, Query and Translate are the services' methods, Routes
--                 the handlers of server/routes/query.ts and translate.ts (that of `cluster_info` is
--                 `cluster_info_route` of ClusterInfo); Client is what they see of requests and clients;
--                 Endpoints, Routing and Responses are proofs
--   Acceleration  Types is common/types/index.ts; under public/components/acceleration, Validate is
--                 create/utils.tsx, Query is visual_editors/query_builder.tsx, Settings is
--                 selectors/index_setting_options.tsx, Rows is visual_editors/skipping_index/, ViewColumns
--                 is visual_editors/materialized_view/ and Create is create/create_acceleration.tsx with
--                 the handlers of the index type, the index name and the covering columns, Source is
--                 selectors/source_selector.tsx with the loading of fields of index_type_selector.tsx, and
--                 Source/Selected a proof,
--                 Tumble the window of group_by_tumble_expression.tsx;
--                 Columns reads a statement's backquoted names back, Valid and SettingsLaws are proofs
--   Async         common/utils/async_query_helpers.ts: `Run` is the closure's variables with the session
--                 storage, what is waited for and the effects so far; each `then`, `catch` and timer is a
--                 handler; Steps is the step relation, with Cancelled, Runs and Session
--   Queries       getQueries of public/utils/utils.ts, from the editor's text to the list of queries;
--                 Clean and RoundTrip are proofs
--   Results       getQueryResultsForTable of public/components/Main/main.tsx, from the responses to the
--                 tables; Cells and Aligned are proofs
--   DataSources   fetchDataSources of common/utils/fetch_datasources.ts; Offered is proofs
--   Tabs          the tabs of the results: getQueryIndex, getDefaultTabId, getDefaultTabLabel,
--                 getSelectedResults and getMessageString of public/utils/utils.ts with renderTabs of
--                 public/components/QueryResults/QueryResults.tsx; Offered is proofs
--   Main          the component of public/components/Main/main.tsx: its state and the handlers that answer
--                 at once; Replies is what is made of a response, Queries the queries that are sent and
--                 awaited together, Background `onRunAsync` and its callbacks, Events all these handlers
--                 as one type, Caps the selection of a cluster with the requests for its capabilities that
--                 are out, Screen `render` with the editor, the controls and the results that it shows,
--                 DataSelect public/components/SQLPage/DataSelect.tsx with the page; Kept,
--                 Shown, Selected, Seeded and Consistent are proofs
--   CatalogTree   public/components/SQLPage/sql_catalog_tree/s3_tree.tsx: the state and the handlers and
--                 effects of the tree; Objects is s3_tree_helpers.tsx, Indices the tree of indices of
--                 os_tree.tsx with os_tree_helpers.tsx and the choice of catalog_tree.tsx; Found,
--                 Agreement and Indices/Latest are proofs
--   ResultsBody   of public/components/QueryResults/QueryResultsBody.tsx the rows of a page, the values of
--                 cells, the search and the downloads, Sorting the order of the rows; Pages is proofs
--   ResultsView   public/components/QueryResults/QueryResults.tsx: its state and handlers, with what the body shows
--                 of a page; Shown is proofs
--   RowTree       createRowTree, getRowTree and findRootNode of public/utils/utils.ts with the functions of
--                 QueryResultsBody.tsx that change the map of expanded rows; Roots is proofs
--   LegacyRoute   common/utils/legacy_route_helper.tsx with its call in public/plugin.ts
--   BootPath      scripts/check_server_imports.js: the walk; Specifiers is its regular expression, Verdict its
--                 `main`; Hops, Round, Reached and Boots are proofs
--   TableView     public/components/SQLPage/table_view.tsx, a tree that loads by asynchronous queries: Handlers are
--                 its clicks and callbacks, Flyout is acceleration_index_flyout.tsx; Shape and Events are
--                 proofs, and Reached is everything that can happen to the tree
--
-- State. Handlers are functions from a state to a state. Where replies, timers and clicks interleave, a
-- relation on states has a constructor for each of them, and reachability is its closure.
-- Names are those of the code, with JavaScript's spelling changed to this language's.
--
-- Parameters. The semver package, the cluster clients, JSON.stringify, JSON.parse, the forms' parseInt,
-- toLowerCase, toUpperCase, the search bar's Query.execute, the cache of the observability plugin and
-- lodash's differenceBy are arguments; what is assumed of semver is `SemverLaws` (an order, in which
-- 2.11.0, 2.12.0 and 2.13.0 ascend), of differenceBy `DifferenceByLaws`, of Elastic UI's pager
-- `PagerLaws` and the laws of `ElasticPager`, and of sorting, `_.get` and the sortable properties `ToolsLaws`. The tests have samples of them.
--
-- Numbers. A number input holds what parseInt gives: an integer or NaN, every comparison with which is
-- false. parseInt of a tab is read digit by digit. Only the decimal digits of a number are printed on fuel, its successor, which is
-- more than it has digits. The walk of BootPath has a round for each shipped file as fuel. The rows of a page are the rounds of a counted loop, and every other recursion is on a list, a text or a relation.
--
-- Not modelled. The time between a `setState` and its callback, which count as one step; React's rendering and popovers; console
-- and server logs; the platform's validation of requests. A toast is its title, and a poll's reply keeps
-- the text of the fields that the helpers do not read.
pub mod Common
pub mod Capabilities
pub mod ClusterInfo
pub mod Server
pub mod Acceleration
pub mod Async
pub mod Queries
pub mod Results
pub mod DataSources
pub mod Tabs
pub mod Main
pub mod CatalogTree
pub mod ResultsBody
pub mod RowTree
pub mod LegacyRoute
pub mod BootPath
pub mod TableView
pub mod ResultsView

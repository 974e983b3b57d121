-- ===== src/Server.antt =====
-- The server side: the cluster client's actions, the query and translate services, the routes.
pub mod SqlPlugin
pub mod Client
pub mod Query
pub mod Translate
pub mod Routes
pub mod Endpoints
pub mod Routing
pub mod Responses
mod Tests

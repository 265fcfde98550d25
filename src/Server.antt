-- ===== src/Server.antt =====
-- src/server: the middleware, the handlers and the routes.
pub mod Auth
pub mod Middleware
pub mod Rest
pub mod Routes
pub mod ApiDoc
pub mod Arrivals
pub mod Tasks
pub mod Lifecycle

-- ===== src/Types.antt =====
-- src/types/mod.rs: the errors of the gateway, the bodies of requests and responses, and the
-- conversion of a JSON value to a Fluss datum.
pub mod Errors
pub mod Json
pub mod Datum
pub mod Requests

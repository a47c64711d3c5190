-- ===== src/Service.antt =====
-- fogrs-core/src/service_manager.rs and fogrs-core/src/api_server.rs: the requests of the HTTP
-- interface and the handlers that they go to.
pub mod Request
pub mod Manager
pub mod Words
pub mod Queues
pub mod Served
pub mod Failures
pub mod EndToEnd

-- ===== src/Fib.antt =====
-- fogrs-core/src/service_request_manager.rs: the forwarding table, and the handling of packets and of
-- changes to the table. The types are those of fogrs-common/src/fib_structs.rs.
pub mod Types
pub mod Binding
pub mod Table
pub mod Forward
pub mod Request
pub mod Response
pub mod Update
pub mod Step
pub mod Sends
pub mod Processed
pub mod Once
pub mod Connections
pub mod Rounds
pub mod Safety
pub mod Registrations
pub mod Growth
pub mod Subscribers
pub mod Complete
pub mod Latency
pub mod Requests
pub mod Responses
pub mod Histories

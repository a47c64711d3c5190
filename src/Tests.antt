-- ===== src/Tests.antt =====
-- Runs of the model on concrete inputs.
mod Toy
mod Reading
mod Forwarding
mod Resolving
mod Routes
mod Exchange
mod Topics
mod Requests
mod Registrations
mod Feed
mod Carried
mod Called
mod Registry
mod Opened
mod Probes
mod Wire

-- ===== src/Start.antt =====
-- What is read at the start, from the command line, a configuration file and the environment, the
-- numbers and addresses in it, and the log of latencies of fogrs-core.
pub mod Numbers
pub mod Address
pub mod Ports
pub mod Ipv4
pub mod Config

-- ===== src/EchoServer.antt =====
-- example/webserver1.c: the echo server.
pub mod World
pub mod Callbacks
pub mod Start
pub mod Steps
pub mod Memory
pub mod Requests
pub mod Owners
pub mod Reads
pub mod Invariant
pub mod Draining
pub mod Letters
pub mod Echo
pub mod Takes
pub mod Lifecycle
pub mod Events
mod Tests

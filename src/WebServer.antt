-- ===== src/WebServer.antt =====
-- example/webserver.cc: a server that answers a GET with the content of the file that its query
-- names, built from the parser of Http and an event loop.
pub mod Text
pub mod File
pub mod Response
pub mod World
pub mod Handlers
pub mod Start
pub mod Words
pub mod Name
pub mod Memory
pub mod Answer
pub mod Digits
pub mod Reading
pub mod Client
pub mod Session
pub mod Tests

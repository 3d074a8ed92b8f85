-- ===== src/Http/Behaviour.antt =====
-- http_parser.c: what single calls of `http_parser_execute` do. The end of the stream in
-- Errors, connections in KeepAlive, lengths in Lengths, bodies in Bodies, bodies in chunks in
-- Chunks, Chunked and LastChunk, a GET request in Query and Get.
pub mod Errors
pub mod KeepAlive
pub mod Lengths
pub mod Bodies
pub mod Chunks
pub mod Chunked
pub mod LastChunk
mod ChunkTests
pub mod Query
pub mod Get

-- ===== src/Http.antt =====
-- http-parser/http_parser.c and http_parser.h: the incremental HTTP parser.
pub mod Types
pub mod Chars
pub mod Methods
pub mod Strerror
pub mod Frame
pub mod Version
pub mod Response
pub mod Url
pub mod Request
pub mod Complete
pub mod Header
pub mod Body
pub mod Execute
pub mod Log
pub mod Tests
pub mod Invariant
pub mod Recognize
pub mod Behaviour
pub mod Tables
pub mod Rounds
pub mod Runs
pub mod Reads
pub mod Split

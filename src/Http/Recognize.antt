-- ===== src/Http/Recognize.antt =====
-- http_parser.c: which words the states of `http_parser_execute` recognise, against the words
-- themselves: method names in Method, header names in Field,
-- header values in Value.
pub mod Method
pub mod Name
pub mod Field
pub mod ValueName
pub mod Value

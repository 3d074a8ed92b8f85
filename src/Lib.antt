-- ===== src/Lib.antt =====
-- A verification library for the HTTP code of this repository: models of the incremental HTTP parser
-- http-parser/http_parser.c with its header http-parser/http_parser.h (example/http_parser holds a
-- second copy of the same text), of the web server example/webserver.cc that is built from it and
-- from libuv, and of the echo server example/webserver1.c over libuv; and theorems about them.
--
-- The program. A client allocates a `struct http_parser`, calls http_parser_init on it, and then
-- http_parser_execute with every piece of a stream as it arrives. The parser keeps what it must
-- remember between two calls in the struct, and hands what it finds to the callbacks in
-- http_parser_settings, while it reads. A call on no bytes tells the end of the stream.
--
-- The files.
--   Base, Base/Tests, Base/Lists: the names that all share; tests on numbers; lists and bytes.
--   Http/Types: the enums and structs. Http/Chars: the tables and the character macros. Http/Methods:
--     method_strings and http_method_str.
--   Http/Frame: the local variables of http_parser_execute as the record `Frame`, the macros
--     (SET_ERRNO, STRICT_CHECK, CALLBACK2, CALLBACK, NEW_MESSAGE) as functions that take what follows
--     them as an argument, and http_should_keep_alive.
--   Http/Version, Response, Request, Url, Header, Complete, Body: one function `step_…` for each
--     `case s_…` of the switch, with the same tests in the same order; a label that a `goto` leads to
--     is the function of its case.
--   Http/Execute: the switch (`step_in`), a round of the loop (`round`, which counts header bytes),
--     the loop, http_parser_execute, http_parser_init.
--   Http/Strerror: the names and descriptions of errors.
--   Http/Invariant and its children: the invariant, and a file for the steps of each group of states.
--   Http/Recognize: the words that the states recognise: methods, header names and header values.
--   Http/Behaviour: single calls. Http/Rounds, Runs, Reads: the loop over given bytes. Http/Tables: the
--     tables.
--   Http/Split: a stream's division into calls. A child for each file of states compares two runs,
--     Wide and Shrink read a body byte by byte, Feed holds the client of several calls.
--   Http/Log: a client that records its callbacks. Http/Tests: runs, and the theorems at concrete
--     inputs.
--
--   WebServer/Text, File, Response: the file name of a request, the content of a file, the text of a
--     response. WebServer/World: a client's memory, the calls of libuv as a parameter, and what may go
--     wrong. WebServer/Handlers, Start: the callbacks, and main.
--   WebServer/Words, Name, Memory, Digits: lemmas on these texts. WebServer/Answer, Session: requests,
--     through server and parser. WebServer/Reading, Client: responses, through the parser.
--
--   EchoServer/World: its variables, the heap, and the calls of libuv as a parameter.
--     EchoServer/Callbacks, Start: its functions. EchoServer/Steps: in which order libuv calls back.
--   EchoServer/Memory, Requests, Owners, Reads, Invariant: whose each block of the heap is.
--     EchoServer/Draining, Takes: how a server comes to rest. EchoServer/Lifecycle, Events: the server
--     as its peers see it. EchoServer/Letters, Echo: what is read, and what is written.
--
-- How the parts interact. libuv calls the server's on_connect, on_read, after_write and on_close.
-- on_read looks for the file name in the block, and passes the bytes on to http_parser_execute,
-- whose only callback, on_headers_complete, reads the file and writes the response. The echo server
-- does not use the parser: its after_read gives the block that it was called with to a write, and
-- after_write frees it.
--
-- How the code is read.
--   A byte is a number below 256. A struct that a pointer leads to is a record that is passed on; the
--   pointer `p` and the three marks are offsets, and a null mark is `none`. Numbers of fixed width
--   wrap by `%` at each write; content_length is the bit pattern of its int64_t, in two's complement,
--   also where C leaves a signed overflow undefined. A failed `assert`, and a read behind the
--   terminator of a constant string, is the outcome `fault`. The build is the default one:
--   HTTP_PARSER_STRICT is 1 and HTTP_PARSER_DEBUG is 0.
--   The callbacks are parameters: functions of the parser as it stands in memory, of the bytes, and of
--   a world `W` of the client's, which holds the struct's field `data` too. A callback does not write
--   the parser's other fields and does not call the parser on the same struct.
--   The loop takes fuel, one more than the number of bytes; each round moves `p` on by at least one
--   byte, which is why it is enough. Without it the outcome would be `exhausted`.
--
--   A callback of the web server changes one client's world: its `client_t`, the counter, and the loop,
--   which is of any type, with one function for each call of libuv. What C++ leaves undefined is not
--   followed: it is noted in `trouble`. `served` does not wrap. The loop of get_file_content has two
--   rounds more than the file has bytes, and each takes a byte or comes to the end.
--
--   The heap of the echo server is the addresses of its blocks: malloc gives a new one, and is taken to
--   succeed; a request is its address and its fields. What the event loop has been given and not called
--   back for is kept in lists that only watch. The steps say of libuv what its interface promises: it
--   calls back once for each request and each close that it took, and on an open stream with what was
--   read, until its end or an error, which it tells once. The steps come in any order, and the loop
--   may change in any way between them.
--
-- Not modelled: libuv, which is another project's library, the other servers under
-- example/ and echo_server/, and the Java and Python programs.
mod Base
pub mod Http
pub mod WebServer
pub mod EchoServer

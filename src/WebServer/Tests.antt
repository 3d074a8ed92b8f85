-- ===== src/WebServer/Tests.antt =====
-- Runs of the model of example/webserver.cc, and its theorems at concrete inputs.
use mathlib.Core.Option
use projectmoo.Base.{
  ℕ, ◌≡◌, refl, true, false, Option, none, some, List, [], ◌∷◌, ◌++◌, arith, Bytes, codes, length,
  if◌then◌else◌,
}
use projectmoo.Http.Behaviour.Get.{answered_request}
use projectmoo.Http.Behaviour.Query.{all_url_chars}
use projectmoo.Http.Chars.{normal_url_char, is_url_char}
use projectmoo.Http.Execute.{http_parser_init, http_parser_execute}
use projectmoo.Http.Frame.{returned}
use projectmoo.Http.Log.{raw_memory, run}
use projectmoo.Http.Types.{http_request, http_response, Parser}
use projectmoo.WebServer.Answer.{file_request, responded, on_read_get}
use projectmoo.WebServer.Client.{behind_response, execute-make_http_response}
use projectmoo.WebServer.File.{extract, read_words, get_file_content}
use projectmoo.WebServer.Handlers.{
  respond, on_headers_complete, note_file_name, on_read, on_connect, after_write, on_close,
}
use projectmoo.WebServer.Name.{requested_file-request}
use projectmoo.WebServer.Reading.{reading}
use projectmoo.WebServer.Response.{print_digits, make_http_response}
use projectmoo.WebServer.Session.{session, session_get}
use projectmoo.WebServer.Text.{starts_with, get_string, http_string, requested_file}
use projectmoo.WebServer.Words.{dense, repeated, get_file_content_lem}
use projectmoo.WebServer.World.{
  unset, named, response_overrun, mismatched_free, Uv, Platform, World,
}

-- A loop that records what is written, with one file.
abbrev note : Bytes
note = codes "ab cd\n"

abbrev files_of : Bytes → Option Bytes
files_of name = if starts_with (codes "n.txt") name then some note else none

abbrev log_uv : Uv (List Bytes)
log_uv = record {
  write = λ s l. (0, l ++ s ∷ []);
  close = λ l. l ++ codes "close" ∷ [];
  shutdown = λ l. l ++ codes "shutdown" ∷ [];
  last_error_is_eof = λ l. true;
  accept = λ l. l;
  read_start = λ l. l;
  tcp_init = λ l. (0, l);
  tcp_bind = λ port l. (0, l);
  listen = λ l. (0, l);
  run = λ l. l;
}

abbrev desk : Platform (List Bytes)
desk = record { uv = log_uv; files = files_of; junk = λ n. [] }

abbrev file_name : Bytes
file_name = codes "n.txt"

abbrev note_response : Bytes
note_response =
    codes "HTTP/1.1 200 OK\r\nContent-Type: text/html\r\nContent-Length: 6\r\n\r\nabcdcd"

-- The file's last word is there twice, since a line end follows on it.
response-note : Option.map make_http_response (get_file_content (some note)) ≡ some note_response
unfolding get_file_content make_http_response read_words extract
response-note = refl

session-note :
    Option.map
      (λ w. w.loop)
      (session desk raw_memory 0 []
        (length (file_request file_name))
        (file_request file_name ++ 0 ∷ []))
    ≡ some (note_response ∷ codes "close" ∷ [])
unfolding session on_connect on_read note_file_name requested_file on_headers_complete respond
    get_file_content read_words extract make_http_response print_digits after_write on_close run
    http_parser_init
session-note = refl

get_file_content_lem_example : get_file_content (some note) ≡ some (dense note ++ repeated note)
get_file_content_lem_example = get_file_content_lem note

requested_file-request_example :
    requested_file (get_string ++ (file_name ++ (http_string ++ codes "/1.1"))) ≡ some file_name
requested_file-request_example = requested_file-request file_name (codes "/1.1") refl

abbrev connected : World (List Bytes)
connected = record {
  client = record { file_name = unset; response = none };
  served = 0;
  loop = [];
  writing = false;
  closing = false;
  trouble = [];
}

note_found : get_file_content (desk.files file_name) ≡ some (codes "abcdcd")
unfolding get_file_content read_words extract
note_found = refl

name_plain : all_url_chars file_name ≡ true
unfolding is_url_char normal_url_char
name_plain = refl

on_read_get_example :
    let q = http_parser_init raw_memory http_request in
    let n = length (file_request file_name) in
    on_read desk (some n) (file_request file_name ++ 0 ∷ []) q connected
    ≡ returned (answered_request q) (responded desk file_name (codes "abcdcd") connected) n
on_read_get_example =
    on_read_get desk raw_memory file_name (0 ∷ []) (codes "abcdcd") connected name_plain
      (omega arith) note_found refl

session_get_example :
    let text = make_http_response (codes "abcdcd") in
    session desk raw_memory 0 []
      (length (file_request file_name))
      (file_request file_name ++ 0 ∷ [])
    ≡ some (record {
      client = record { file_name = named file_name; response = some text };
      served = 1;
      loop = text ∷ codes "close" ∷ [];
      writing = false;
      closing = true;
      trouble = mismatched_free ∷ response_overrun ∷ [];
    })
session_get_example =
    session_get desk raw_memory 0 [] file_name (0 ∷ []) (codes "abcdcd") name_plain (omega arith)
      note_found refl refl

abbrev keep_body : Parser → Bytes → List Bytes → ℕ × List Bytes
keep_body q s l = (0, s ∷ l)

execute-make_http_response_example :
    let q = http_parser_init raw_memory http_response in
    let text = make_http_response (codes "abcdcd") in
    http_parser_execute (reading keep_body) text q []
    ≡ returned (behind_response q) (codes "abcdcd" ∷ []) (length text)
execute-make_http_response_example =
    execute-make_http_response keep_body raw_memory (codes "abcdcd") [] (omega arith)

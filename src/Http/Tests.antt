-- ===== src/Http/Tests.antt =====
-- Runs of the parser model on concrete inputs, and the theorems of the other modules at such inputs.
use projectmoo.Base.{
  ℕ, ◌≡◌, refl, ◌≢◌, ◌↔◌, true, false, some, List, [], ◌∷◌, ◌++◌, arith, Bytes, codes, length,
}
use projectmoo.Http.Behaviour.Bodies.{
  execute_body_part, execute_body_eof, closing, execute_body_whole,
}
use projectmoo.Http.Behaviour.Errors.{completed_at_eof, execute_eof_lem}
use projectmoo.Http.Behaviour.KeepAlive.{next_call, execute_closed}
use projectmoo.Http.Behaviour.Lengths.{
  counted, content_length_digits, chunk_size_digits, chunk_size_high_byte,
}
use projectmoo.Http.Chars.{unhex, token, unhex_value, is_alpha, is_num, is_url_char, is_host_char}
use projectmoo.Http.Execute.{initial_frame, round, http_parser_execute}
use projectmoo.Http.Frame.{Frame, Outcome, returned, fault, exhausted, next, http_should_keep_alive}
use projectmoo.Http.Invariant.Calls.{
  execute-Settled, init-Ready, at_boundary, initialised, called, Reach-Ready,
}
use projectmoo.Http.Invariant.Execute.{Ready, Settled}
use projectmoo.Http.Log.{
  Event, began, headers_done, completed, got_url, got_field, got_value, got_body, recording,
  milestones, silent, raw_memory, fresh_request, run,
}
use projectmoo.Http.Methods.{method_strings}
use projectmoo.Http.Recognize.Field.{InName, field_name_iff}
use projectmoo.Http.Recognize.Method.{recognise, recognise_iff}
use projectmoo.Http.Recognize.Name.{content_length_field}
use projectmoo.Http.Recognize.Value.{InValue, header_value_iff}
use projectmoo.Http.Recognize.ValueName.{chunked_coding}
use projectmoo.Http.Rounds.{rounds}
use projectmoo.Http.Split.{IsQuiet}
use projectmoo.Http.Split.Feed.{joined, feed_pieces, SameEnd}
use projectmoo.Http.Split.Pieces.{execute-feed_pieces}
use projectmoo.Http.Strerror.{
  errnos, http_errno_name, http_errno_description, first_with, errno_text_lem,
}
use projectmoo.Http.Tables.{token_lem, class_lem}
use projectmoo.Http.Types.{
  http_request, http_put, hpe_ok, hpe_invalid_eof_state, hpe_closed_connection, hpe_strict, State,
  s_dead, s_start_req, s_header_field_start, s_header_field, s_header_value_start, s_header_value,
  s_chunk_size_start, s_chunk_size, s_body_identity, s_body_identity_eof, h_content_length,
  h_transfer_encoding, no_flags, Parser,
}

abbrev world_of : {W : Type 0} → W → Outcome W → W
world_of d (returned q w n) = w
world_of d fault = d
world_of d exhausted = d

abbrev parser_of : {W : Type 0} → Outcome W → Parser
parser_of (returned q w n) = q
parser_of fault = raw_memory
parser_of exhausted = raw_memory

abbrev get : Bytes
get = codes "GET /a?b HTTP/1.1\r\nHost: x\r\nContent-Length: 3\r\n\r\nabc"

abbrev get_events : List Event
get_events =
    began
    ∷ got_url (codes "/a?b")
    ∷ got_field (codes "Host")
    ∷ got_value (codes "x")
    ∷ got_field (codes "Content-Length")
    ∷ got_value (codes "3")
    ∷ headers_done
    ∷ got_body (codes "abc")
    ∷ completed
    ∷ []

run-get : world_of [] (run recording get fresh_request []) ≡ get_events
unfolding run fresh_request
run-get = refl

abbrev post : Bytes
post = codes "POST / HTTP/1.1\r\nTransfer-Encoding: chunked\r\n\r\n5\r\nhello\r\n0\r\n\r\n"

run-post :
    world_of [] (run recording post fresh_request [])
    ≡ began
      ∷ got_url (codes "/")
      ∷ got_field (codes "Transfer-Encoding")
      ∷ got_value (codes "chunked")
      ∷ headers_done
      ∷ got_body (codes "hello")
      ∷ completed
      ∷ []
unfolding run fresh_request
run-post = refl

-- A length of 2 ^ 64 is read as 0: the message ends with its headers, and the body is taken for the
-- next message.
abbrev long : Bytes
long = codes "PUT / HTTP/1.1\r\nContent-Length: 18446744073709551616\r\n\r\n"

run-long : (parser_of (run silent long fresh_request tt)).state ≡ s_start_req
unfolding run fresh_request
run-long = refl

fresh-Ready : Ready fresh_request
unfolding fresh_request
fresh-Ready = init-Ready raw_memory http_request (omega arith) (omega arith)

execute-Settled_example : Settled (length get) (http_parser_execute recording get fresh_request [])
execute-Settled_example = execute-Settled recording get fresh_request [] fresh-Ready (omega arith)

-- The request of `post`, with its body and a header name divided.
abbrev post_pieces : List Bytes
post_pieces =
    codes "POST / HTTP/1.1\r\nTransfer-En"
    ∷ codes "coding: chunked\r\n\r\n5\r\nhe"
    ∷ codes "llo\r\n0\r\n\r\n"
    ∷ []

milestones-IsQuiet : IsQuiet milestones
milestones-IsQuiet = record {
  no_url = refl;
  no_field = refl;
  no_value = refl;
  no_body = refl;
  begin_blind = λ q w. refl;
  headers_blind = λ q w. refl;
  complete_blind = λ q w. refl;
}

execute-feed_pieces_example :
    SameEnd 0
      (http_parser_execute milestones (joined post_pieces) fresh_request [])
      (feed_pieces milestones post_pieces fresh_request [])
execute-feed_pieces_example =
    execute-feed_pieces milestones milestones-IsQuiet post_pieces fresh_request [] fresh-Ready refl
      (omega arith) (omega arith)

-- Both clients see the whole message.
feed_pieces-post :
    world_of [] (feed_pieces milestones post_pieces fresh_request [])
    ≡ began ∷ headers_done ∷ completed ∷ []
unfolding feed_pieces run fresh_request
feed_pieces-post = refl

abbrev half_line : Bytes
half_line = codes "GET / HT"

Reach-Ready_example : Ready (parser_of (run silent half_line fresh_request tt))
unfolding run fresh_request
Reach-Ready_example = Reach-Ready silent (
    called half_line (initialised raw_memory http_request tt (omega arith) (omega arith)) refl refl
      refl)

abbrev frame : Frame (Unit {0})
frame = initial_frame raw_memory tt

recognise_iff_example :
    (recognise silent frame (codes "PUT ") ≡ some http_put)
    ↔ (codes "PUT " ≡ method_strings http_put ++ b' ' ∷ [])
recognise_iff_example = recognise_iff silent frame (codes "PUT ") http_put

-- Parsers in the middle of a message.
abbrev mid : State → ℕ → Parser
mid s n = record raw_memory {
  type = http_request;
  state = s;
  header_state = h_content_length;
  index = 0;
  nread = 0;
  content_length = n;
  http_errno = hpe_ok;
  upgrade = false;
}

execute_body_whole_example :
    http_parser_execute recording (codes "abc") (mid s_body_identity 3) []
    ≡ closing recording recording.on_message_complete
        (mid s_body_identity 0)
        (got_body (codes "abc") ∷ [])
        3
execute_body_whole_example =
    execute_body_whole recording (codes "abc") (mid s_body_identity 3) [] (ground arith) refl refl

execute_body_part_example :
    http_parser_execute recording (codes "ab") (mid s_body_identity 3) []
    ≡ returned (mid s_body_identity 1) (got_body (codes "ab") ∷ []) 2
execute_body_part_example =
    execute_body_part recording (codes "ab") (mid s_body_identity 3) [] (ground arith) refl
      (omega arith) (omega arith) (omega arith)

execute_body_eof_example :
    http_parser_execute recording (codes "ab") (mid s_body_identity_eof 0) []
    ≡ returned (mid s_body_identity_eof 0) (got_body (codes "ab") ∷ []) 2
execute_body_eof_example =
    execute_body_eof recording (codes "ab") (mid s_body_identity_eof 0) [] (ground arith) refl
      (omega arith) (omega arith)

abbrev at_value : Frame (Unit {0})
at_value = initial_frame (mid s_header_value_start 7) tt

content_length_digits_example :
    rounds silent (codes "120") (codes "120") at_value
    ≡ next (
        counted 3 120
          (record at_value { state = s_header_value; index = 0; header_value_mark = some 0 }))
unfolding is_num
content_length_digits_example =
    content_length_digits silent (codes "120") b'1' (codes "20") at_value refl refl (omega arith)
      refl

abbrev chunking : State → Frame (Unit {0})
chunking s = initial_frame (record (mid s 2) { flags = record no_flags { chunked = true } }) tt

chunk_size_digits_example :
    rounds silent (codes "1F") (codes "1F") (chunking s_chunk_size_start)
    ≡ next (counted 2 31 (record (chunking s_chunk_size_start) { state = s_chunk_size }))
unfolding unhex_value unhex
chunk_size_digits_example =
    chunk_size_digits silent (codes "1F") b'1' (codes "F") (chunking s_chunk_size_start) refl refl
      refl (omega arith) refl

chunk_size_high_byte_example :
    round silent [] 200 (chunking s_chunk_size)
    ≡ next (record (chunking s_chunk_size) {
      nread = 1;
      parser = record (mid s_chunk_size 32) { flags = record no_flags { chunked = true } };
    })
chunk_size_high_byte_example =
    chunk_size_high_byte silent [] 200 (chunking s_chunk_size) (omega arith) (omega arith) refl refl
      (omega arith)

-- A message of HTTP/1.0 that does not ask to keep its connection, in its body.
abbrev last_message : Parser
last_message = record (mid s_body_identity 3) { http_major = 1; http_minor = 0; flags = no_flags }

execute_closed_example :
    next_call recording get (http_parser_execute recording (codes "abc") last_message [])
    ≡ returned
        (record last_message {
          content_length = 0;
          state = s_dead;
          http_errno = hpe_closed_connection;
        })
        (got_body (codes "abc") ∷ completed ∷ [])
        0
unfolding http_should_keep_alive
execute_closed_example =
    execute_closed recording (codes "abc") get last_message [] (ground arith) refl refl
      (λ q w. refl) refl (omega arith) (omega arith)

execute_eof_lem_example :
    let q = mid s_header_field 0 in
    let call = http_parser_execute recording [] q [] in
    (at_boundary q.state ≡ true → call ≡ returned q [] 0)
    × (q.state ≡ s_body_identity_eof → call ≡ completed_at_eof recording.on_message_complete q [])
    × (at_boundary q.state ≡ false
        → q.state ≢ s_body_identity_eof
        → call ≡ returned (record q { http_errno = hpe_invalid_eof_state }) [] 1)
execute_eof_lem_example = execute_eof_lem recording (mid s_header_field 0) [] refl

token_lem_example : token b'A' ≡ b'a'
token_lem_example = token_lem b'A' (omega arith)

class_lem_example :
    (is_alpha b'?' ≡ false) × (is_host_char b'?' ≡ false) × (is_url_char b'?' ≡ false)
class_lem_example = class_lem b'?' (omega arith)

abbrev length_header : Bytes
length_header = codes "Content-LENGTH "

field_name_iff_example :
    InName content_length_field true
      (rounds silent length_header length_header (initial_frame (mid s_header_field_start 0) tt))
field_name_iff_example =
    field_name_iff silent length_header content_length_field b'C' (codes "ontent-LENGTH ")
      (initial_frame (mid s_header_field_start 0) tt) refl (omega arith) refl

abbrev chunked_header : Bytes
chunked_header = codes "Chunked"

abbrev in_coding : Frame (Unit {0})
in_coding =
    let f = initial_frame (mid s_header_value_start 0) tt in
    record f { header_state = h_transfer_encoding }

header_value_iff_example :
    InValue chunked_coding true (rounds silent chunked_header chunked_header in_coding)
header_value_iff_example =
    header_value_iff silent chunked_header chunked_coding b'C' (codes "hunked") in_coding refl refl
      (omega arith) refl refl

errno_text_lem_example :
    (first_with http_errno_name (http_errno_name hpe_strict) errnos ≡ some hpe_strict)
    × (first_with http_errno_description (http_errno_description hpe_strict) errnos
        ≡ some hpe_strict)
errno_text_lem_example = errno_text_lem hpe_strict

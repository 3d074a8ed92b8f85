-- ===== src/WebServer/Answer.antt =====
-- example/webserver.cc: a GET request from the read that brings it to the response that is written.
use mathlib.Core.List.{append_assoc}
use projectmoo.Base.{
  ◌+◌, ◌≤◌, ◌≡◌, refl, ap, ◌∙◌, true, false, some, [], ◌∷◌, ◌++◌, arith, Bytes, codes, length,
  length-append, take-append, ltb, leb, if◌then◌else◌,
}
use projectmoo.Http.Behaviour.Get.{got_request, answered_request, get_request, execute_get}
use projectmoo.Http.Behaviour.Query.{all_url_chars}
use projectmoo.Http.Chars.{lf, normal_url_char, is_url_char}
use projectmoo.Http.Execute.{http_parser_init, http_parser_execute}
use projectmoo.Http.Frame.{returned}
use projectmoo.Http.Recognize.Name.{found}
use projectmoo.Http.Types.{http_request, Parser, http_max_header_size}
use projectmoo.WebServer.File.{get_file_content}
use projectmoo.WebServer.Handlers.{
  close_client, write_response, respond, on_headers_complete, settings, note_file_name, after_parse,
  on_read,
}
use projectmoo.WebServer.Memory.{
  no_nul, no_nul-append, c_string-append, length-c_string, c_string-no_nul, no_nul-url,
  spaceless-url, no_nul-response, strcpy_lem,
}
use projectmoo.WebServer.Name.{requested_file-request}
use projectmoo.WebServer.Response.{make_http_response}
use projectmoo.WebServer.Text.{c_string, get_string, requested_file}
use projectmoo.WebServer.World.{
  named, response_overrun, unterminated_buffer, Platform, World, trouble_if,
}

-- A request for a file, and nothing else.
abbrev pub file_request : Bytes → Bytes
file_request name = get_request (codes "ile=" ++ name)

file_request-no_nul : (name : Bytes) → all_url_chars name ≡ true → no_nul (file_request name) ≡ true
file_request-no_nul name h =
    ground (arith, no_nul-url name h, no_nul-append name (codes " HTTP/1.1\r\n\r" ++ lf ∷ []))

all_url_chars-ile :
    (name : Bytes) → all_url_chars name ≡ true → all_url_chars (codes "ile=" ++ name) ≡ true
unfolding is_url_char normal_url_char
all_url_chars-ile name h = ground arith

-- The file name that `on_read` finds in a block that begins with such a request.
file_name_found :
    (name junk : Bytes)
    → all_url_chars name ≡ true
    → requested_file (c_string (file_request name ++ junk)) ≡ some name
file_name_found name junk h =
    let version = codes " HTTP/1.1\r\n\r\n" in
    ap requested_file (
      c_string-append (file_request name) junk (file_request-no_nul name h)
      ∙ ap (λ s. get_string ++ s) (append_assoc name version (c_string junk)))
    ∙ requested_file-request name (codes "/1.1\r\n\r\n" ++ c_string junk) (spaceless-url name h)

module _ {L : Type 0} (platform : Platform L) where
  -- The world behind a response to `name` with this content.
  abbrev pub responded : Bytes → Bytes → World L → World L
  responded name content w =
      let text = make_http_response content in
      write_response platform text (record w {
        client = record { file_name = named name; response = some text };
        served = w.served + 1;
        trouble = response_overrun ∷ w.trouble;
      })

  respond_lem :
      (content : Bytes) (w : World L) (name : Bytes)
      → no_nul content ≡ true
      → w.client.file_name ≡ named name
      → respond platform content w ≡ (1, responded name content w)
  unfolding respond
  respond_lem content w name h e =
      let text = make_http_response content in
      let full = c_string-no_nul text (no_nul-response content h) in
      ground
        (arith, strcpy_lem text (platform.junk (length text)) (no_nul-response content h), full)

  headers_complete_lem :
      (q : Parser) (name content : Bytes) (w : World L)
      → get_file_content (platform.files name) ≡ some content
      → no_nul content ≡ true
      → w.client.file_name ≡ named name
      → on_headers_complete platform q w ≡ (1, responded name content w)
  unfolding on_headers_complete
  headers_complete_lem q name content w found h e = ground (arith, respond_lem content w name h e)

  -- The client with its file name.
  abbrev noted : Bytes → World L → World L
  noted name w =
      let client = w.client in record w { client = record client { file_name = named name } }

  -- The world behind the reading of the block as a text: with no NUL behind the request it does not
  -- end in the block.
  abbrev pub scanned : Bytes → World L → World L
  scanned junk w = trouble_if (no_nul junk) unterminated_buffer w

  block_unterminated :
      (text junk : Bytes)
      → no_nul text ≡ true
      → leb (length (text ++ junk)) (length (c_string (text ++ junk))) ≡ no_nul junk
  block_unterminated text junk h = ground (
    arith,
    c_string-append text junk h,
    length-append text junk,
    length-append text (c_string junk),
    length-c_string junk,
  )

  read_parsed :
      (q : Parser) (name junk : Bytes) (w : World L)
      → all_url_chars name ≡ true
      → let n = length (file_request name) in
        on_read platform (some n) (file_request name ++ junk) q w
        ≡ after_parse platform n (
            http_parser_execute
              (settings platform)
              (file_request name)
              q
              (noted name (scanned junk w)))
  unfolding on_read note_file_name
  read_parsed q name junk w plain =
      let text = file_request name in
      let ended = block_unterminated text junk (file_request-no_nul name plain) in
      ground (arith, ended, file_name_found name junk plain, take-append text junk)

  -- A read that brings a GET request for a file, with no header fields, in a block of any content
  -- behind it, where the name is made of URL characters and shorter by 24 bytes than the limit on
  -- header bytes, and the file's content, as the server reads it, holds no NUL; on a parser that was
  -- made for requests and has read nothing. The whole request is parsed, the response with this
  -- content is written to the client, `served` is counted up by one, and the client is not closed
  -- unless the write fails. The block of the response is overrun by one byte; and if there is no NUL
  -- behind the request, the block it came in is read behind its end.
  pub on_read_get :
      (memory : Parser) (name junk content : Bytes) (w : World L)
      → all_url_chars name ≡ true
      → length name + 24 ≤ http_max_header_size
      → get_file_content (platform.files name) ≡ some content
      → no_nul content ≡ true
      → let q = http_parser_init memory http_request in
        let n = length (file_request name) in
        on_read platform (some n) (file_request name ++ junk) q w
        ≡ returned (answered_request q) (responded name content (scanned junk w)) n
  on_read_get memory name junk content w plain few found h =
      let q = http_parser_init memory http_request in
      let n = length (file_request name) in
      let cb = on_headers_complete platform in
      let v = noted name (scanned junk w) in
      let answer = headers_complete_lem (got_request q) name content v found h refl in
      let v' = (cb (got_request q) v).1 in
      let whole : ltb n n ≡ false = ground arith in
      read_parsed q name junk w plain
      ∙ ap (after_parse platform n) (
          execute_get cb memory (codes "ile=" ++ name) v (all_url_chars-ile name plain)
            (omega arith) (ap (λ r. r.0) answer))
      ∙ ap (λ b. returned (answered_request q) (if b then close_client platform v' else v') n) whole
      ∙ ap (λ u. returned (answered_request q) u n) (ap (λ r. r.1) answer)

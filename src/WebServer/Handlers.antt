-- ===== src/WebServer/Handlers.antt =====
-- example/webserver.cc: the callbacks of the event loop and of the parser.
use projectmoo.Base.{
  ℕ, ◌+◌, true, false, Option, none, some, [], ◌∷◌, ◌++◌, Bytes, length, take, drop, ltb, leb, ◌==◌,
  if◌then◌else◌,
}
use projectmoo.Http.Execute.{http_parser_init, http_parser_execute}
use projectmoo.Http.Frame.{Outcome, returned}
use projectmoo.Http.Types.{http_request, Parser, Settings}
use projectmoo.WebServer.File.{get_file_content}
use projectmoo.WebServer.Response.{make_http_response}
use projectmoo.WebServer.Text.{c_string, requested_file}
use projectmoo.WebServer.World.{
  unset, named, wild_file_name, response_overrun, mismatched_free, undersized_request,
  unterminated_buffer, request_in_use, closed_twice, Platform, World, add_trouble, trouble_if,
}

-- `strcpy(block, text)`, into a block of `n` bytes that holds `junk`: what the block holds then.
abbrev pub strcpy : ℕ → Bytes → Bytes → Bytes
strcpy n text junk = let s = c_string text in take n (s ++ 0 ∷ drop (length s + 1) junk)

module _ {L : Type 0} (platform : Platform L) where
  -- `uv_close((uv_handle_t*)&client->handle, on_close)`
  abbrev pub close_client : World L → World L
  close_client w =
      let v = trouble_if w.closing closed_twice w in
      record v { loop = platform.uv.close v.loop; closing = true }

  -- The end of `on_headers_complete`: `uv_write`, and what is done if it fails.
  abbrev pub write_response : Bytes → World L → World L
  write_response block w =
      let v = trouble_if w.writing request_in_use w in
      let (r, l) = platform.uv.write block v.loop in
      if r == 0 then record v { loop = l; writing = true } else close_client (record v { loop = l })

  -- `on_headers_complete`, behind the test of the pointer
  unfoldable pub respond : Bytes → World L → ℕ × World L
  respond content w =
      let text = make_http_response content in
      let n = length text in
      let block = strcpy n text (platform.junk n) in
      let client = w.client in
      let v = trouble_if (leb n (length (c_string text))) response_overrun w in
      (
        1,
        write_response block
            (record v { client = record client { response = some block }; served = w.served + 1 }),
      )

  -- `on_headers_complete`; a file that is never read to its end would keep it in its loop
  unfoldable pub on_headers_complete : Parser → World L → ℕ × World L
  unfolding respond get_file_content
  on_headers_complete q w = elim w.client.file_name [
    | unset ↦ (1, add_trouble wild_file_name w)
    | named name ↦ elim (get_file_content (platform.files name)) [
      | none ↦ (1, w)
      | some content ↦ respond content w
    ]
  ]

  -- The settings that `main` fills.
  abbrev pub settings : Settings (World L)
  settings = record {
    on_message_begin = none;
    on_url = none;
    on_header_field = none;
    on_header_value = none;
    on_headers_complete = some on_headers_complete;
    on_body = none;
    on_message_complete = none;
  }

  -- The file name that `on_read` takes from the block that it is given.
  unfoldable pub note_file_name : Bytes → World L → World L
  unfolding requested_file
  note_file_name block w =
      let client = w.client in
      elim (requested_file (c_string block)) [
        | none ↦ w
        | some name ↦ record w { client = record client { file_name = named name } }
      ]

  -- `if(parsed < nread)` in `on_read`
  abbrev pub after_parse : ℕ → Outcome (World L) → Outcome (World L)
  after_parse nread (returned q w n) = returned q (if ltb n nread then close_client w else w) n
  after_parse nread o = o

  -- `on_read`, of `nread` bytes, or an error, at the head of a block. `server_closed` is never set.
  unfoldable pub on_read : Option ℕ → Bytes → Parser → World L → Outcome (World L)
  unfolding note_file_name
  on_read none block q w =
      if platform.uv.last_error_is_eof w.loop
      then returned q
          (record w {
            loop = platform.uv.shutdown w.loop;
            trouble = undersized_request ∷ w.trouble;
          })
          0
      else returned q w 0
  on_read (some nread) block q w =
      let w' = trouble_if (leb (length block) (length (c_string block))) unterminated_buffer w in
      after_parse nread
        (http_parser_execute settings (take nread block) q (note_file_name block w'))

  -- `on_connect`: a client's fields, its parser, and the calls on its handle; `memory` is what the
  -- parser's memory holds.
  unfoldable pub on_connect : Parser → ℕ → L → Parser × World L
  on_connect memory served l = (
    http_parser_init memory http_request,
    record {
      client = record { file_name = unset; response = none };
      served = served;
      loop = platform.uv.read_start (platform.uv.accept ((platform.uv.tcp_init l).1));
      writing = false;
      closing = false;
      trouble = [];
    },
  )

  -- `after_write`: the block of `new char[]` is given to `free`, and the client is closed.
  unfoldable pub after_write : World L → World L
  after_write w = elim w.client.response [
    | none ↦ close_client (record w { writing = false })
    | some block ↦ close_client (add_trouble mismatched_free (record w { writing = false }))
  ]

  -- `on_close`: the file name is deleted, whether it was set or not.
  unfoldable pub on_close : World L → World L
  on_close w = elim w.client.file_name [ unset ↦ add_trouble wild_file_name w | named name ↦ w ]

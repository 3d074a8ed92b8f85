-- ===== src/WebServer/Session.antt =====
-- example/webserver.cc: a connection from its first callback to its last.
use projectmoo.Base.{
  ℕ, ◌+◌, ◌≤◌, ◌≡◌, true, false, Option, none, some, [], ◌∷◌, ◌++◌, arith, Bytes, length,
  if◌then◌else◌, Bool-cases,
}
use projectmoo.Http.Behaviour.Query.{all_url_chars}
use projectmoo.Http.Frame.{returned, fault, exhausted}
use projectmoo.Http.Recognize.Name.{found}
use projectmoo.Http.Types.{Parser, http_max_header_size}
use projectmoo.WebServer.Answer.{file_request, on_read_get}
use projectmoo.WebServer.File.{get_file_content}
use projectmoo.WebServer.Handlers.{on_read, on_connect, after_write, on_close}
use projectmoo.WebServer.Memory.{no_nul}
use projectmoo.WebServer.Response.{make_http_response}
use projectmoo.WebServer.World.{
  named, response_overrun, mismatched_free, unterminated_buffer, Platform, World,
}

module _ {L : Type 0} (platform : Platform L) where
  -- The callbacks of a connection on which one block is read: `on_connect`, `on_read`, and, where a
  -- write was begun, `after_write`; then `on_close`.
  unfoldable pub session : Parser → ℕ → L → ℕ → Bytes → Option (World L)
  session memory served l nread block =
      let (q, w) = on_connect platform memory served l in
      elim (on_read platform (some nread) block q w) [
        | returned q' w' n ↦
            some (on_close platform (if w'.writing then after_write platform w' else w'))
        | fault ↦ none
        | exhausted ↦ none
      ]

  -- A connection on which a GET request for a file, with no header fields, comes in one read, in a
  -- block of any content behind it, where the name is made of URL characters and shorter by 24 bytes
  -- than the limit on header bytes, the file's content, as the server reads it, holds no NUL, and the
  -- write of the response succeeds. It is served once, the client is closed once, behind the
  -- write, no pointer is followed that was not set, and of the troubles that are watched exactly these
  -- occur: the block of the response is overrun, and given to the wrong function to be freed, and,
  -- if there is no NUL behind the request, the block it came in is read behind its end.
  pub session_get :
      (memory : Parser) (served : ℕ) (l : L) (name junk content : Bytes)
      → all_url_chars name ≡ true
      → length name + 24 ≤ http_max_header_size
      → get_file_content (platform.files name) ≡ some content
      → no_nul content ≡ true
      → (platform.uv.write
          (make_http_response content)
          (platform.uv.read_start (platform.uv.accept (platform.uv.tcp_init l).1))).0
        ≡ 0
      → let text = make_http_response content in
        let opened = platform.uv.read_start (platform.uv.accept (platform.uv.tcp_init l).1) in
        session memory served l (length (file_request name)) (file_request name ++ junk)
        ≡ some (record {
          client = record { file_name = named name; response = some text };
          served = served + 1;
          loop = platform.uv.close (platform.uv.write text opened).1;
          writing = false;
          closing = true;
          trouble =
              mismatched_free
              ∷ response_overrun
              ∷ (if no_nul junk then unterminated_buffer ∷ [] else []);
        })
  unfolding session on_connect after_write on_close
  session_get memory served l name junk content plain few found h wrote =
      let w = (on_connect platform memory served l).1 in
      ground (
        arith,
        on_read_get platform memory name junk content w plain few found h,
        wrote,
        Bool-cases (no_nul junk),
      )

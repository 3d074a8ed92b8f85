-- ===== src/Http/Complete.antt =====
-- http_parser.c: the end of a header block, where the kind of the body is chosen (case
-- s_headers_almost_done of `http_parser_execute`).
use projectmoo.Base.{ℕ, ◌+◌, true, not, ◌||◌, Option, none, some, ◌==◌, if◌then◌else◌}
use projectmoo.Http.Chars.{lf}
use projectmoo.Http.Frame.{
  Frame, returned, Flow, halt, is_negative, is_request, http_should_keep_alive, new_message, goto,
  strict_check, notify,
}
use projectmoo.Http.Request.{is_connect}
use projectmoo.Http.Types.{
  hpe_cb_headers_complete, hpe_cb_message_complete, s_chunk_size_start, s_body_identity,
  s_body_identity_eof, Parser, Settings,
}

module _ {W : Type 0} (settings : Settings W) where
  -- `CALLBACK2(message_complete); state = NEW_MESSAGE(); break;`
  unfoldable pub end_message : Frame W → Flow W
  end_message f =
      notify settings.on_message_complete hpe_cb_message_complete f
        (λ g. goto (new_message g.parser) g)

  -- The choice of the body by F_SKIPBODY, F_CHUNKED, the content length and the connection.
  unfoldable pub choose_body : Frame W → Flow W
  choose_body f =
      let q = f.parser in
      if q.flags.skipbody
      then end_message f
      else if q.flags.chunked
      then goto s_chunk_size_start f
      else if q.content_length == 0
      then end_message f
      else if not (is_negative q.content_length)
      then goto s_body_identity f
      else if is_request q.type || http_should_keep_alive q
      then end_message f
      else goto s_body_identity_eof f

  -- What follows the headers_complete callback: an upgrade ends the call behind this byte.
  unfoldable pub after_headers : Frame W → Flow W
  after_headers f =
      if f.parser.upgrade
      then notify settings.on_message_complete hpe_cb_message_complete f
          (λ g. halt (returned g.parser g.world (g.p + 1)))
      else choose_body f

  -- The result of the headers_complete callback: 1 says that there is no body.
  unfoldable pub headers_answered : ℕ × W → Frame W → Flow W
  headers_answered (rc, w) f =
      let q = f.parser in
      let fl = q.flags in
      if rc == 0
      then after_headers (record f { world = w })
      else if rc == 1
      then after_headers
          (record f { parser = record q { flags = record fl { skipbody = true } }; world = w })
      else halt
          (returned (record q { state = f.state; http_errno = hpe_cb_headers_complete }) w f.p)

  -- `if (settings->on_headers_complete) …`
  unfoldable pub headers_complete : Option (Parser → W → ℕ × W) → Frame W → Flow W
  headers_complete none f = after_headers f
  headers_complete (some cb) f = headers_answered (cb f.parser f.world) f

  -- case s_headers_almost_done, and label headers_almost_done
  unfoldable pub step_headers_almost_done : ℕ → Frame W → Flow W
  step_headers_almost_done ch f =
      let q = f.parser in
      strict_check (not (ch == lf)) f (
        if q.flags.trailing
        then end_message f
        else headers_complete settings.on_headers_complete (record f {
          nread = 0;
          parser = record q { upgrade = (q.flags.upgrading || is_connect q.method) || q.upgrade };
        }))

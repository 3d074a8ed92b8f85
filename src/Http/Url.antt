-- ===== src/Http/Url.antt =====
-- http_parser.c: the states of `http_parser_execute` that read a request's URL.
use projectmoo.Base.{ℕ, not, ◌&&◌, ◌||◌, some, Bytes, ◌==◌, if◌then◌else◌}
use projectmoo.Http.Chars.{cr, lf, is_alpha, is_num, is_url_char, is_host_char}
use projectmoo.Http.Frame.{Frame, Flow, next, goto, fail, strict_check, callback_url}
use projectmoo.Http.Request.{is_connect}
use projectmoo.Http.Types.{
  hpe_invalid_url, hpe_invalid_host, hpe_invalid_port, hpe_invalid_path, hpe_invalid_query_string,
  hpe_invalid_fragment, State, s_req_schema, s_req_schema_slash, s_req_schema_slash_slash,
  s_req_host, s_req_port, s_req_path, s_req_query_string_start, s_req_query_string,
  s_req_fragment_start, s_req_fragment, s_req_http_start, s_req_line_almost_done,
  s_header_field_start, Settings,
}

module _ {W : Type 0} (settings : Settings W) (input : Bytes) where
  -- `CALLBACK(url); state = s_req_http_start; break;`
  unfoldable pub url_then_http : Frame W → Flow W
  unfolding callback_url
  url_then_http f = callback_url settings input f (goto s_req_http_start)

  -- `CALLBACK(url); parser->http_major = 0; parser->http_minor = 9; state = …; break;`
  unfoldable pub url_then_end : State → Frame W → Flow W
  unfolding callback_url
  url_then_end then_state f = callback_url settings input f (λ g.
      let q = g.parser in
      next (record g { parser = record q { http_major = 0; http_minor = 9 }; state = then_state }))

  -- case s_req_spaces_before_url
  unfoldable pub step_req_spaces_before_url : ℕ → Frame W → Flow W
  unfolding is_alpha is_num
  step_req_spaces_before_url ch f =
      let connect = is_connect f.parser.method in
      if ch == b' '
      then next f
      else if ch == b'/' || ch == b'*'
      then next (record f { url_mark = some f.p; state = s_req_path })
      else if is_alpha ch || (connect && is_num ch)
      then next
          (record f { url_mark = some f.p; state = if connect then s_req_host else s_req_schema })
      else fail hpe_invalid_url f

  -- case s_req_schema
  unfoldable pub step_req_schema : ℕ → Frame W → Flow W
  unfolding is_alpha
  step_req_schema ch f =
      if is_alpha ch
      then next f
      else if ch == b':'
      then goto s_req_schema_slash f
      else fail hpe_invalid_url f

  -- case s_req_schema_slash
  unfoldable pub step_req_schema_slash : ℕ → Frame W → Flow W
  step_req_schema_slash ch f = strict_check (not (ch == b'/')) f (goto s_req_schema_slash_slash f)

  -- case s_req_schema_slash_slash
  unfoldable pub step_req_schema_slash_slash : ℕ → Frame W → Flow W
  step_req_schema_slash_slash ch f = strict_check (not (ch == b'/')) f (goto s_req_host f)

  -- case s_req_host
  unfoldable pub step_req_host : ℕ → Frame W → Flow W
  unfolding is_host_char url_then_http
  step_req_host ch f =
      if is_host_char ch
      then next f
      else if ch == b':'
      then goto s_req_port f
      else if ch == b'/'
      then goto s_req_path f
      else if ch == b' '
      then url_then_http f
      else if ch == b'?'
      then goto s_req_query_string_start f
      else fail hpe_invalid_host f

  -- case s_req_port
  unfoldable pub step_req_port : ℕ → Frame W → Flow W
  unfolding is_num url_then_http
  step_req_port ch f =
      if is_num ch
      then next f
      else if ch == b'/'
      then goto s_req_path f
      else if ch == b' '
      then url_then_http f
      else if ch == b'?'
      then goto s_req_query_string_start f
      else fail hpe_invalid_port f

  -- case s_req_path
  unfoldable pub step_req_path : ℕ → Frame W → Flow W
  unfolding is_url_char url_then_http url_then_end
  step_req_path ch f =
      if is_url_char ch
      then next f
      else if ch == b' '
      then url_then_http f
      else if ch == cr
      then url_then_end s_req_line_almost_done f
      else if ch == lf
      then url_then_end s_header_field_start f
      else if ch == b'?'
      then goto s_req_query_string_start f
      else if ch == b'#'
      then goto s_req_fragment_start f
      else fail hpe_invalid_path f

  -- case s_req_query_string_start
  unfoldable pub step_req_query_string_start : ℕ → Frame W → Flow W
  unfolding is_url_char url_then_http url_then_end
  step_req_query_string_start ch f =
      if is_url_char ch
      then goto s_req_query_string f
      else if ch == b'?'
      then next f
      else if ch == b' '
      then url_then_http f
      else if ch == cr
      then url_then_end s_req_line_almost_done f
      else if ch == lf
      then url_then_end s_header_field_start f
      else if ch == b'#'
      then goto s_req_fragment_start f
      else fail hpe_invalid_query_string f

  -- case s_req_query_string
  unfoldable pub step_req_query_string : ℕ → Frame W → Flow W
  unfolding is_url_char url_then_http url_then_end
  step_req_query_string ch f =
      if is_url_char ch
      then next f
      else if ch == b'?'
      then next f
      else if ch == b' '
      then url_then_http f
      else if ch == cr
      then url_then_end s_req_line_almost_done f
      else if ch == lf
      then url_then_end s_header_field_start f
      else if ch == b'#'
      then goto s_req_fragment_start f
      else fail hpe_invalid_query_string f

  -- case s_req_fragment_start
  unfoldable pub step_req_fragment_start : ℕ → Frame W → Flow W
  unfolding is_url_char url_then_http url_then_end
  step_req_fragment_start ch f =
      if is_url_char ch
      then goto s_req_fragment f
      else if ch == b' '
      then url_then_http f
      else if ch == cr
      then url_then_end s_req_line_almost_done f
      else if ch == lf
      then url_then_end s_header_field_start f
      else if ch == b'?'
      then goto s_req_fragment f
      else if ch == b'#'
      then next f
      else fail hpe_invalid_fragment f

  -- case s_req_fragment
  unfoldable pub step_req_fragment : ℕ → Frame W → Flow W
  unfolding is_url_char url_then_http url_then_end
  step_req_fragment ch f =
      if is_url_char ch
      then next f
      else if ch == b' '
      then url_then_http f
      else if ch == cr
      then url_then_end s_req_line_almost_done f
      else if ch == lf
      then url_then_end s_header_field_start f
      else if ch == b'?' || ch == b'#'
      then next f
      else fail hpe_invalid_fragment f

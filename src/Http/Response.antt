-- ===== src/Http/Response.antt =====
-- http_parser.c: the states of `http_parser_execute` up to the end of a response's status line,
-- and the start states that a request shares with them.
use projectmoo.Base.{ℕ, ◌+◌, ◌-◌, ◌*◌, not, ◌||◌, ltb, ◌==◌, if◌then◌else◌}
use projectmoo.Http.Chars.{cr, lf, is_num}
use projectmoo.Http.Frame.{Frame, Flow, next, u16, minus_one, goto, fail, strict_check, notify}
use projectmoo.Http.Types.{
  http_request, http_response, Method, http_delete, http_get, http_head, http_post, http_connect,
  http_options, http_trace, http_lock, http_mkcol, http_unlock, http_report, http_notify,
  http_subscribe, hpe_cb_message_begin, hpe_closed_connection, hpe_invalid_status,
  hpe_invalid_method, hpe_invalid_constant, s_res_or_resp_h, s_res_h, s_res_ht, s_res_htt,
  s_res_http, s_res_first_http_major, s_res_http_major, s_res_first_http_minor, s_res_http_minor,
  s_res_first_status_code, s_res_status_code, s_res_status, s_res_line_almost_done, s_req_method,
  s_header_field_start, no_flags, Settings,
}
use projectmoo.Http.Version.{first_major, next_major, first_minor, next_minor}

module _ {W : Type 0} (settings : Settings W) where
  -- case s_dead
  unfoldable pub step_dead : ℕ → Frame W → Flow W
  step_dead ch f = fail hpe_closed_connection f

  -- `parser->flags = 0; parser->content_length = -1; CALLBACK2(message_begin);`
  unfoldable pub begin_message : Frame W → (Frame W → Flow W) → Flow W
  unfolding notify
  begin_message f rest =
      let q = f.parser in
      notify settings.on_message_begin hpe_cb_message_begin
        (record f { parser = record q { flags = no_flags; content_length = minus_one } }) rest

  -- label start_req_method_assign
  unfoldable pub start_req_method_assign : ℕ → Frame W → Flow W
  start_req_method_assign ch f =
      let q = f.parser in
      let assign = λ (m : Method).
        next (record f { parser = record q { method = m }; index = 1; state = s_req_method }) in
      if ch == b'C'
      then assign http_connect
      else if ch == b'D'
      then assign http_delete
      else if ch == b'G'
      then assign http_get
      else if ch == b'H'
      then assign http_head
      else if ch == b'L'
      then assign http_lock
      else if ch == b'M'
      then assign http_mkcol
      else if ch == b'N'
      then assign http_notify
      else if ch == b'O'
      then assign http_options
      else if ch == b'P'
      then assign http_post
      else if ch == b'R'
      then assign http_report
      else if ch == b'S'
      then assign http_subscribe
      else if ch == b'T'
      then assign http_trace
      else if ch == b'U'
      then assign http_unlock
      else fail hpe_invalid_method
          (record f { parser = record q { method = http_delete }; index = 1 })

  -- case s_start_req_or_res
  unfoldable pub step_start_req_or_res : ℕ → Frame W → Flow W
  step_start_req_or_res ch f =
      if ch == cr || ch == lf
      then next f
      else begin_message f (λ g.
        if ch == b'H'
        then goto s_res_or_resp_h g
        else let q = g.parser in
          start_req_method_assign ch (record g { parser = record q { type = http_request } }))

  -- case s_res_or_resp_H
  unfoldable pub step_res_or_resp_h : ℕ → Frame W → Flow W
  step_res_or_resp_h ch f =
      let q = f.parser in
      if ch == b'T'
      then next (record f { parser = record q { type = http_response }; state = s_res_ht })
      else if not (ch == b'E')
      then fail hpe_invalid_constant f
      else next (record f {
        parser = record q { type = http_request; method = http_head };
        index = 2;
        state = s_req_method;
      })

  -- case s_start_res
  unfoldable pub step_start_res : ℕ → Frame W → Flow W
  step_start_res ch f = begin_message f (λ g.
      if ch == b'H'
      then goto s_res_h g
      else if ch == cr || ch == lf
      then next g
      else fail hpe_invalid_constant g)

  -- case s_res_H
  unfoldable pub step_res_h : ℕ → Frame W → Flow W
  step_res_h ch f = strict_check (not (ch == b'T')) f (goto s_res_ht f)

  -- case s_res_HT
  unfoldable pub step_res_ht : ℕ → Frame W → Flow W
  step_res_ht ch f = strict_check (not (ch == b'T')) f (goto s_res_htt f)

  -- case s_res_HTT
  unfoldable pub step_res_htt : ℕ → Frame W → Flow W
  step_res_htt ch f = strict_check (not (ch == b'P')) f (goto s_res_http f)

  -- case s_res_HTTP
  unfoldable pub step_res_http : ℕ → Frame W → Flow W
  step_res_http ch f = strict_check (not (ch == b'/')) f (goto s_res_first_http_major f)

  -- case s_res_first_http_major
  unfoldable pub step_res_first_http_major : ℕ → Frame W → Flow W
  unfolding first_major
  step_res_first_http_major ch f = first_major s_res_http_major ch f

  -- case s_res_http_major
  unfoldable pub step_res_http_major : ℕ → Frame W → Flow W
  unfolding next_major
  step_res_http_major ch f = if ch == b'.' then goto s_res_first_http_minor f else next_major ch f

  -- case s_res_first_http_minor
  unfoldable pub step_res_first_http_minor : ℕ → Frame W → Flow W
  unfolding first_minor
  step_res_first_http_minor ch f = first_minor s_res_http_minor ch f

  -- case s_res_http_minor
  unfoldable pub step_res_http_minor : ℕ → Frame W → Flow W
  unfolding next_minor
  step_res_http_minor ch f = if ch == b' ' then goto s_res_first_status_code f else next_minor ch f

  -- case s_res_first_status_code
  unfoldable pub step_res_first_status_code : ℕ → Frame W → Flow W
  unfolding is_num
  step_res_first_status_code ch f =
      let q = f.parser in
      if not (is_num ch)
      then (if ch == b' ' then next f else fail hpe_invalid_status f)
      else next
          (record f { parser = record q { status_code = ch - b'0' }; state = s_res_status_code })

  -- case s_res_status_code
  unfoldable pub step_res_status_code : ℕ → Frame W → Flow W
  unfolding is_num
  step_res_status_code ch f =
      if not (is_num ch)
      then (if ch == b' '
          then goto s_res_status f
          else if ch == cr
          then goto s_res_line_almost_done f
          else if ch == lf
          then goto s_header_field_start f
          else fail hpe_invalid_status f)
      else let q = f.parser in
        let n = u16 (u16 (q.status_code * 10) + (ch - b'0')) in
        let g = record f { parser = record q { status_code = n } } in
        if ltb 999 n then fail hpe_invalid_status g else next g

  -- case s_res_status
  unfoldable pub step_res_status : ℕ → Frame W → Flow W
  step_res_status ch f =
      if ch == cr
      then goto s_res_line_almost_done f
      else if ch == lf
      then goto s_header_field_start f
      else next f

  -- case s_res_line_almost_done
  unfoldable pub step_res_line_almost_done : ℕ → Frame W → Flow W
  step_res_line_almost_done ch f = strict_check (not (ch == lf)) f (goto s_header_field_start f)

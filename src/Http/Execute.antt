-- ===== src/Http/Execute.antt =====
-- http_parser.c: the switch, the loop and the whole of `http_parser_execute`, and
-- `http_parser_init`.
use projectmoo.Base.{
  ℕ, zero, suc, ◌+◌, ◌<◌, ◌≡◌, false, not, Option, none, some, [], arith, Bytes, length, get_elem?,
  ltb, ◌==◌, if◌then◌else◌,
}
use projectmoo.Http.Body.{
  step_body_identity, step_body_identity_eof, step_chunk_size_start, step_chunk_size,
  step_chunk_parameters, step_chunk_size_almost_done, step_chunk_data, step_chunk_data_almost_done,
  step_chunk_data_done,
}
use projectmoo.Http.Complete.{step_headers_almost_done}
use projectmoo.Http.Frame.{
  Frame, Outcome, returned, exhausted, Flow, next, halt, u8, u32, u64, is_ok, fail, notify,
  callback_url, callback_header_field, callback_header_value,
}
use projectmoo.Http.Header.{
  step_header_almost_done, step_header_field_start, step_header_field, step_header_value_start,
  step_header_value, step_header_value_lws,
}
use projectmoo.Http.Request.{
  step_start_req, step_req_method, step_req_http_start, step_req_http_h, step_req_http_ht,
  step_req_http_htt, step_req_http_http, step_req_first_http_major, step_req_http_major,
  step_req_first_http_minor, step_req_http_minor, step_req_line_almost_done,
}
use projectmoo.Http.Response.{
  step_dead, step_start_req_or_res, step_res_or_resp_h, step_start_res, step_res_h, step_res_ht,
  step_res_htt, step_res_http, step_res_first_http_major, step_res_http_major,
  step_res_first_http_minor, step_res_http_minor, step_res_first_status_code, step_res_status_code,
  step_res_status, step_res_line_almost_done,
}
use projectmoo.Http.Types.{
  ParserType, http_request, http_response, http_both, http_delete, hpe_ok, hpe_cb_message_complete,
  hpe_invalid_eof_state, hpe_header_overflow, State, s_dead, s_start_req_or_res, s_res_or_resp_h,
  s_start_res, s_res_h, s_res_ht, s_res_htt, s_res_http, s_res_first_http_major, s_res_http_major,
  s_res_first_http_minor, s_res_http_minor, s_res_first_status_code, s_res_status_code,
  s_res_status, s_res_line_almost_done, s_start_req, s_req_method, s_req_spaces_before_url,
  s_req_schema, s_req_schema_slash, s_req_schema_slash_slash, s_req_host, s_req_port, s_req_path,
  s_req_query_string_start, s_req_query_string, s_req_fragment_start, s_req_fragment,
  s_req_http_start, s_req_http_h, s_req_http_ht, s_req_http_htt, s_req_http_http,
  s_req_first_http_major, s_req_http_major, s_req_first_http_minor, s_req_http_minor,
  s_req_line_almost_done, s_header_field_start, s_header_field, s_header_value_start,
  s_header_value, s_header_value_lws, s_header_almost_done, s_chunk_size_start, s_chunk_size,
  s_chunk_parameters, s_chunk_size_almost_done, s_headers_almost_done, s_chunk_data,
  s_chunk_data_almost_done, s_chunk_data_done, s_body_identity, s_body_identity_eof, no_flags,
  Parser, http_max_header_size, Settings, parsing_header,
}
use projectmoo.Http.Url.{
  step_req_spaces_before_url, step_req_schema, step_req_schema_slash, step_req_schema_slash_slash,
  step_req_host, step_req_port, step_req_path, step_req_query_string_start, step_req_query_string,
  step_req_fragment_start, step_req_fragment,
}

-- `header_field_mark` at the start of a call
abbrev pub initial_header_field_mark : State → Option ℕ
initial_header_field_mark s_header_field = some 0
initial_header_field_mark _ = none

-- `header_value_mark` at the start of a call
abbrev pub initial_header_value_mark : State → Option ℕ
initial_header_value_mark s_header_value = some 0
initial_header_value_mark _ = none

-- `url_mark` at the start of a call
abbrev pub initial_url_mark : State → Option ℕ
initial_url_mark s_req_path = some 0
initial_url_mark s_req_schema = some 0
initial_url_mark s_req_schema_slash = some 0
initial_url_mark s_req_schema_slash_slash = some 0
initial_url_mark s_req_port = some 0
initial_url_mark s_req_query_string_start = some 0
initial_url_mark s_req_query_string = some 0
initial_url_mark s_req_host = some 0
initial_url_mark s_req_fragment_start = some 0
initial_url_mark s_req_fragment = some 0
initial_url_mark _ = none

-- The state that `http_parser_init` stores.
abbrev initial_state : ParserType → State
initial_state http_request = s_start_req
initial_state http_response = s_start_res
initial_state http_both = s_start_req_or_res

-- `http_parser_init`, on memory that holds anything
unfoldable pub http_parser_init : Parser → ParserType → Parser
http_parser_init q t = record q {
  type = t;
  state = initial_state t;
  nread = 0;
  upgrade = false;
  flags = no_flags;
  method = http_delete;
  http_errno = hpe_ok;
}

module _ {W : Type 0} where
  -- The locals at the start of a call.
  abbrev pub initial_frame : Parser → W → Frame W
  initial_frame q w = record {
    parser = q;
    world = w;
    state = q.state;
    header_state = q.header_state;
    index = q.index;
    nread = q.nread;
    header_field_mark = initial_header_field_mark q.state;
    header_value_mark = initial_header_value_mark q.state;
    url_mark = initial_url_mark q.state;
    p = 0;
  }

  -- `parser->state = state; parser->header_state = header_state; …`
  abbrev pub stored : Frame W → Parser
  stored k =
      let q = k.parser in
      record q {
        state = k.state;
        header_state = k.header_state;
        index = u8 k.index;
        nread = u32 k.nread;
      }

  -- `p++`, and the next round
  abbrev pub continue : (Frame W → Outcome W) → Flow W → Outcome W
  continue rest (next g) = rest (record g { p = g.p + 1 })
  continue rest (halt o) = o

  -- `return 0;` behind a callback
  abbrev pub return_zero : Flow W → Outcome W
  return_zero (next g) = returned g.parser g.world 0
  return_zero (halt o) = o

module _ {W : Type 0} (settings : Settings W) where
  -- `if (len == 0) switch (state)`
  unfoldable pub execute_eof : State → Parser → W → Outcome W
  unfolding notify
  execute_eof s_body_identity_eof q w =
      return_zero
        (notify settings.on_message_complete hpe_cb_message_complete (initial_frame q w) next)
  execute_eof s_dead q w = returned q w 0
  execute_eof s_start_req_or_res q w = returned q w 0
  execute_eof s_start_res q w = returned q w 0
  execute_eof s_start_req q w = returned q w 0
  execute_eof _ q w = returned (record q { http_errno = hpe_invalid_eof_state }) w 1

module _ {W : Type 0} (settings : Settings W) (input : Bytes) where
  -- `switch (state)`
  unfoldable pub step_in : State → ℕ → Frame W → Flow W
  step_in s_dead ch f = step_dead settings ch f
  step_in s_start_req_or_res ch f = step_start_req_or_res settings ch f
  step_in s_res_or_resp_h ch f = step_res_or_resp_h settings ch f
  step_in s_start_res ch f = step_start_res settings ch f
  step_in s_res_h ch f = step_res_h settings ch f
  step_in s_res_ht ch f = step_res_ht settings ch f
  step_in s_res_htt ch f = step_res_htt settings ch f
  step_in s_res_http ch f = step_res_http settings ch f
  step_in s_res_first_http_major ch f = step_res_first_http_major settings ch f
  step_in s_res_http_major ch f = step_res_http_major settings ch f
  step_in s_res_first_http_minor ch f = step_res_first_http_minor settings ch f
  step_in s_res_http_minor ch f = step_res_http_minor settings ch f
  step_in s_res_first_status_code ch f = step_res_first_status_code settings ch f
  step_in s_res_status_code ch f = step_res_status_code settings ch f
  step_in s_res_status ch f = step_res_status settings ch f
  step_in s_res_line_almost_done ch f = step_res_line_almost_done settings ch f
  step_in s_start_req ch f = step_start_req settings ch f
  step_in s_req_method ch f = step_req_method ch f
  step_in s_req_http_start ch f = step_req_http_start ch f
  step_in s_req_http_h ch f = step_req_http_h ch f
  step_in s_req_http_ht ch f = step_req_http_ht ch f
  step_in s_req_http_htt ch f = step_req_http_htt ch f
  step_in s_req_http_http ch f = step_req_http_http ch f
  step_in s_req_first_http_major ch f = step_req_first_http_major ch f
  step_in s_req_http_major ch f = step_req_http_major ch f
  step_in s_req_first_http_minor ch f = step_req_first_http_minor ch f
  step_in s_req_http_minor ch f = step_req_http_minor ch f
  step_in s_req_line_almost_done ch f = step_req_line_almost_done ch f
  step_in s_req_spaces_before_url ch f = step_req_spaces_before_url settings input ch f
  step_in s_req_schema ch f = step_req_schema settings input ch f
  step_in s_req_schema_slash ch f = step_req_schema_slash settings input ch f
  step_in s_req_schema_slash_slash ch f = step_req_schema_slash_slash settings input ch f
  step_in s_req_host ch f = step_req_host settings input ch f
  step_in s_req_port ch f = step_req_port settings input ch f
  step_in s_req_path ch f = step_req_path settings input ch f
  step_in s_req_query_string_start ch f = step_req_query_string_start settings input ch f
  step_in s_req_query_string ch f = step_req_query_string settings input ch f
  step_in s_req_fragment_start ch f = step_req_fragment_start settings input ch f
  step_in s_req_fragment ch f = step_req_fragment settings input ch f
  step_in s_header_field_start ch f = step_header_field_start settings input ch f
  step_in s_header_field ch f = step_header_field settings input ch f
  step_in s_header_value_start ch f = step_header_value_start settings input ch f
  step_in s_header_value ch f = step_header_value settings input ch f
  step_in s_header_value_lws ch f = step_header_value_lws settings input ch f
  step_in s_body_identity ch f = step_body_identity settings input ch f
  step_in s_body_identity_eof ch f = step_body_identity_eof settings input ch f
  step_in s_chunk_size_start ch f = step_chunk_size_start settings input ch f
  step_in s_chunk_size ch f = step_chunk_size settings input ch f
  step_in s_chunk_parameters ch f = step_chunk_parameters settings input ch f
  step_in s_chunk_size_almost_done ch f = step_chunk_size_almost_done settings input ch f
  step_in s_chunk_data ch f = step_chunk_data settings input ch f
  step_in s_chunk_data_almost_done ch f = step_chunk_data_almost_done settings input ch f
  step_in s_chunk_data_done ch f = step_chunk_data_done settings input ch f
  step_in s_header_almost_done ch f = step_header_almost_done ch f
  step_in s_headers_almost_done ch f = step_headers_almost_done settings ch f

  -- One round of the loop, on the byte `ch` at `p`: a byte of a header is counted first.
  unfoldable pub round : ℕ → Frame W → Flow W
  round ch f =
      let g = record f { nread = u64 (f.nread + 1) } in
      if parsing_header f.state
      then (if ltb http_max_header_size g.nread
          then fail hpe_header_overflow g
          else step_in f.state ch g)
      else step_in f.state ch f

  -- The stores behind the last callbacks, and `return len;`.
  unfoldable pub store : Flow W → Outcome W
  store (next k) = returned (stored k) k.world (length input)
  store (halt o) = o

  -- What follows the loop.
  unfoldable pub finish : Frame W → Outcome W
  unfolding callback_header_field callback_header_value callback_url store
  finish f = store (
      callback_header_field settings input f
        (λ g. callback_header_value settings input g (λ h. callback_url settings input h next)))

  -- `for (p = data, pe = data + len; p != pe; p++)`, on fuel
  unfoldable pub loop : ℕ → Frame W → Outcome W
  loop zero f = exhausted
  loop (suc fuel) f = elim (get_elem? input f.p) [
    | none ↦ finish f
    | some ch ↦ continue (loop fuel) (round ch f)
  ]

  -- The two rounds of the loop, as equations.
  pub loop_end :
      (fuel : ℕ) (f : Frame W) → get_elem? input f.p ≡ none → loop (suc fuel) f ≡ finish f
  unfolding loop
  loop_end fuel f e = rw (e, loop)

  pub loop_step :
      (fuel : ℕ) (f : Frame W) {ch : ℕ}
      → get_elem? input f.p ≡ some ch
      → loop (suc fuel) f ≡ continue (loop fuel) (round ch f)
  unfolding loop
  loop_step fuel f e = rw (e, loop)

  -- `http_parser_execute`
  unfoldable pub http_parser_execute : Parser → W → Outcome W
  http_parser_execute q w =
      if not (is_ok q.http_errno)
      then returned q w 0
      else if length input == 0
      then execute_eof settings q.state q w
      else loop (suc (length input)) (initial_frame q w)

module _ {W : Type 0} (settings : Settings W) where
  -- A call on no bytes tells the end of the stream.
  pub execute_nil :
      (q : Parser) (w : W)
      → q.http_errno ≡ hpe_ok
      → http_parser_execute settings [] q w ≡ execute_eof settings q.state q w
  unfolding http_parser_execute
  execute_nil q w ok = ground arith

  pub execute_loop :
      (input : Bytes) (q : Parser) (w : W)
      → q.http_errno ≡ hpe_ok
      → 0 < length input
      → http_parser_execute settings input q w
        ≡ loop settings input (suc (length input)) (initial_frame q w)
  unfolding http_parser_execute
  execute_loop input q w ok some_input = ground arith

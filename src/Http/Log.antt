-- ===== src/Http/Log.antt =====
-- A client that records the callbacks it gets, and `http_parser_execute` open to evaluation with
-- it: for tests and concrete inputs.
use projectmoo.Base.{true, none, some, List, [], ◌∷◌, ◌++◌, Bytes}
use projectmoo.Http.Body.{
  to_read, told, deliver, shorten, step_body_identity, step_body_identity_eof,
  step_chunk_size_start, step_chunk_size, step_chunk_parameters, step_chunk_size_almost_done,
  step_chunk_data, step_chunk_data_almost_done, step_chunk_data_done,
}
use projectmoo.Http.Chars.{
  tokens, unhex, normal_url_char, token, unhex_value, lower, is_alpha, is_num, is_alphanum,
  is_url_char, is_host_char,
}
use projectmoo.Http.Complete.{
  end_message, choose_body, after_headers, headers_answered, headers_complete,
  step_headers_almost_done,
}
use projectmoo.Http.Execute.{
  http_parser_init, execute_eof, step_in, round, store, finish, loop, http_parser_execute,
}
use projectmoo.Http.Frame.{
  Outcome, http_should_keep_alive, new_message, notify, report, callback_url, callback_header_field,
  callback_header_value,
}
use projectmoo.Http.Header.{
  header_flags, match_char, match_word, match_letter, field_char, value_char, first_value_char,
  step_header_almost_done, step_header_field_start, step_header_field, step_header_value_start,
  step_header_value, step_header_value_lws,
}
use projectmoo.Http.Methods.{method_strings}
use projectmoo.Http.Request.{
  step_start_req, other_method, match_method, step_req_method, step_req_http_start, step_req_http_h,
  step_req_http_ht, step_req_http_htt, step_req_http_http, step_req_first_http_major,
  step_req_http_major, step_req_first_http_minor, step_req_http_minor, step_req_line_almost_done,
}
use projectmoo.Http.Response.{
  step_dead, begin_message, start_req_method_assign, step_start_req_or_res, step_res_or_resp_h,
  step_start_res, step_res_h, step_res_ht, step_res_htt, step_res_http, step_res_first_http_major,
  step_res_http_major, step_res_first_http_minor, step_res_http_minor, step_res_first_status_code,
  step_res_status_code, step_res_status, step_res_line_almost_done,
}
use projectmoo.Http.Types.{
  http_request, http_both, http_patch, hpe_unknown, s_dead, h_connection, no_flags, Parser,
  Settings, state_code, parsing_header,
}
use projectmoo.Http.Url.{
  url_then_http, url_then_end, step_req_spaces_before_url, step_req_schema, step_req_schema_slash,
  step_req_schema_slash_slash, step_req_host, step_req_port, step_req_path,
  step_req_query_string_start, step_req_query_string, step_req_fragment_start, step_req_fragment,
}
use projectmoo.Http.Version.{first_major, next_major, first_minor, next_minor}

-- One call of a callback.
pub data Event : Type 0 where
  began headers_done completed : Event
  got_url got_field got_value got_body : Bytes → Event

-- Callbacks that record and return 0.
abbrev pub recording : Settings (List Event)
recording = record {
  on_message_begin = some (λ q w. (0, w ++ began ∷ []));
  on_url = some (λ q s w. (0, w ++ got_url s ∷ []));
  on_header_field = some (λ q s w. (0, w ++ got_field s ∷ []));
  on_header_value = some (λ q s w. (0, w ++ got_value s ∷ []));
  on_headers_complete = some (λ q w. (0, w ++ headers_done ∷ []));
  on_body = some (λ q s w. (0, w ++ got_body s ∷ []));
  on_message_complete = some (λ q w. (0, w ++ completed ∷ []));
}

-- Callbacks that record the events without bytes.
abbrev pub milestones : Settings (List Event)
milestones = record {
  on_message_begin = some (λ q w. (0, w ++ began ∷ []));
  on_url = none;
  on_header_field = none;
  on_header_value = none;
  on_headers_complete = some (λ q w. (0, w ++ headers_done ∷ []));
  on_body = none;
  on_message_complete = some (λ q w. (0, w ++ completed ∷ []));
}

-- No callback at all.
abbrev pub silent : Settings (Unit {0})
silent = record {
  on_message_begin = none;
  on_url = none;
  on_header_field = none;
  on_header_value = none;
  on_headers_complete = none;
  on_body = none;
  on_message_complete = none;
}

-- A parser before `http_parser_init`, with something in every field.
abbrev pub raw_memory : Parser
raw_memory = record {
  type = http_both;
  flags = no_flags;
  state = s_dead;
  header_state = h_connection;
  index = 255;
  nread = 77;
  content_length = 5;
  http_major = 0;
  http_minor = 0;
  status_code = 0;
  method = http_patch;
  http_errno = hpe_unknown;
  upgrade = true;
}

-- A parser for a server's connection.
unfoldable pub fresh_request : Parser
unfolding http_parser_init
fresh_request = http_parser_init raw_memory http_request

-- `http_parser_execute`, open down to the character tables
unfoldable pub run : {W : Type 0} → Settings W → Bytes → Parser → W → Outcome W
unfolding tokens unhex normal_url_char token unhex_value lower is_alpha is_num is_alphanum
    is_url_char is_host_char method_strings http_should_keep_alive new_message notify report
    callback_url callback_header_field callback_header_value first_major next_major first_minor
    next_minor step_dead begin_message start_req_method_assign step_start_req_or_res
    step_res_or_resp_h step_start_res step_res_h step_res_ht step_res_htt step_res_http
    step_res_first_http_major step_res_http_major step_res_first_http_minor step_res_http_minor
    step_res_first_status_code step_res_status_code step_res_status step_res_line_almost_done
    url_then_http url_then_end step_req_spaces_before_url step_req_schema step_req_schema_slash
    step_req_schema_slash_slash step_req_host step_req_port step_req_path
    step_req_query_string_start step_req_query_string step_req_fragment_start step_req_fragment
    step_start_req other_method match_method step_req_method step_req_http_start step_req_http_h
    step_req_http_ht step_req_http_htt step_req_http_http step_req_first_http_major
    step_req_http_major step_req_first_http_minor step_req_http_minor step_req_line_almost_done
    end_message choose_body after_headers headers_answered headers_complete step_headers_almost_done
    header_flags match_char match_word match_letter field_char value_char first_value_char
    step_header_almost_done step_header_field_start step_header_field step_header_value_start
    step_header_value step_header_value_lws to_read told deliver shorten step_body_identity
    step_body_identity_eof step_chunk_size_start step_chunk_size step_chunk_parameters
    step_chunk_size_almost_done step_chunk_data step_chunk_data_almost_done step_chunk_data_done
    execute_eof step_in round store finish loop http_parser_execute state_code parsing_header
run settings input = http_parser_execute settings input

-- ===== src/Http/Types.antt =====
-- The data of http-parser/http_parser.h and the enums of http_parser.c. The values that the
-- source's `#define`s and enums give to names are kept by `state_code`.
use projectmoo.Base.{ℕ, ◌*◌, Bool, false, Option, Bytes, leb}

-- `enum http_parser_type`
pub data ParserType : Type 0 where
  http_request http_response http_both : ParserType

-- `enum http_method`
pub data Method : Type 0 where
  http_delete http_get http_head http_post http_put : Method
  http_connect http_options http_trace : Method
  http_copy http_lock http_mkcol http_move http_propfind http_proppatch http_unlock : Method
  http_report http_mkactivity http_checkout http_merge : Method
  http_msearch http_notify http_subscribe http_unsubscribe : Method
  http_patch : Method

-- `enum http_errno`
pub data Errno : Type 0 where
  hpe_ok : Errno
  hpe_cb_message_begin hpe_cb_path hpe_cb_query_string hpe_cb_url hpe_cb_fragment : Errno
  hpe_cb_header_field hpe_cb_header_value hpe_cb_headers_complete hpe_cb_body : Errno
  hpe_cb_message_complete : Errno
  hpe_invalid_eof_state hpe_header_overflow hpe_closed_connection hpe_invalid_version : Errno
  hpe_invalid_status hpe_invalid_method hpe_invalid_url hpe_invalid_host hpe_invalid_port : Errno
  hpe_invalid_path hpe_invalid_query_string hpe_invalid_fragment hpe_lf_expected : Errno
  hpe_invalid_header_token hpe_invalid_content_length hpe_invalid_chunk_size : Errno
  hpe_invalid_constant hpe_invalid_internal_state hpe_strict hpe_unknown : Errno

-- `enum state`
pub data State : Type 0 where
  s_dead : State
  s_start_req_or_res s_res_or_resp_h s_start_res s_res_h s_res_ht s_res_htt s_res_http : State
  s_res_first_http_major s_res_http_major s_res_first_http_minor s_res_http_minor : State
  s_res_first_status_code s_res_status_code s_res_status s_res_line_almost_done : State
  s_start_req : State
  s_req_method s_req_spaces_before_url s_req_schema s_req_schema_slash : State
  s_req_schema_slash_slash s_req_host s_req_port s_req_path s_req_query_string_start : State
  s_req_query_string s_req_fragment_start s_req_fragment s_req_http_start s_req_http_h : State
  s_req_http_ht s_req_http_htt s_req_http_http s_req_first_http_major s_req_http_major : State
  s_req_first_http_minor s_req_http_minor s_req_line_almost_done : State
  s_header_field_start s_header_field s_header_value_start s_header_value : State
  s_header_value_lws s_header_almost_done : State
  s_chunk_size_start s_chunk_size s_chunk_parameters s_chunk_size_almost_done : State
  s_headers_almost_done : State
  s_chunk_data s_chunk_data_almost_done s_chunk_data_done : State
  s_body_identity s_body_identity_eof : State

-- `enum header_states`
pub data HeaderState : Type 0 where
  h_general h_c h_co h_con : HeaderState
  h_matching_connection h_matching_proxy_connection h_matching_content_length : HeaderState
  h_matching_transfer_encoding h_matching_upgrade : HeaderState
  h_connection h_content_length h_transfer_encoding h_upgrade : HeaderState
  h_matching_transfer_encoding_chunked h_matching_connection_keep_alive : HeaderState
  h_matching_connection_close : HeaderState
  h_transfer_encoding_chunked h_connection_keep_alive h_connection_close : HeaderState

-- The bits of `enum flags`, one Boolean each.
pub record Flags : Type 0 where
  pub chunked : Bool
  pub connection_keep_alive : Bool
  pub connection_close : Bool
  pub trailing : Bool
  pub upgrading : Bool
  pub skipbody : Bool

-- `parser->flags = 0`
abbrev pub no_flags : Flags
no_flags = record {
  chunked = false;
  connection_keep_alive = false;
  connection_close = false;
  trailing = false;
  upgrading = false;
  skipbody = false;
}

-- `struct http_parser`, less the client's pointer `data`. `content_length` is the bit pattern of
-- an int64_t: a number below 2 ^ 64.
pub record Parser : Type 0 where
  pub type : ParserType
  pub flags : Flags
  pub state : State
  pub header_state : HeaderState
  pub index : ℕ  -- unsigned char
  pub nread : ℕ  -- uint32_t
  pub content_length : ℕ  -- int64_t
  pub http_major : ℕ  -- unsigned short
  pub http_minor : ℕ  -- unsigned short
  pub status_code : ℕ  -- unsigned short
  pub method : Method
  pub http_errno : Errno
  pub upgrade : Bool

-- `HTTP_MAX_HEADER_SIZE`
abbrev pub http_max_header_size : ℕ
http_max_header_size = 80 * 1024

-- `struct http_parser_settings`. `W` is what the client's callbacks read and write; `none` is the
-- null pointer. A result is read as 0, 1 or any other value, so a negative one is some number
-- above 1.
pub record Settings (W : Type 0) : Type 0 where
  pub on_message_begin : Option (Parser → W → ℕ × W)
  pub on_url : Option (Parser → Bytes → W → ℕ × W)
  pub on_header_field : Option (Parser → Bytes → W → ℕ × W)
  pub on_header_value : Option (Parser → Bytes → W → ℕ × W)
  pub on_headers_complete : Option (Parser → W → ℕ × W)
  pub on_body : Option (Parser → Bytes → W → ℕ × W)
  pub on_message_complete : Option (Parser → W → ℕ × W)

-- The values of `enum state`, by which `PARSING_HEADER` compares.
unfoldable pub state_code : State → ℕ
state_code s_dead = 1
state_code s_start_req_or_res = 2
state_code s_res_or_resp_h = 3
state_code s_start_res = 4
state_code s_res_h = 5
state_code s_res_ht = 6
state_code s_res_htt = 7
state_code s_res_http = 8
state_code s_res_first_http_major = 9
state_code s_res_http_major = 10
state_code s_res_first_http_minor = 11
state_code s_res_http_minor = 12
state_code s_res_first_status_code = 13
state_code s_res_status_code = 14
state_code s_res_status = 15
state_code s_res_line_almost_done = 16
state_code s_start_req = 17
state_code s_req_method = 18
state_code s_req_spaces_before_url = 19
state_code s_req_schema = 20
state_code s_req_schema_slash = 21
state_code s_req_schema_slash_slash = 22
state_code s_req_host = 23
state_code s_req_port = 24
state_code s_req_path = 25
state_code s_req_query_string_start = 26
state_code s_req_query_string = 27
state_code s_req_fragment_start = 28
state_code s_req_fragment = 29
state_code s_req_http_start = 30
state_code s_req_http_h = 31
state_code s_req_http_ht = 32
state_code s_req_http_htt = 33
state_code s_req_http_http = 34
state_code s_req_first_http_major = 35
state_code s_req_http_major = 36
state_code s_req_first_http_minor = 37
state_code s_req_http_minor = 38
state_code s_req_line_almost_done = 39
state_code s_header_field_start = 40
state_code s_header_field = 41
state_code s_header_value_start = 42
state_code s_header_value = 43
state_code s_header_value_lws = 44
state_code s_header_almost_done = 45
state_code s_chunk_size_start = 46
state_code s_chunk_size = 47
state_code s_chunk_parameters = 48
state_code s_chunk_size_almost_done = 49
state_code s_headers_almost_done = 50
state_code s_chunk_data = 51
state_code s_chunk_data_almost_done = 52
state_code s_chunk_data_done = 53
state_code s_body_identity = 54
state_code s_body_identity_eof = 55

-- `PARSING_HEADER(state)`
unfoldable pub parsing_header : State → Bool
unfolding state_code
parsing_header s = leb (state_code s) (state_code s_headers_almost_done)

-- ===== src/Http/Invariant.antt =====
-- What holds of the variables of `http_parser_execute` (http_parser.c) at the head of its loop, and
-- the lemmas on its macros. A child module for each file of states is about their steps.
pub mod Execute
pub mod Calls
mod Response
mod Request
mod Header
mod Version
mod Body
mod Url
use projectmoo.Base.{
  ℕ, ◌-◌, ◌≤◌, ◌<◌, ◌≡◌, refl, ◌≢◌, ◌⊎◌, Bool, true, false, Option, none, some, arith, Bytes,
  length, take, drop, ltb, leb, ◌==◌,
}
use projectmoo.Http.Complete.{end_message}
use projectmoo.Http.Frame.{
  Frame, returned, fault, exhausted, Flow, next, halt, is_ok, new_message, goto, notify, report,
}
use projectmoo.Http.Methods.{method_strings}
use projectmoo.Http.Types.{
  Errno, hpe_ok, hpe_cb_message_complete, State, s_res_http_major, s_res_http_minor,
  s_res_status_code, s_req_method, s_req_schema, s_req_schema_slash, s_req_schema_slash_slash,
  s_req_host, s_req_port, s_req_path, s_req_query_string_start, s_req_query_string,
  s_req_fragment_start, s_req_fragment, s_req_http_major, s_req_http_minor, s_header_field,
  s_header_value, s_chunk_size_start, s_chunk_size, s_chunk_parameters, s_chunk_size_almost_done,
  s_chunk_data, s_chunk_data_almost_done, s_chunk_data_done, s_body_identity, HeaderState,
  h_general, h_c, h_co, h_con, h_matching_connection, h_matching_proxy_connection,
  h_matching_content_length, h_matching_transfer_encoding, h_matching_upgrade, h_connection,
  h_content_length, h_transfer_encoding, h_upgrade, h_matching_transfer_encoding_chunked,
  h_matching_connection_keep_alive, h_matching_connection_close, h_transfer_encoding_chunked,
  h_connection_keep_alive, h_connection_close, Parser, http_max_header_size, Settings,
}

-- The header states that case s_header_field may meet, each with the indices it may have.
abbrev pub field_fits : HeaderState → ℕ → Bool
field_fits h_general i = true
field_fits h_c i = i == 0
field_fits h_co i = i == 1
field_fits h_con i = i == 2
field_fits h_matching_connection i = ltb i 9
field_fits h_matching_proxy_connection i = ltb i 15
field_fits h_matching_content_length i = ltb i 13
field_fits h_matching_transfer_encoding i = ltb i 16
field_fits h_matching_upgrade i = ltb i 6
field_fits h_connection i = true
field_fits h_content_length i = true
field_fits h_transfer_encoding i = true
field_fits h_upgrade i = true
field_fits _ i = false

-- The header states that case s_header_value may meet.
abbrev pub value_fits : HeaderState → ℕ → Bool
value_fits h_general i = true
value_fits h_content_length i = true
value_fits h_matching_transfer_encoding_chunked i = ltb i 6
value_fits h_matching_connection_keep_alive i = ltb i 9
value_fits h_matching_connection_close i = ltb i 4
value_fits h_transfer_encoding_chunked i = true
value_fits h_connection_keep_alive i = true
value_fits h_connection_close i = true
value_fits _ i = false

-- The states that assert F_CHUNKED.
abbrev pub in_chunks : State → Bool
in_chunks s_chunk_size_start = true
in_chunks s_chunk_size = true
in_chunks s_chunk_parameters = true
in_chunks s_chunk_size_almost_done = true
in_chunks s_chunk_data = true
in_chunks s_chunk_data_almost_done = true
in_chunks s_chunk_data_done = true
in_chunks _ = false

-- The states between a chunk's size and the next one's, in which no byte is counted.
abbrev pub in_chunk_data : State → Bool
in_chunk_data s_chunk_data = true
in_chunk_data s_chunk_data_almost_done = true
in_chunk_data s_chunk_data_done = true
in_chunk_data _ = false

abbrev pub in_major : State → Bool
in_major s_res_http_major = true
in_major s_req_http_major = true
in_major _ = false

abbrev pub in_minor : State → Bool
in_minor s_res_http_minor = true
in_minor s_req_http_minor = true
in_minor _ = false

-- The states within a URL.
abbrev pub in_url : State → Bool
in_url s_req_schema = true
in_url s_req_schema_slash = true
in_url s_req_schema_slash_slash = true
in_url s_req_host = true
in_url s_req_port = true
in_url s_req_path = true
in_url s_req_query_string_start = true
in_url s_req_query_string = true
in_url s_req_fragment_start = true
in_url s_req_fragment = true
in_url _ = false

abbrev pub is_marked : Option ℕ → Bool
is_marked none = false
is_marked (some m) = true

-- A mark, if there is one, is not behind `p`.
abbrev pub mark_before : Option ℕ → ℕ → Bool
mark_before none p = true
mark_before (some m) p = leb m p

-- `k` header bytes have been counted when s_chunk_size_start is entered: 0 at the head of the
-- loop, and 1 in the switch.
pub record Inv {W : Type 0} (k : ℕ) (f : Frame W) : Type 0 where
  pub no_error : f.parser.http_errno ≡ hpe_ok
  pub no_upgrade : f.parser.upgrade ≡ false
  pub nread_capped : f.nread ≤ http_max_header_size
  pub index_small : f.index < 256
  pub word : f.parser.content_length < 18446744073709551616
  pub major_capped : in_major f.state ≡ true → f.parser.http_major ≤ 999
  pub minor_capped : in_minor f.state ≡ true → f.parser.http_minor ≤ 999
  pub status_capped : f.state ≡ s_res_status_code → f.parser.status_code ≤ 999
  pub url_marked : in_url f.state ≡ true → is_marked f.url_mark ≡ true
  pub field_marked : f.state ≡ s_header_field → is_marked f.header_field_mark ≡ true
  pub value_marked : f.state ≡ s_header_value → is_marked f.header_value_mark ≡ true
  pub url_before : mark_before f.url_mark f.p ≡ true
  pub field_before : mark_before f.header_field_mark f.p ≡ true
  pub value_before : mark_before f.header_value_mark f.p ≡ true
  pub method_index : f.state ≡ s_req_method → f.index ≤ length (method_strings f.parser.method)
  pub field : f.state ≡ s_header_field → field_fits f.header_state f.index ≡ true
  pub value : f.state ≡ s_header_value → value_fits f.header_state f.index ≡ true
  pub chunks : in_chunks f.state ≡ true → f.parser.flags.chunked ≡ true
  pub chunk_start : f.state ≡ s_chunk_size_start → f.nread ≡ k
  pub chunk_body : in_chunk_data f.state ≡ true → f.nread ≡ 0
  pub body_left :
      f.state ≡ s_body_identity
      → (0 < f.parser.content_length) × (f.parser.content_length < 9223372036854775808)

-- What a round that starts at offset `p` of `len` bytes may come to: the invariant again, at an
-- offset in range; or a return from there, with an error or an upgrade.
abbrev pub Sound : {W : Type 0} → ℕ → ℕ → Flow W → Type 0
Sound len p (next g) = Inv 0 g × (p ≤ g.p) × (g.p < len)
Sound len p (halt (returned q w n)) =
    (p ≤ n) × (n ≤ len) × ((q.http_errno ≢ hpe_ok) ⊎ (q.upgrade ≡ true))
Sound len p (halt fault) = ⊥
Sound len p (halt exhausted) = ⊥

-- What holds in every state.
pub record Calm {W : Type 0} (f : Frame W) : Type 0 where
  pub no_error : f.parser.http_errno ≡ hpe_ok
  pub no_upgrade : f.parser.upgrade ≡ false
  pub nread_capped : f.nread ≤ http_max_header_size
  pub index_small : f.index < 256
  pub word : f.parser.content_length < 18446744073709551616
  pub url_before : mark_before f.url_mark f.p ≡ true
  pub field_before : mark_before f.header_field_mark f.p ≡ true
  pub value_before : mark_before f.header_value_mark f.p ≡ true

module _ {W : Type 0} (len : ℕ) {start : ℕ} where
  -- A callback between two sound pieces of code.
  pub notify-Sound :
      (cb : Option (Parser → W → ℕ × W)) (e : Errno) (f : Frame W) (rest : Frame W → Flow W)
      → is_ok e ≡ false
      → start ≤ f.p
      → f.p < len
      → ((w : W) → Sound len start (rest (record f { world = w })))
      → Sound len start (notify cb e f rest)
  unfolding notify
  notify-Sound none e f rest bad after within h = h f.world
  notify-Sound (some cb) e f rest bad after within h = ground (arith, h (cb f.parser f.world).1)

  pub report-Sound :
      (cb : Option (Parser → Bytes → W → ℕ × W)) (input : Bytes) (mark : Option ℕ) (e : Errno)
      (f : Frame W) (rest : Frame W → Flow W)
      → is_ok e ≡ false
      → start ≤ f.p
      → f.p < len
      → ((w : W) → Sound len start (rest (record f { world = w })))
      → Sound len start (report cb input mark e f rest)
  unfolding report
  report-Sound cb input none e f rest bad after within h = h f.world
  report-Sound none input (some m) e f rest bad after within h = h f.world
  report-Sound (some cb) input (some m) e f rest bad after within h =
      ground (arith, h (cb f.parser (take (f.p - m) (drop m input)) f.world).1)

  -- A message's end leads to a start state, or to s_dead.
  pub end_message-Sound :
      (settings : Settings W) (f : Frame W)
      → Calm f
      → start ≤ f.p
      → f.p < len
      → Sound len start (end_message settings f)
  unfolding end_message new_message
  end_message-Sound settings f h after within =
      notify-Sound settings.on_message_complete hpe_cb_message_complete f
        (λ g. goto (new_message g.parser) g) refl after within (λ w. ground arith)

-- ===== src/Http/Invariant/Execute.antt =====
-- The loop of `http_parser_execute` (http_parser.c) and the invariant.
use native.Mathlib.Nat.{le_refl}
use projectmoo.Base.{
  ℕ, ◌+◌, ◌≤◌, ◌<◌, ◌≡◌, refl, ◌≢◌, ◌⊎◌, inl, inr, true, false, arith, Bytes, length, ltb,
  Bool-cases,
}
use projectmoo.Http.Execute.{
  initial_header_field_mark, initial_header_value_mark, initial_url_mark, initial_frame, step_in,
  round,
}
use projectmoo.Http.Frame.{Frame, Outcome, returned, fault, exhausted, u64}
use projectmoo.Http.Invariant.{in_chunk_data, in_url, is_marked, mark_before, Inv, Sound, Calm}
use projectmoo.Http.Invariant.Body.{
  step_chunk_size_start-Sound, step_chunk_size-Sound, step_chunk_parameters-Sound,
  step_chunk_size_almost_done-Sound, step_chunk_data_almost_done-Sound, step_chunk_data_done-Sound,
  step_body_identity_eof-Sound, step_chunk_data-Sound, step_body_identity-Sound,
}
use projectmoo.Http.Invariant.Header.{
  step_header_almost_done-Sound, step_headers_almost_done-Sound, step_header_field_start-Sound,
  step_header_value_lws-Sound, step_header_field-Sound, step_header_value_start-Sound,
  step_header_value-Sound,
}
use projectmoo.Http.Invariant.Request.{
  step_start_req-Sound, step_start_req_or_res-Sound, step_start_res-Sound, step_req_method-Sound,
}
use projectmoo.Http.Invariant.Response.{
  step_dead-Sound, step_res_or_resp_h-Sound, step_res_h-Sound, step_res_ht-Sound,
  step_res_htt-Sound, step_res_http-Sound, step_res_first_http_major-Sound,
  step_res_http_major-Sound, step_res_first_http_minor-Sound, step_res_http_minor-Sound,
  step_res_first_status_code-Sound, step_res_status_code-Sound, step_res_status-Sound,
  step_res_line_almost_done-Sound,
}
use projectmoo.Http.Invariant.Url.{
  step_req_spaces_before_url-Sound, step_req_schema-Sound, step_req_schema_slash-Sound,
  step_req_schema_slash_slash-Sound, step_req_host-Sound, step_req_port-Sound, step_req_path-Sound,
  step_req_query_string_start-Sound, step_req_query_string-Sound, step_req_fragment_start-Sound,
  step_req_fragment-Sound,
}
use projectmoo.Http.Invariant.Version.{
  step_req_http_start-Sound, step_req_http_h-Sound, step_req_http_ht-Sound, step_req_http_htt-Sound,
  step_req_http_http-Sound, step_req_first_http_major-Sound, step_req_http_major-Sound,
  step_req_first_http_minor-Sound, step_req_http_minor-Sound, step_req_line_almost_done-Sound,
}
use projectmoo.Http.Types.{
  hpe_ok, State, s_dead, s_start_req_or_res, s_res_or_resp_h, s_start_res, s_res_h, s_res_ht,
  s_res_htt, s_res_http, s_res_first_http_major, s_res_http_major, s_res_first_http_minor,
  s_res_http_minor, s_res_first_status_code, s_res_status_code, s_res_status,
  s_res_line_almost_done, s_start_req, s_req_method, s_req_spaces_before_url, s_req_schema,
  s_req_schema_slash, s_req_schema_slash_slash, s_req_host, s_req_port, s_req_path,
  s_req_query_string_start, s_req_query_string, s_req_fragment_start, s_req_fragment,
  s_req_http_start, s_req_http_h, s_req_http_ht, s_req_http_htt, s_req_http_http,
  s_req_first_http_major, s_req_http_major, s_req_first_http_minor, s_req_http_minor,
  s_req_line_almost_done, s_header_field_start, s_header_field, s_header_value_start,
  s_header_value, s_header_value_lws, s_header_almost_done, s_chunk_size_start, s_chunk_size,
  s_chunk_parameters, s_chunk_size_almost_done, s_headers_almost_done, s_chunk_data,
  s_chunk_data_almost_done, s_chunk_data_done, s_body_identity, s_body_identity_eof, Parser,
  http_max_header_size, Settings, state_code, parsing_header,
}

-- What holds of a parser between two calls: the invariant, of the locals that a call would start with.
abbrev pub Ready : Parser → Type 0
Ready q = Inv {W = Unit {0}} 0 (initial_frame q tt)

-- How a call on `len` bytes may end: in an error or an upgrade, at some byte; or with all bytes
-- read and a parser that is ready for more.
abbrev pub Settled : {W : Type 0} → ℕ → Outcome W → Type 0
Settled len (returned q w n) =
    (n ≤ len) × (((q.http_errno ≢ hpe_ok) ⊎ (q.upgrade ≡ true)) ⊎ ((n ≡ len) × Ready q))
Settled len fault = ⊥
Settled len exhausted = ⊥

calm : {W : Type 0} (f : Frame W) {k : ℕ} → Inv k f → Calm f
calm f h = ground arith

pub initial_url_mark_marked : (s : State) → in_url s ≡ true → is_marked (initial_url_mark s) ≡ true
initial_url_mark_marked s_req_path h = refl
initial_url_mark_marked _ h = ground arith

pub initial_url_mark_before : (s : State) → mark_before (initial_url_mark s) 0 ≡ true
initial_url_mark_before s_req_path = refl
initial_url_mark_before _ = refl

pub initial_header_field_mark_before :
    (s : State) → mark_before (initial_header_field_mark s) 0 ≡ true
initial_header_field_mark_before s_header_field = refl
initial_header_field_mark_before _ = refl

pub initial_header_value_mark_before :
    (s : State) → mark_before (initial_header_value_mark s) 0 ≡ true
initial_header_value_mark_before s_header_value = refl
initial_header_value_mark_before _ = refl

-- A round counts a byte exactly in the states of a header.
parsing_header_facts :
    (s : State)
    → (parsing_header s ≡ true → in_chunk_data s ≡ false)
      × (parsing_header s ≡ false → (s ≡ s_chunk_size_start → ⊥))
unfolding parsing_header state_code
parsing_header_facts s_dead = ground arith
parsing_header_facts _ = ground arith

module _ {W : Type 0} (settings : Settings W) (input : Bytes) where
  step_in-Sound :
      (s : State) (ch : ℕ) (f : Frame W)
      → Inv 1 f
      → f.p < length input
      → f.state ≡ s
      → Sound (length input) f.p (step_in settings input s ch f)
  unfolding step_in
  step_in-Sound s_res_or_resp_h ch f h within at =
      step_res_or_resp_h-Sound settings input ch f h within at
  step_in-Sound s_res_h ch f h within at = step_res_h-Sound settings input ch f h within at
  step_in-Sound s_res_ht ch f h within at = step_res_ht-Sound settings input ch f h within at
  step_in-Sound s_res_htt ch f h within at = step_res_htt-Sound settings input ch f h within at
  step_in-Sound s_res_http ch f h within at = step_res_http-Sound settings input ch f h within at
  step_in-Sound s_res_first_http_major ch f h within at =
      step_res_first_http_major-Sound settings input ch f h within at
  step_in-Sound s_res_http_major ch f h within at =
      step_res_http_major-Sound settings input ch f h within at
  step_in-Sound s_res_first_http_minor ch f h within at =
      step_res_first_http_minor-Sound settings input ch f h within at
  step_in-Sound s_res_http_minor ch f h within at =
      step_res_http_minor-Sound settings input ch f h within at
  step_in-Sound s_res_first_status_code ch f h within at =
      step_res_first_status_code-Sound settings input ch f h within at
  step_in-Sound s_res_status_code ch f h within at =
      step_res_status_code-Sound settings input ch f h within at
  step_in-Sound s_res_status ch f h within at =
      step_res_status-Sound settings input ch f h within at
  step_in-Sound s_res_line_almost_done ch f h within at =
      step_res_line_almost_done-Sound settings input ch f h within at
  step_in-Sound s_dead ch f h within at = step_dead-Sound settings input ch f h within at
  step_in-Sound s_start_req_or_res ch f h within at =
      step_start_req_or_res-Sound settings (length input) ch f h within at
  step_in-Sound s_start_res ch f h within at =
      step_start_res-Sound settings (length input) ch f h within at
  step_in-Sound s_start_req ch f h within at =
      step_start_req-Sound settings (length input) ch f h within at
  step_in-Sound s_req_method ch f h within at =
      step_req_method-Sound settings (length input) ch f h within at
  step_in-Sound s_req_http_start ch f h within at =
      step_req_http_start-Sound settings input ch f h within at
  step_in-Sound s_req_http_h ch f h within at =
      step_req_http_h-Sound settings input ch f h within at
  step_in-Sound s_req_http_ht ch f h within at =
      step_req_http_ht-Sound settings input ch f h within at
  step_in-Sound s_req_http_htt ch f h within at =
      step_req_http_htt-Sound settings input ch f h within at
  step_in-Sound s_req_http_http ch f h within at =
      step_req_http_http-Sound settings input ch f h within at
  step_in-Sound s_req_first_http_major ch f h within at =
      step_req_first_http_major-Sound settings input ch f h within at
  step_in-Sound s_req_http_major ch f h within at =
      step_req_http_major-Sound settings input ch f h within at
  step_in-Sound s_req_first_http_minor ch f h within at =
      step_req_first_http_minor-Sound settings input ch f h within at
  step_in-Sound s_req_http_minor ch f h within at =
      step_req_http_minor-Sound settings input ch f h within at
  step_in-Sound s_req_line_almost_done ch f h within at =
      step_req_line_almost_done-Sound settings input ch f h within at
  step_in-Sound s_req_spaces_before_url ch f h within at =
      step_req_spaces_before_url-Sound settings input ch f h within at
  step_in-Sound s_req_schema ch f h within at =
      step_req_schema-Sound settings input ch f h within at
  step_in-Sound s_req_schema_slash ch f h within at =
      step_req_schema_slash-Sound settings input ch f h within at
  step_in-Sound s_req_schema_slash_slash ch f h within at =
      step_req_schema_slash_slash-Sound settings input ch f h within at
  step_in-Sound s_req_host ch f h within at = step_req_host-Sound settings input ch f h within at
  step_in-Sound s_req_port ch f h within at = step_req_port-Sound settings input ch f h within at
  step_in-Sound s_req_path ch f h within at = step_req_path-Sound settings input ch f h within at
  step_in-Sound s_req_query_string_start ch f h within at =
      step_req_query_string_start-Sound settings input ch f h within at
  step_in-Sound s_req_query_string ch f h within at =
      step_req_query_string-Sound settings input ch f h within at
  step_in-Sound s_req_fragment_start ch f h within at =
      step_req_fragment_start-Sound settings input ch f h within at
  step_in-Sound s_req_fragment ch f h within at =
      step_req_fragment-Sound settings input ch f h within at
  step_in-Sound s_header_field ch f h within at =
      step_header_field-Sound settings input ch f h within at
  step_in-Sound s_header_value_start ch f h within at =
      step_header_value_start-Sound settings input ch f h within at
  step_in-Sound s_header_value ch f h within at =
      step_header_value-Sound settings input ch f h within at
  step_in-Sound s_header_value_lws ch f h within at =
      step_header_value_lws-Sound settings input ch f h within at
  step_in-Sound s_body_identity ch f h within at =
      step_body_identity-Sound settings input ch f h within at
  step_in-Sound s_body_identity_eof ch f h within at =
      step_body_identity_eof-Sound settings input ch f h within at
  step_in-Sound s_chunk_size_start ch f h within at =
      step_chunk_size_start-Sound settings input ch f h within at
  step_in-Sound s_chunk_size ch f h within at =
      step_chunk_size-Sound settings input ch f h within at
  step_in-Sound s_chunk_parameters ch f h within at =
      step_chunk_parameters-Sound settings input ch f h within at
  step_in-Sound s_chunk_size_almost_done ch f h within at =
      step_chunk_size_almost_done-Sound settings input ch f h within at
  step_in-Sound s_chunk_data ch f h within at =
      step_chunk_data-Sound settings input ch f h within at
  step_in-Sound s_chunk_data_almost_done ch f h within at =
      step_chunk_data_almost_done-Sound settings input ch f h within at
  step_in-Sound s_chunk_data_done ch f h within at =
      step_chunk_data_done-Sound settings input ch f h within at
  step_in-Sound s_header_field_start ch f h within at =
      step_header_field_start-Sound settings input ch f (calm f h) within
  step_in-Sound s_header_almost_done ch f h within at =
      step_header_almost_done-Sound (length input) ch f (calm f h) (le_refl f.p) within
  step_in-Sound s_headers_almost_done ch f h within at =
      step_headers_almost_done-Sound settings (length input) ch f (calm f h) within

  counted-Inv :
      (f : Frame W)
      → Inv 0 f
      → parsing_header f.state ≡ true
      → f.nread < http_max_header_size
      → Inv 1 (record f { nread = u64 (f.nread + 1) })
  counted-Inv f h e few = ground (arith, parsing_header_facts f.state)

  uncounted-Inv : (f : Frame W) → Inv 0 f → parsing_header f.state ≡ false → Inv 1 f
  uncounted-Inv f h e = ground (arith, parsing_header_facts f.state)

  pub round-Sound :
      (ch : ℕ) (f : Frame W)
      → Inv 0 f
      → f.p < length input
      → Sound (length input) f.p (round settings input ch f)
  unfolding round
  round-Sound ch f h within = elim (Bool-cases (parsing_header f.state)) [
    | inl e ↦ elim (Bool-cases (ltb f.nread http_max_header_size)) [
      | inl few ↦ ground (
        arith,
        step_in-Sound f.state ch (record f { nread = u64 (f.nread + 1) })
            (counted-Inv f h e (ground arith)) within refl,
      )
      | inr many ↦ ground arith
    ]
    | inr e ↦ ground (arith, step_in-Sound f.state ch f (uncounted-Inv f h e) within refl)
  ]

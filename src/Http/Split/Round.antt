-- ===== src/Http/Split/Round.antt =====
-- http_parser.c: the switch and one round of the loop, at a byte that is read alone.
use projectmoo.Base.{
  ℕ, ◌+◌, ◌-◌, ◌<◌, ◌≡◌, ap, Bool, false, not, ◌&&◌, [], ◌∷◌, arith, Bytes, length, ltb,
}
use projectmoo.Http.Body.{to_read}
use projectmoo.Http.Execute.{step_in, round}
use projectmoo.Http.Frame.{Frame, u64, is_negative}
use projectmoo.Http.Split.{IsQuiet, Alike, SameFlow}
use projectmoo.Http.Split.Body.{
  step_chunk_size_start-SameFlow, step_chunk_size-SameFlow, step_chunk_parameters-SameFlow,
  step_chunk_size_almost_done-SameFlow, step_chunk_data_almost_done-SameFlow,
  step_chunk_data_done-SameFlow, step_body_identity_eof-SameFlow, step_chunk_data-SameFlow,
  step_body_identity-SameFlow,
}
use projectmoo.Http.Split.Header.{
  step_header_almost_done-SameFlow, step_headers_almost_done-SameFlow,
  step_header_field_start-SameFlow, step_header_value_lws-SameFlow, step_header_field-SameFlow,
  step_header_value_start-SameFlow, step_header_value-SameFlow,
}
use projectmoo.Http.Split.Request.{
  step_start_req-SameFlow, step_start_req_or_res-SameFlow, step_start_res-SameFlow,
  step_req_method-SameFlow,
}
use projectmoo.Http.Split.Response.{
  step_dead-SameFlow, step_res_or_resp_h-SameFlow, step_res_h-SameFlow, step_res_ht-SameFlow,
  step_res_htt-SameFlow, step_res_http-SameFlow, step_res_first_http_major-SameFlow,
  step_res_http_major-SameFlow, step_res_first_http_minor-SameFlow, step_res_http_minor-SameFlow,
  step_res_first_status_code-SameFlow, step_res_status_code-SameFlow, step_res_status-SameFlow,
  step_res_line_almost_done-SameFlow,
}
use projectmoo.Http.Split.Url.{
  step_req_spaces_before_url-SameFlow, step_req_schema-SameFlow, step_req_schema_slash-SameFlow,
  step_req_schema_slash_slash-SameFlow, step_req_host-SameFlow, step_req_port-SameFlow,
  step_req_path-SameFlow, step_req_query_string_start-SameFlow, step_req_query_string-SameFlow,
  step_req_fragment_start-SameFlow, step_req_fragment-SameFlow,
}
use projectmoo.Http.Split.Version.{
  step_req_http_start-SameFlow, step_req_http_h-SameFlow, step_req_http_ht-SameFlow,
  step_req_http_htt-SameFlow, step_req_http_http-SameFlow, step_req_first_http_major-SameFlow,
  step_req_http_major-SameFlow, step_req_first_http_minor-SameFlow, step_req_http_minor-SameFlow,
  step_req_line_almost_done-SameFlow,
}
use projectmoo.Http.Types.{
  State, s_dead, s_start_req_or_res, s_res_or_resp_h, s_start_res, s_res_h, s_res_ht, s_res_htt,
  s_res_http, s_res_first_http_major, s_res_http_major, s_res_first_http_minor, s_res_http_minor,
  s_res_first_status_code, s_res_status_code, s_res_status, s_res_line_almost_done, s_start_req,
  s_req_method, s_req_spaces_before_url, s_req_schema, s_req_schema_slash, s_req_schema_slash_slash,
  s_req_host, s_req_port, s_req_path, s_req_query_string_start, s_req_query_string,
  s_req_fragment_start, s_req_fragment, s_req_http_start, s_req_http_h, s_req_http_ht,
  s_req_http_htt, s_req_http_http, s_req_first_http_major, s_req_http_major, s_req_first_http_minor,
  s_req_http_minor, s_req_line_almost_done, s_header_field_start, s_header_field,
  s_header_value_start, s_header_value, s_header_value_lws, s_header_almost_done,
  s_chunk_size_start, s_chunk_size, s_chunk_parameters, s_chunk_size_almost_done,
  s_headers_almost_done, s_chunk_data, s_chunk_data_almost_done, s_chunk_data_done, s_body_identity,
  s_body_identity_eof, Settings,
}

-- The bytes of a body that one round reads together, when `n` of the body and `r` of the input
-- are left.
abbrev pub is_wide : State → ℕ → ℕ → Bool
is_wide s_body_identity n r = (ltb 1 n && not (is_negative n)) && ltb 1 r
is_wide s_chunk_data n r = (ltb 1 n && not (is_negative n)) && ltb 1 r
is_wide s_body_identity_eof n r = ltb 1 r
is_wide _ n r = false

module _ {W : Type 0} (settings : Settings W) (quiet : IsQuiet settings) (input : Bytes) (c : ℕ)
    {k : ℕ} where
  same_to_read :
      (f g : Frame W)
      → Alike k f g
      → f.p < length input
      → g.p ≡ 0
      → (1 < f.parser.content_length
          → is_negative f.parser.content_length ≡ false
          → length input - f.p ≡ 1)
      → to_read settings input f ≡ to_read settings (c ∷ []) g
  unfolding to_read
  same_to_read f g a within at narrow =
      let same = ap (λ q. q.content_length) a.parser in ground (arith, same)

  step_in-SameFlow :
      (s : State) (ch : ℕ) (f g : Frame W)
      → Alike k f g
      → f.p < length input
      → g.p ≡ 0
      → is_wide s f.parser.content_length (length input - f.p) ≡ false
      → SameFlow k (step_in settings input s ch f) (step_in settings (c ∷ []) s ch g)
  unfolding step_in
  step_in-SameFlow s_res_or_resp_h ch f g a within at narrow =
      step_res_or_resp_h-SameFlow settings ch f g a
  step_in-SameFlow s_res_h ch f g a within at narrow = step_res_h-SameFlow settings ch f g a
  step_in-SameFlow s_res_ht ch f g a within at narrow = step_res_ht-SameFlow settings ch f g a
  step_in-SameFlow s_res_htt ch f g a within at narrow = step_res_htt-SameFlow settings ch f g a
  step_in-SameFlow s_res_http ch f g a within at narrow = step_res_http-SameFlow settings ch f g a
  step_in-SameFlow s_res_first_http_major ch f g a within at narrow =
      step_res_first_http_major-SameFlow settings ch f g a
  step_in-SameFlow s_res_http_major ch f g a within at narrow =
      step_res_http_major-SameFlow settings ch f g a
  step_in-SameFlow s_res_first_http_minor ch f g a within at narrow =
      step_res_first_http_minor-SameFlow settings ch f g a
  step_in-SameFlow s_res_http_minor ch f g a within at narrow =
      step_res_http_minor-SameFlow settings ch f g a
  step_in-SameFlow s_res_first_status_code ch f g a within at narrow =
      step_res_first_status_code-SameFlow settings ch f g a
  step_in-SameFlow s_res_status_code ch f g a within at narrow =
      step_res_status_code-SameFlow settings ch f g a
  step_in-SameFlow s_res_status ch f g a within at narrow =
      step_res_status-SameFlow settings ch f g a
  step_in-SameFlow s_res_line_almost_done ch f g a within at narrow =
      step_res_line_almost_done-SameFlow settings ch f g a
  step_in-SameFlow s_dead ch f g a within at narrow = step_dead-SameFlow settings ch f g a
  step_in-SameFlow s_start_req_or_res ch f g a within at narrow =
      step_start_req_or_res-SameFlow settings quiet ch f g a
  step_in-SameFlow s_start_res ch f g a within at narrow =
      step_start_res-SameFlow settings quiet ch f g a
  step_in-SameFlow s_start_req ch f g a within at narrow =
      step_start_req-SameFlow settings quiet ch f g a
  step_in-SameFlow s_req_method ch f g a within at narrow =
      step_req_method-SameFlow settings quiet ch f g a
  step_in-SameFlow s_req_http_start ch f g a within at narrow =
      step_req_http_start-SameFlow ch f g a
  step_in-SameFlow s_req_http_h ch f g a within at narrow = step_req_http_h-SameFlow ch f g a
  step_in-SameFlow s_req_http_ht ch f g a within at narrow = step_req_http_ht-SameFlow ch f g a
  step_in-SameFlow s_req_http_htt ch f g a within at narrow = step_req_http_htt-SameFlow ch f g a
  step_in-SameFlow s_req_http_http ch f g a within at narrow = step_req_http_http-SameFlow ch f g a
  step_in-SameFlow s_req_first_http_major ch f g a within at narrow =
      step_req_first_http_major-SameFlow ch f g a
  step_in-SameFlow s_req_http_major ch f g a within at narrow =
      step_req_http_major-SameFlow ch f g a
  step_in-SameFlow s_req_first_http_minor ch f g a within at narrow =
      step_req_first_http_minor-SameFlow ch f g a
  step_in-SameFlow s_req_http_minor ch f g a within at narrow =
      step_req_http_minor-SameFlow ch f g a
  step_in-SameFlow s_req_line_almost_done ch f g a within at narrow =
      step_req_line_almost_done-SameFlow ch f g a
  step_in-SameFlow s_req_spaces_before_url ch f g a within at narrow =
      step_req_spaces_before_url-SameFlow settings quiet input (c ∷ []) ch f g a
  step_in-SameFlow s_req_schema ch f g a within at narrow =
      step_req_schema-SameFlow settings quiet input (c ∷ []) ch f g a
  step_in-SameFlow s_req_schema_slash ch f g a within at narrow =
      step_req_schema_slash-SameFlow settings quiet input (c ∷ []) ch f g a
  step_in-SameFlow s_req_schema_slash_slash ch f g a within at narrow =
      step_req_schema_slash_slash-SameFlow settings quiet input (c ∷ []) ch f g a
  step_in-SameFlow s_req_host ch f g a within at narrow =
      step_req_host-SameFlow settings quiet input (c ∷ []) ch f g a
  step_in-SameFlow s_req_port ch f g a within at narrow =
      step_req_port-SameFlow settings quiet input (c ∷ []) ch f g a
  step_in-SameFlow s_req_path ch f g a within at narrow =
      step_req_path-SameFlow settings quiet input (c ∷ []) ch f g a
  step_in-SameFlow s_req_query_string_start ch f g a within at narrow =
      step_req_query_string_start-SameFlow settings quiet input (c ∷ []) ch f g a
  step_in-SameFlow s_req_query_string ch f g a within at narrow =
      step_req_query_string-SameFlow settings quiet input (c ∷ []) ch f g a
  step_in-SameFlow s_req_fragment_start ch f g a within at narrow =
      step_req_fragment_start-SameFlow settings quiet input (c ∷ []) ch f g a
  step_in-SameFlow s_req_fragment ch f g a within at narrow =
      step_req_fragment-SameFlow settings quiet input (c ∷ []) ch f g a
  step_in-SameFlow s_header_field ch f g a within at narrow =
      step_header_field-SameFlow settings quiet input (c ∷ []) ch f g a
  step_in-SameFlow s_header_value_start ch f g a within at narrow =
      step_header_value_start-SameFlow settings quiet input (c ∷ []) ch f g a
  step_in-SameFlow s_header_value ch f g a within at narrow =
      step_header_value-SameFlow settings quiet input (c ∷ []) ch f g a
  step_in-SameFlow s_header_value_lws ch f g a within at narrow =
      step_header_value_lws-SameFlow settings quiet input (c ∷ []) ch f g a
  step_in-SameFlow s_body_identity ch f g a within at narrow =
      step_body_identity-SameFlow settings quiet input (c ∷ []) ch f g a
        (same_to_read f g a within at (ground arith))
  step_in-SameFlow s_body_identity_eof ch f g a within at narrow =
      step_body_identity_eof-SameFlow settings quiet input (c ∷ []) ch f g a (ground arith)
  step_in-SameFlow s_chunk_size_start ch f g a within at narrow =
      step_chunk_size_start-SameFlow settings quiet input (c ∷ []) ch f g a
  step_in-SameFlow s_chunk_size ch f g a within at narrow =
      step_chunk_size-SameFlow settings quiet input (c ∷ []) ch f g a
  step_in-SameFlow s_chunk_parameters ch f g a within at narrow =
      step_chunk_parameters-SameFlow settings quiet input (c ∷ []) ch f g a
  step_in-SameFlow s_chunk_size_almost_done ch f g a within at narrow =
      step_chunk_size_almost_done-SameFlow settings quiet input (c ∷ []) ch f g a
  step_in-SameFlow s_chunk_data ch f g a within at narrow =
      step_chunk_data-SameFlow settings quiet input (c ∷ []) ch f g a
        (same_to_read f g a within at (ground arith))
  step_in-SameFlow s_chunk_data_almost_done ch f g a within at narrow =
      step_chunk_data_almost_done-SameFlow settings quiet input (c ∷ []) ch f g a
  step_in-SameFlow s_chunk_data_done ch f g a within at narrow =
      step_chunk_data_done-SameFlow settings quiet input (c ∷ []) ch f g a
  step_in-SameFlow s_header_field_start ch f g a within at narrow =
      step_header_field_start-SameFlow settings quiet input (c ∷ []) ch f g a
  step_in-SameFlow s_header_almost_done ch f g a within at narrow =
      step_header_almost_done-SameFlow ch f g a
  step_in-SameFlow s_headers_almost_done ch f g a within at narrow =
      step_headers_almost_done-SameFlow settings quiet ch f g a

  pub round-SameFlow :
      (ch : ℕ) (f g : Frame W)
      → Alike k f g
      → f.p < length input
      → g.p ≡ 0
      → is_wide f.state f.parser.content_length (length input - f.p) ≡ false
      → SameFlow k (round settings input ch f) (round settings (c ∷ []) ch g)
  unfolding round
  round-SameFlow ch f g a within at narrow =
      let same = step_in-SameFlow f.state ch f g a within at narrow in
      let counted =
        step_in-SameFlow f.state ch (record f { nread = u64 (f.nread + 1) })
          (record g { nread = u64 (g.nread + 1) }) (ground arith) within at narrow in
      ground (arith, same, counted)

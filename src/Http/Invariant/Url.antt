-- ===== src/Http/Invariant/Url.antt =====
-- http_parser.c: the states of Http/Url and the invariant.
use projectmoo.Base.{ℕ, ◌<◌, ◌≡◌, arith, Bytes, length}
use projectmoo.Http.Frame.{Frame}
use projectmoo.Http.Invariant.{Inv, Sound}
use projectmoo.Http.Types.{
  s_req_spaces_before_url, s_req_schema, s_req_schema_slash, s_req_schema_slash_slash, s_req_host,
  s_req_port, s_req_path, s_req_query_string_start, s_req_query_string, s_req_fragment_start,
  s_req_fragment, Settings,
}
use projectmoo.Http.Url.{
  step_req_spaces_before_url, step_req_schema, step_req_schema_slash, step_req_schema_slash_slash,
  step_req_host, step_req_port, step_req_path, step_req_query_string_start, step_req_query_string,
  step_req_fragment_start, step_req_fragment,
}

module _ {W : Type 0} (settings : Settings W) (input : Bytes) where
  pub step_req_spaces_before_url-Sound :
      (ch : ℕ) (f : Frame W)
      → Inv 1 f
      → f.p < length input
      → f.state ≡ s_req_spaces_before_url
      → Sound (length input) f.p (step_req_spaces_before_url settings input ch f)
  unfolding step_req_spaces_before_url
  step_req_spaces_before_url-Sound ch f h within at = ground arith

  pub step_req_schema-Sound :
      (ch : ℕ) (f : Frame W)
      → Inv 1 f
      → f.p < length input
      → f.state ≡ s_req_schema
      → Sound (length input) f.p (step_req_schema settings input ch f)
  unfolding step_req_schema
  step_req_schema-Sound ch f h within at = ground arith

  pub step_req_schema_slash-Sound :
      (ch : ℕ) (f : Frame W)
      → Inv 1 f
      → f.p < length input
      → f.state ≡ s_req_schema_slash
      → Sound (length input) f.p (step_req_schema_slash settings input ch f)
  unfolding step_req_schema_slash
  step_req_schema_slash-Sound ch f h within at = ground arith

  pub step_req_schema_slash_slash-Sound :
      (ch : ℕ) (f : Frame W)
      → Inv 1 f
      → f.p < length input
      → f.state ≡ s_req_schema_slash_slash
      → Sound (length input) f.p (step_req_schema_slash_slash settings input ch f)
  unfolding step_req_schema_slash_slash
  step_req_schema_slash_slash-Sound ch f h within at = ground arith

  pub step_req_host-Sound :
      (ch : ℕ) (f : Frame W)
      → Inv 1 f
      → f.p < length input
      → f.state ≡ s_req_host
      → Sound (length input) f.p (step_req_host settings input ch f)
  unfolding step_req_host
  step_req_host-Sound ch f h within at = ground arith

  pub step_req_port-Sound :
      (ch : ℕ) (f : Frame W)
      → Inv 1 f
      → f.p < length input
      → f.state ≡ s_req_port
      → Sound (length input) f.p (step_req_port settings input ch f)
  unfolding step_req_port
  step_req_port-Sound ch f h within at = ground arith

  pub step_req_path-Sound :
      (ch : ℕ) (f : Frame W)
      → Inv 1 f
      → f.p < length input
      → f.state ≡ s_req_path
      → Sound (length input) f.p (step_req_path settings input ch f)
  unfolding step_req_path
  step_req_path-Sound ch f h within at = ground arith

  pub step_req_query_string_start-Sound :
      (ch : ℕ) (f : Frame W)
      → Inv 1 f
      → f.p < length input
      → f.state ≡ s_req_query_string_start
      → Sound (length input) f.p (step_req_query_string_start settings input ch f)
  unfolding step_req_query_string_start
  step_req_query_string_start-Sound ch f h within at = ground arith

  pub step_req_query_string-Sound :
      (ch : ℕ) (f : Frame W)
      → Inv 1 f
      → f.p < length input
      → f.state ≡ s_req_query_string
      → Sound (length input) f.p (step_req_query_string settings input ch f)
  unfolding step_req_query_string
  step_req_query_string-Sound ch f h within at = ground arith

  pub step_req_fragment_start-Sound :
      (ch : ℕ) (f : Frame W)
      → Inv 1 f
      → f.p < length input
      → f.state ≡ s_req_fragment_start
      → Sound (length input) f.p (step_req_fragment_start settings input ch f)
  unfolding step_req_fragment_start
  step_req_fragment_start-Sound ch f h within at = ground arith

  pub step_req_fragment-Sound :
      (ch : ℕ) (f : Frame W)
      → Inv 1 f
      → f.p < length input
      → f.state ≡ s_req_fragment
      → Sound (length input) f.p (step_req_fragment settings input ch f)
  unfolding step_req_fragment
  step_req_fragment-Sound ch f h within at = ground arith

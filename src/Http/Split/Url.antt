-- ===== src/Http/Split/Url.antt =====
-- http_parser.c: the states of Http/Url, with no callback for a URL.
use projectmoo.Base.{ℕ, none, arith, Bytes}
use projectmoo.Http.Frame.{Frame, goto}
use projectmoo.Http.Split.{IsQuiet, Alike, SameFlow, report-none}
use projectmoo.Http.Types.{hpe_cb_url, s_req_http_start, Settings}
use projectmoo.Http.Url.{
  url_then_http, step_req_spaces_before_url, step_req_schema, step_req_schema_slash,
  step_req_schema_slash_slash, step_req_host, step_req_port, step_req_path,
  step_req_query_string_start, step_req_query_string, step_req_fragment_start, step_req_fragment,
}

module _ {W : Type 0} (settings : Settings W) (quiet : IsQuiet settings) (input tail : Bytes)
    {k : ℕ} where
  url_then_http-SameFlow :
      (f g : Frame W)
      → Alike k f g
      → SameFlow k (url_then_http settings input f) (url_then_http settings tail g)
  unfolding url_then_http
  url_then_http-SameFlow f g a = ground (
    arith,
    report-none settings.on_url input f.url_mark hpe_cb_url f
        (λ (h : Frame W). goto s_req_http_start (record h { url_mark = none })) quiet.no_url,
    report-none settings.on_url tail g.url_mark hpe_cb_url g
        (λ (h : Frame W). goto s_req_http_start (record h { url_mark = none })) quiet.no_url,
  )

  pub step_req_spaces_before_url-SameFlow :
      (ch : ℕ) (f g : Frame W)
      → Alike k f g
      → SameFlow k
          (step_req_spaces_before_url settings input ch f)
          (step_req_spaces_before_url settings tail ch g)
  unfolding step_req_spaces_before_url
  step_req_spaces_before_url-SameFlow ch f g a = ground arith

  pub step_req_schema-SameFlow :
      (ch : ℕ) (f g : Frame W)
      → Alike k f g
      → SameFlow k (step_req_schema settings input ch f) (step_req_schema settings tail ch g)
  unfolding step_req_schema
  step_req_schema-SameFlow ch f g a = ground arith

  pub step_req_schema_slash-SameFlow :
      (ch : ℕ) (f g : Frame W)
      → Alike k f g
      → SameFlow k
          (step_req_schema_slash settings input ch f)
          (step_req_schema_slash settings tail ch g)
  unfolding step_req_schema_slash
  step_req_schema_slash-SameFlow ch f g a = ground arith

  pub step_req_schema_slash_slash-SameFlow :
      (ch : ℕ) (f g : Frame W)
      → Alike k f g
      → SameFlow k
          (step_req_schema_slash_slash settings input ch f)
          (step_req_schema_slash_slash settings tail ch g)
  unfolding step_req_schema_slash_slash
  step_req_schema_slash_slash-SameFlow ch f g a = ground arith

  pub step_req_host-SameFlow :
      (ch : ℕ) (f g : Frame W)
      → Alike k f g
      → SameFlow k (step_req_host settings input ch f) (step_req_host settings tail ch g)
  unfolding step_req_host
  step_req_host-SameFlow ch f g a = ground arith

  pub step_req_port-SameFlow :
      (ch : ℕ) (f g : Frame W)
      → Alike k f g
      → SameFlow k (step_req_port settings input ch f) (step_req_port settings tail ch g)
  unfolding step_req_port
  step_req_port-SameFlow ch f g a = ground arith

  pub step_req_path-SameFlow :
      (ch : ℕ) (f g : Frame W)
      → Alike k f g
      → SameFlow k (step_req_path settings input ch f) (step_req_path settings tail ch g)
  unfolding step_req_path
  step_req_path-SameFlow ch f g a = ground arith

  pub step_req_query_string_start-SameFlow :
      (ch : ℕ) (f g : Frame W)
      → Alike k f g
      → SameFlow k
          (step_req_query_string_start settings input ch f)
          (step_req_query_string_start settings tail ch g)
  unfolding step_req_query_string_start
  step_req_query_string_start-SameFlow ch f g a = ground arith

  pub step_req_query_string-SameFlow :
      (ch : ℕ) (f g : Frame W)
      → Alike k f g
      → SameFlow k
          (step_req_query_string settings input ch f)
          (step_req_query_string settings tail ch g)
  unfolding step_req_query_string
  step_req_query_string-SameFlow ch f g a = ground arith

  pub step_req_fragment_start-SameFlow :
      (ch : ℕ) (f g : Frame W)
      → Alike k f g
      → SameFlow k
          (step_req_fragment_start settings input ch f)
          (step_req_fragment_start settings tail ch g)
  unfolding step_req_fragment_start
  step_req_fragment_start-SameFlow ch f g a = ground arith

  pub step_req_fragment-SameFlow :
      (ch : ℕ) (f g : Frame W)
      → Alike k f g
      → SameFlow k (step_req_fragment settings input ch f) (step_req_fragment settings tail ch g)
  unfolding step_req_fragment
  step_req_fragment-SameFlow ch f g a = ground arith

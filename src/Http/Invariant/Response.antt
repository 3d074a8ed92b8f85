-- ===== src/Http/Invariant/Response.antt =====
-- http_parser.c: the states of Http/Response and the invariant.
use projectmoo.Base.{ℕ, ◌<◌, ◌≡◌, arith, Bytes, length}
use projectmoo.Http.Frame.{Frame}
use projectmoo.Http.Invariant.{Inv, Sound}
use projectmoo.Http.Methods.{method_strings}
use projectmoo.Http.Response.{
  step_dead, step_res_or_resp_h, step_res_h, step_res_ht, step_res_htt, step_res_http,
  step_res_first_http_major, step_res_http_major, step_res_first_http_minor, step_res_http_minor,
  step_res_first_status_code, step_res_status_code, step_res_status, step_res_line_almost_done,
}
use projectmoo.Http.Types.{
  s_dead, s_res_or_resp_h, s_res_h, s_res_ht, s_res_htt, s_res_http, s_res_first_http_major,
  s_res_http_major, s_res_first_http_minor, s_res_http_minor, s_res_first_status_code,
  s_res_status_code, s_res_status, s_res_line_almost_done, Settings,
}

module _ {W : Type 0} (settings : Settings W) (input : Bytes) where
  pub step_dead-Sound :
      (ch : ℕ) (f : Frame W)
      → Inv 1 f
      → f.p < length input
      → f.state ≡ s_dead
      → Sound (length input) f.p (step_dead settings ch f)
  unfolding step_dead
  step_dead-Sound ch f h within at = ground arith

  pub step_res_or_resp_h-Sound :
      (ch : ℕ) (f : Frame W)
      → Inv 1 f
      → f.p < length input
      → f.state ≡ s_res_or_resp_h
      → Sound (length input) f.p (step_res_or_resp_h settings ch f)
  unfolding step_res_or_resp_h method_strings
  step_res_or_resp_h-Sound ch f h within at = ground arith

  pub step_res_h-Sound :
      (ch : ℕ) (f : Frame W)
      → Inv 1 f
      → f.p < length input
      → f.state ≡ s_res_h
      → Sound (length input) f.p (step_res_h settings ch f)
  unfolding step_res_h
  step_res_h-Sound ch f h within at = ground arith

  pub step_res_ht-Sound :
      (ch : ℕ) (f : Frame W)
      → Inv 1 f
      → f.p < length input
      → f.state ≡ s_res_ht
      → Sound (length input) f.p (step_res_ht settings ch f)
  unfolding step_res_ht
  step_res_ht-Sound ch f h within at = ground arith

  pub step_res_htt-Sound :
      (ch : ℕ) (f : Frame W)
      → Inv 1 f
      → f.p < length input
      → f.state ≡ s_res_htt
      → Sound (length input) f.p (step_res_htt settings ch f)
  unfolding step_res_htt
  step_res_htt-Sound ch f h within at = ground arith

  pub step_res_http-Sound :
      (ch : ℕ) (f : Frame W)
      → Inv 1 f
      → f.p < length input
      → f.state ≡ s_res_http
      → Sound (length input) f.p (step_res_http settings ch f)
  unfolding step_res_http
  step_res_http-Sound ch f h within at = ground arith

  pub step_res_first_http_major-Sound :
      (ch : ℕ) (f : Frame W)
      → Inv 1 f
      → f.p < length input
      → f.state ≡ s_res_first_http_major
      → Sound (length input) f.p (step_res_first_http_major settings ch f)
  unfolding step_res_first_http_major
  step_res_first_http_major-Sound ch f h within at = ground arith

  pub step_res_http_major-Sound :
      (ch : ℕ) (f : Frame W)
      → Inv 1 f
      → f.p < length input
      → f.state ≡ s_res_http_major
      → Sound (length input) f.p (step_res_http_major settings ch f)
  unfolding step_res_http_major
  step_res_http_major-Sound ch f h within at = ground arith

  pub step_res_first_http_minor-Sound :
      (ch : ℕ) (f : Frame W)
      → Inv 1 f
      → f.p < length input
      → f.state ≡ s_res_first_http_minor
      → Sound (length input) f.p (step_res_first_http_minor settings ch f)
  unfolding step_res_first_http_minor
  step_res_first_http_minor-Sound ch f h within at = ground arith

  pub step_res_http_minor-Sound :
      (ch : ℕ) (f : Frame W)
      → Inv 1 f
      → f.p < length input
      → f.state ≡ s_res_http_minor
      → Sound (length input) f.p (step_res_http_minor settings ch f)
  unfolding step_res_http_minor
  step_res_http_minor-Sound ch f h within at = ground arith

  pub step_res_first_status_code-Sound :
      (ch : ℕ) (f : Frame W)
      → Inv 1 f
      → f.p < length input
      → f.state ≡ s_res_first_status_code
      → Sound (length input) f.p (step_res_first_status_code settings ch f)
  unfolding step_res_first_status_code
  step_res_first_status_code-Sound ch f h within at = ground arith

  pub step_res_status_code-Sound :
      (ch : ℕ) (f : Frame W)
      → Inv 1 f
      → f.p < length input
      → f.state ≡ s_res_status_code
      → Sound (length input) f.p (step_res_status_code settings ch f)
  unfolding step_res_status_code
  step_res_status_code-Sound ch f h within at = ground arith

  pub step_res_status-Sound :
      (ch : ℕ) (f : Frame W)
      → Inv 1 f
      → f.p < length input
      → f.state ≡ s_res_status
      → Sound (length input) f.p (step_res_status settings ch f)
  unfolding step_res_status
  step_res_status-Sound ch f h within at = ground arith

  pub step_res_line_almost_done-Sound :
      (ch : ℕ) (f : Frame W)
      → Inv 1 f
      → f.p < length input
      → f.state ≡ s_res_line_almost_done
      → Sound (length input) f.p (step_res_line_almost_done settings ch f)
  unfolding step_res_line_almost_done
  step_res_line_almost_done-Sound ch f h within at = ground arith

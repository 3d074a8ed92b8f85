-- ===== src/Http/Invariant/Version.antt =====
-- http_parser.c: the states of Http/Request that read a version and the invariant.
use projectmoo.Base.{ℕ, ◌<◌, ◌≡◌, arith, Bytes, length}
use projectmoo.Http.Frame.{Frame}
use projectmoo.Http.Invariant.{Inv, Sound}
use projectmoo.Http.Request.{
  step_req_http_start, step_req_http_h, step_req_http_ht, step_req_http_htt, step_req_http_http,
  step_req_first_http_major, step_req_http_major, step_req_first_http_minor, step_req_http_minor,
  step_req_line_almost_done,
}
use projectmoo.Http.Types.{
  s_req_http_start, s_req_http_h, s_req_http_ht, s_req_http_htt, s_req_http_http,
  s_req_first_http_major, s_req_http_major, s_req_first_http_minor, s_req_http_minor,
  s_req_line_almost_done, Settings,
}

module _ {W : Type 0} (settings : Settings W) (input : Bytes) where
  pub step_req_http_start-Sound :
      (ch : ℕ) (f : Frame W)
      → Inv 1 f
      → f.p < length input
      → f.state ≡ s_req_http_start
      → Sound (length input) f.p (step_req_http_start ch f)
  unfolding step_req_http_start
  step_req_http_start-Sound ch f h within at = ground arith

  pub step_req_http_h-Sound :
      (ch : ℕ) (f : Frame W)
      → Inv 1 f
      → f.p < length input
      → f.state ≡ s_req_http_h
      → Sound (length input) f.p (step_req_http_h ch f)
  unfolding step_req_http_h
  step_req_http_h-Sound ch f h within at = ground arith

  pub step_req_http_ht-Sound :
      (ch : ℕ) (f : Frame W)
      → Inv 1 f
      → f.p < length input
      → f.state ≡ s_req_http_ht
      → Sound (length input) f.p (step_req_http_ht ch f)
  unfolding step_req_http_ht
  step_req_http_ht-Sound ch f h within at = ground arith

  pub step_req_http_htt-Sound :
      (ch : ℕ) (f : Frame W)
      → Inv 1 f
      → f.p < length input
      → f.state ≡ s_req_http_htt
      → Sound (length input) f.p (step_req_http_htt ch f)
  unfolding step_req_http_htt
  step_req_http_htt-Sound ch f h within at = ground arith

  pub step_req_http_http-Sound :
      (ch : ℕ) (f : Frame W)
      → Inv 1 f
      → f.p < length input
      → f.state ≡ s_req_http_http
      → Sound (length input) f.p (step_req_http_http ch f)
  unfolding step_req_http_http
  step_req_http_http-Sound ch f h within at = ground arith

  pub step_req_first_http_major-Sound :
      (ch : ℕ) (f : Frame W)
      → Inv 1 f
      → f.p < length input
      → f.state ≡ s_req_first_http_major
      → Sound (length input) f.p (step_req_first_http_major ch f)
  unfolding step_req_first_http_major
  step_req_first_http_major-Sound ch f h within at = ground arith

  pub step_req_http_major-Sound :
      (ch : ℕ) (f : Frame W)
      → Inv 1 f
      → f.p < length input
      → f.state ≡ s_req_http_major
      → Sound (length input) f.p (step_req_http_major ch f)
  unfolding step_req_http_major
  step_req_http_major-Sound ch f h within at = ground arith

  pub step_req_first_http_minor-Sound :
      (ch : ℕ) (f : Frame W)
      → Inv 1 f
      → f.p < length input
      → f.state ≡ s_req_first_http_minor
      → Sound (length input) f.p (step_req_first_http_minor ch f)
  unfolding step_req_first_http_minor
  step_req_first_http_minor-Sound ch f h within at = ground arith

  pub step_req_http_minor-Sound :
      (ch : ℕ) (f : Frame W)
      → Inv 1 f
      → f.p < length input
      → f.state ≡ s_req_http_minor
      → Sound (length input) f.p (step_req_http_minor ch f)
  unfolding step_req_http_minor
  step_req_http_minor-Sound ch f h within at = ground arith

  pub step_req_line_almost_done-Sound :
      (ch : ℕ) (f : Frame W)
      → Inv 1 f
      → f.p < length input
      → f.state ≡ s_req_line_almost_done
      → Sound (length input) f.p (step_req_line_almost_done ch f)
  unfolding step_req_line_almost_done
  step_req_line_almost_done-Sound ch f h within at = ground arith

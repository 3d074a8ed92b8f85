-- ===== src/Http/Split/Response.antt =====
-- http_parser.c: the states of Http/Response that call no callback.
use projectmoo.Base.{ℕ, arith}
use projectmoo.Http.Frame.{Frame}
use projectmoo.Http.Response.{
  step_dead, step_res_or_resp_h, step_res_h, step_res_ht, step_res_htt, step_res_http,
  step_res_first_http_major, step_res_http_major, step_res_first_http_minor, step_res_http_minor,
  step_res_first_status_code, step_res_status_code, step_res_status, step_res_line_almost_done,
}
use projectmoo.Http.Split.{Alike, SameFlow}
use projectmoo.Http.Types.{Settings}

module _ {W : Type 0} (settings : Settings W) {k : ℕ} where
  pub step_dead-SameFlow :
      (ch : ℕ) (f g : Frame W)
      → Alike k f g
      → SameFlow k (step_dead settings ch f) (step_dead settings ch g)
  unfolding step_dead
  step_dead-SameFlow ch f g a = ground arith

  pub step_res_or_resp_h-SameFlow :
      (ch : ℕ) (f g : Frame W)
      → Alike k f g
      → SameFlow k (step_res_or_resp_h settings ch f) (step_res_or_resp_h settings ch g)
  unfolding step_res_or_resp_h
  step_res_or_resp_h-SameFlow ch f g a = ground arith

  pub step_res_h-SameFlow :
      (ch : ℕ) (f g : Frame W)
      → Alike k f g
      → SameFlow k (step_res_h settings ch f) (step_res_h settings ch g)
  unfolding step_res_h
  step_res_h-SameFlow ch f g a = ground arith

  pub step_res_ht-SameFlow :
      (ch : ℕ) (f g : Frame W)
      → Alike k f g
      → SameFlow k (step_res_ht settings ch f) (step_res_ht settings ch g)
  unfolding step_res_ht
  step_res_ht-SameFlow ch f g a = ground arith

  pub step_res_htt-SameFlow :
      (ch : ℕ) (f g : Frame W)
      → Alike k f g
      → SameFlow k (step_res_htt settings ch f) (step_res_htt settings ch g)
  unfolding step_res_htt
  step_res_htt-SameFlow ch f g a = ground arith

  pub step_res_http-SameFlow :
      (ch : ℕ) (f g : Frame W)
      → Alike k f g
      → SameFlow k (step_res_http settings ch f) (step_res_http settings ch g)
  unfolding step_res_http
  step_res_http-SameFlow ch f g a = ground arith

  pub step_res_first_http_major-SameFlow :
      (ch : ℕ) (f g : Frame W)
      → Alike k f g
      → SameFlow k
          (step_res_first_http_major settings ch f)
          (step_res_first_http_major settings ch g)
  unfolding step_res_first_http_major
  step_res_first_http_major-SameFlow ch f g a = ground arith

  pub step_res_http_major-SameFlow :
      (ch : ℕ) (f g : Frame W)
      → Alike k f g
      → SameFlow k (step_res_http_major settings ch f) (step_res_http_major settings ch g)
  unfolding step_res_http_major
  step_res_http_major-SameFlow ch f g a = ground arith

  pub step_res_first_http_minor-SameFlow :
      (ch : ℕ) (f g : Frame W)
      → Alike k f g
      → SameFlow k
          (step_res_first_http_minor settings ch f)
          (step_res_first_http_minor settings ch g)
  unfolding step_res_first_http_minor
  step_res_first_http_minor-SameFlow ch f g a = ground arith

  pub step_res_http_minor-SameFlow :
      (ch : ℕ) (f g : Frame W)
      → Alike k f g
      → SameFlow k (step_res_http_minor settings ch f) (step_res_http_minor settings ch g)
  unfolding step_res_http_minor
  step_res_http_minor-SameFlow ch f g a = ground arith

  pub step_res_first_status_code-SameFlow :
      (ch : ℕ) (f g : Frame W)
      → Alike k f g
      → SameFlow k
          (step_res_first_status_code settings ch f)
          (step_res_first_status_code settings ch g)
  unfolding step_res_first_status_code
  step_res_first_status_code-SameFlow ch f g a = ground arith

  pub step_res_status_code-SameFlow :
      (ch : ℕ) (f g : Frame W)
      → Alike k f g
      → SameFlow k (step_res_status_code settings ch f) (step_res_status_code settings ch g)
  unfolding step_res_status_code
  step_res_status_code-SameFlow ch f g a = ground arith

  pub step_res_status-SameFlow :
      (ch : ℕ) (f g : Frame W)
      → Alike k f g
      → SameFlow k (step_res_status settings ch f) (step_res_status settings ch g)
  unfolding step_res_status
  step_res_status-SameFlow ch f g a = ground arith

  pub step_res_line_almost_done-SameFlow :
      (ch : ℕ) (f g : Frame W)
      → Alike k f g
      → SameFlow k
          (step_res_line_almost_done settings ch f)
          (step_res_line_almost_done settings ch g)
  unfolding step_res_line_almost_done
  step_res_line_almost_done-SameFlow ch f g a = ground arith

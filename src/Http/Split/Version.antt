-- ===== src/Http/Split/Version.antt =====
-- http_parser.c: the states of Http/Request that read a version.
use projectmoo.Base.{ℕ, arith}
use projectmoo.Http.Frame.{Frame}
use projectmoo.Http.Request.{
  step_req_http_start, step_req_http_h, step_req_http_ht, step_req_http_htt, step_req_http_http,
  step_req_first_http_major, step_req_http_major, step_req_first_http_minor, step_req_http_minor,
  step_req_line_almost_done,
}
use projectmoo.Http.Split.{Alike, SameFlow}

module _ {W : Type 0} {k : ℕ} where
  pub step_req_http_start-SameFlow :
      (ch : ℕ) (f g : Frame W)
      → Alike k f g
      → SameFlow k (step_req_http_start ch f) (step_req_http_start ch g)
  unfolding step_req_http_start
  step_req_http_start-SameFlow ch f g a = ground arith

  pub step_req_http_h-SameFlow :
      (ch : ℕ) (f g : Frame W)
      → Alike k f g
      → SameFlow k (step_req_http_h ch f) (step_req_http_h ch g)
  unfolding step_req_http_h
  step_req_http_h-SameFlow ch f g a = ground arith

  pub step_req_http_ht-SameFlow :
      (ch : ℕ) (f g : Frame W)
      → Alike k f g
      → SameFlow k (step_req_http_ht ch f) (step_req_http_ht ch g)
  unfolding step_req_http_ht
  step_req_http_ht-SameFlow ch f g a = ground arith

  pub step_req_http_htt-SameFlow :
      (ch : ℕ) (f g : Frame W)
      → Alike k f g
      → SameFlow k (step_req_http_htt ch f) (step_req_http_htt ch g)
  unfolding step_req_http_htt
  step_req_http_htt-SameFlow ch f g a = ground arith

  pub step_req_http_http-SameFlow :
      (ch : ℕ) (f g : Frame W)
      → Alike k f g
      → SameFlow k (step_req_http_http ch f) (step_req_http_http ch g)
  unfolding step_req_http_http
  step_req_http_http-SameFlow ch f g a = ground arith

  pub step_req_first_http_major-SameFlow :
      (ch : ℕ) (f g : Frame W)
      → Alike k f g
      → SameFlow k (step_req_first_http_major ch f) (step_req_first_http_major ch g)
  unfolding step_req_first_http_major
  step_req_first_http_major-SameFlow ch f g a = ground arith

  pub step_req_http_major-SameFlow :
      (ch : ℕ) (f g : Frame W)
      → Alike k f g
      → SameFlow k (step_req_http_major ch f) (step_req_http_major ch g)
  unfolding step_req_http_major
  step_req_http_major-SameFlow ch f g a = ground arith

  pub step_req_first_http_minor-SameFlow :
      (ch : ℕ) (f g : Frame W)
      → Alike k f g
      → SameFlow k (step_req_first_http_minor ch f) (step_req_first_http_minor ch g)
  unfolding step_req_first_http_minor
  step_req_first_http_minor-SameFlow ch f g a = ground arith

  pub step_req_http_minor-SameFlow :
      (ch : ℕ) (f g : Frame W)
      → Alike k f g
      → SameFlow k (step_req_http_minor ch f) (step_req_http_minor ch g)
  unfolding step_req_http_minor
  step_req_http_minor-SameFlow ch f g a = ground arith

  pub step_req_line_almost_done-SameFlow :
      (ch : ℕ) (f g : Frame W)
      → Alike k f g
      → SameFlow k (step_req_line_almost_done ch f) (step_req_line_almost_done ch g)
  unfolding step_req_line_almost_done
  step_req_line_almost_done-SameFlow ch f g a = ground arith

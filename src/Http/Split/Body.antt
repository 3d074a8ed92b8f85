-- ===== src/Http/Split/Body.antt =====
-- http_parser.c: the states of a body, when one byte is left of it, of the input, or of both inputs.
use projectmoo.Base.{ℕ, ◌-◌, ◌≡◌, arith, Bytes, length}
use projectmoo.Http.Body.{
  to_read, told, deliver, shorten, step_body_identity, step_body_identity_eof,
  step_chunk_size_start, step_chunk_size, step_chunk_parameters, step_chunk_size_almost_done,
  step_chunk_data, step_chunk_data_almost_done, step_chunk_data_done,
}
use projectmoo.Http.Frame.{Frame}
use projectmoo.Http.Split.{IsQuiet, Alike, SameFlow}
use projectmoo.Http.Split.Header.{end_message-SameFlow}
use projectmoo.Http.Types.{Settings}

module _ {W : Type 0} (settings : Settings W) (quiet : IsQuiet settings) where
  pub told_none :
      (bytes : Bytes) (n : ℕ) (f : Frame W) → told settings bytes settings.on_body n f ≡ f.world
  unfolding told
  told_none bytes n f = ground (arith, quiet.no_body)

module _ {W : Type 0} (settings : Settings W) (quiet : IsQuiet settings) (input tail : Bytes)
    {k : ℕ} where
  pub step_chunk_size_start-SameFlow :
      (ch : ℕ) (f g : Frame W)
      → Alike k f g
      → SameFlow k
          (step_chunk_size_start settings input ch f)
          (step_chunk_size_start settings tail ch g)
  unfolding step_chunk_size_start
  step_chunk_size_start-SameFlow ch f g a = ground arith

  pub step_chunk_size-SameFlow :
      (ch : ℕ) (f g : Frame W)
      → Alike k f g
      → SameFlow k (step_chunk_size settings input ch f) (step_chunk_size settings tail ch g)
  unfolding step_chunk_size
  step_chunk_size-SameFlow ch f g a = ground arith

  pub step_chunk_parameters-SameFlow :
      (ch : ℕ) (f g : Frame W)
      → Alike k f g
      → SameFlow k
          (step_chunk_parameters settings input ch f)
          (step_chunk_parameters settings tail ch g)
  unfolding step_chunk_parameters
  step_chunk_parameters-SameFlow ch f g a = ground arith

  pub step_chunk_size_almost_done-SameFlow :
      (ch : ℕ) (f g : Frame W)
      → Alike k f g
      → SameFlow k
          (step_chunk_size_almost_done settings input ch f)
          (step_chunk_size_almost_done settings tail ch g)
  unfolding step_chunk_size_almost_done
  step_chunk_size_almost_done-SameFlow ch f g a = ground arith

  pub step_chunk_data_almost_done-SameFlow :
      (ch : ℕ) (f g : Frame W)
      → Alike k f g
      → SameFlow k
          (step_chunk_data_almost_done settings input ch f)
          (step_chunk_data_almost_done settings tail ch g)
  unfolding step_chunk_data_almost_done
  step_chunk_data_almost_done-SameFlow ch f g a = ground arith

  pub step_chunk_data_done-SameFlow :
      (ch : ℕ) (f g : Frame W)
      → Alike k f g
      → SameFlow k
          (step_chunk_data_done settings input ch f)
          (step_chunk_data_done settings tail ch g)
  unfolding step_chunk_data_done
  step_chunk_data_done-SameFlow ch f g a = ground arith

  pub step_body_identity_eof-SameFlow :
      (ch : ℕ) (f g : Frame W)
      → Alike k f g
      → length input - f.p ≡ length tail - g.p
      → SameFlow k
          (step_body_identity_eof settings input ch f)
          (step_body_identity_eof settings tail ch g)
  unfolding step_body_identity_eof deliver
  step_body_identity_eof-SameFlow ch f g a left = ground (
    arith,
    told_none settings quiet input (length input - f.p) f,
    told_none settings quiet tail (length tail - g.p) g,
  )

  -- Both runs read as many bytes of the body.
  pub step_chunk_data-SameFlow :
      (ch : ℕ) (f g : Frame W)
      → Alike k f g
      → to_read settings input f ≡ to_read settings tail g
      → SameFlow k (step_chunk_data settings input ch f) (step_chunk_data settings tail ch g)
  unfolding step_chunk_data deliver shorten
  step_chunk_data-SameFlow ch f g a left = ground (
    arith,
    told_none settings quiet input (to_read settings input f) f,
    told_none settings quiet tail (to_read settings tail g) g,
  )

  pub step_body_identity-SameFlow :
      (ch : ℕ) (f g : Frame W)
      → Alike k f g
      → to_read settings input f ≡ to_read settings tail g
      → SameFlow k (step_body_identity settings input ch f) (step_body_identity settings tail ch g)
  unfolding step_body_identity deliver shorten
  step_body_identity-SameFlow ch f g a left =
      let n = to_read settings input f in
      let m = to_read settings tail g in
      ground (
        arith,
        told_none settings quiet input n f,
        told_none settings quiet tail m g,
        end_message-SameFlow settings quiet {k = k}
            (shorten settings input n (deliver settings input n f))
            (shorten settings tail m (deliver settings tail m g))
            (ground (arith, told_none settings quiet input n f, told_none settings quiet tail m g)),
      )

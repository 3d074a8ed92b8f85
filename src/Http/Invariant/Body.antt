-- ===== src/Http/Invariant/Body.antt =====
-- http_parser.c: the states of Http/Body and the invariant.
use projectmoo.Base.{ℕ, ◌-◌, ◌≤◌, ◌<◌, ◌≡◌, ◌⊎◌, inl, inr, true, arith, Bytes, length, Bool-cases}
use projectmoo.Http.Body.{
  to_read, deliver, is_positive, shorten, step_body_identity, step_body_identity_eof,
  step_chunk_size_start, step_chunk_size, step_chunk_parameters, step_chunk_size_almost_done,
  step_chunk_data, step_chunk_data_almost_done, step_chunk_data_done,
}
use projectmoo.Http.Chars.{unhex_value-lt}
use projectmoo.Http.Frame.{Frame}
use projectmoo.Http.Invariant.{Inv, Sound, Calm, end_message-Sound}
use projectmoo.Http.Types.{
  s_chunk_size_start, s_chunk_size, s_chunk_parameters, s_chunk_size_almost_done, s_chunk_data,
  s_chunk_data_almost_done, s_chunk_data_done, s_body_identity, s_body_identity_eof, Settings,
}

module _ {W : Type 0} (settings : Settings W) (input : Bytes) where
  -- What is read of a body: no more than there is, and no more than the length says; all of a
  -- negative length.
  to_read_bounds :
      (f : Frame W)
      → f.parser.content_length < 18446744073709551616
      → f.p < length input
      → let n = to_read settings input f in
        (n ≤ f.parser.content_length)
        × ((n ≡ f.parser.content_length) ⊎ (n ≡ length input - f.p))
        × (is_positive settings input n ≡ true → (0 < n) × (n ≤ length input - f.p))
  unfolding to_read
  to_read_bounds f word within = ground arith

  pub step_chunk_size_start-Sound :
      (ch : ℕ) (f : Frame W)
      → Inv 1 f
      → f.p < length input
      → f.state ≡ s_chunk_size_start
      → Sound (length input) f.p (step_chunk_size_start settings input ch f)
  unfolding step_chunk_size_start
  step_chunk_size_start-Sound ch f h within at = ground (arith, unhex_value-lt ch)

  pub step_chunk_size-Sound :
      (ch : ℕ) (f : Frame W)
      → Inv 1 f
      → f.p < length input
      → f.state ≡ s_chunk_size
      → Sound (length input) f.p (step_chunk_size settings input ch f)
  unfolding step_chunk_size
  step_chunk_size-Sound ch f h within at = ground arith

  pub step_chunk_parameters-Sound :
      (ch : ℕ) (f : Frame W)
      → Inv 1 f
      → f.p < length input
      → f.state ≡ s_chunk_parameters
      → Sound (length input) f.p (step_chunk_parameters settings input ch f)
  unfolding step_chunk_parameters
  step_chunk_parameters-Sound ch f h within at = ground arith

  pub step_chunk_size_almost_done-Sound :
      (ch : ℕ) (f : Frame W)
      → Inv 1 f
      → f.p < length input
      → f.state ≡ s_chunk_size_almost_done
      → Sound (length input) f.p (step_chunk_size_almost_done settings input ch f)
  unfolding step_chunk_size_almost_done
  step_chunk_size_almost_done-Sound ch f h within at = ground arith

  pub step_chunk_data_almost_done-Sound :
      (ch : ℕ) (f : Frame W)
      → Inv 1 f
      → f.p < length input
      → f.state ≡ s_chunk_data_almost_done
      → Sound (length input) f.p (step_chunk_data_almost_done settings input ch f)
  unfolding step_chunk_data_almost_done
  step_chunk_data_almost_done-Sound ch f h within at = ground arith

  pub step_chunk_data_done-Sound :
      (ch : ℕ) (f : Frame W)
      → Inv 1 f
      → f.p < length input
      → f.state ≡ s_chunk_data_done
      → Sound (length input) f.p (step_chunk_data_done settings input ch f)
  unfolding step_chunk_data_done
  step_chunk_data_done-Sound ch f h within at = ground arith

  pub step_body_identity_eof-Sound :
      (ch : ℕ) (f : Frame W)
      → Inv 1 f
      → f.p < length input
      → f.state ≡ s_body_identity_eof
      → Sound (length input) f.p (step_body_identity_eof settings input ch f)
  unfolding step_body_identity_eof
  step_body_identity_eof-Sound ch f h within at = ground arith

  pub step_chunk_data-Sound :
      (ch : ℕ) (f : Frame W)
      → Inv 1 f
      → f.p < length input
      → f.state ≡ s_chunk_data
      → Sound (length input) f.p (step_chunk_data settings input ch f)
  unfolding step_chunk_data
  step_chunk_data-Sound ch f h within at = ground (arith, to_read_bounds f h.word within)

  abbrev after_read : Frame W → Frame W
  after_read f =
      let n = to_read settings input f in shorten settings input n (deliver settings input n f)

  after_read-Calm :
      (f : Frame W)
      → Inv 1 f
      → f.p < length input
      → is_positive settings input (to_read settings input f) ≡ true
      → Calm (after_read f) × (f.p ≤ (after_read f).p) × ((after_read f).p < length input)
  unfolding shorten deliver
  after_read-Calm f h within e = ground (arith, to_read_bounds f h.word within)

  pub step_body_identity-Sound :
      (ch : ℕ) (f : Frame W)
      → Inv 1 f
      → f.p < length input
      → f.state ≡ s_body_identity
      → Sound (length input) f.p (step_body_identity settings input ch f)
  unfolding step_body_identity
  step_body_identity-Sound ch f h within at =
      elim (Bool-cases (is_positive settings input (to_read settings input f))) [
        | inl e ↦
            let (calm, after, within') = after_read-Calm f h within e in
            let end = end_message-Sound (length input) settings (after_read f) calm after within' in
            ground (arith, to_read_bounds f h.word within, end)
        | inr e ↦ ground arith
      ]

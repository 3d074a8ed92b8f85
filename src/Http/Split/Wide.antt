-- ===== src/Http/Split/Wide.antt =====
-- http_parser.c: the bytes of a body that one round reads together, read one by one.
use projectmoo.Base.{ℕ, ◌+◌, ◌-◌, ◌<◌, ◌≡◌, refl, true, arith, Bytes, length}
use projectmoo.Http.Body.{
  to_read, deliver, shorten, step_body_identity, step_body_identity_eof, step_chunk_data,
}
use projectmoo.Http.Execute.{step_in, round}
use projectmoo.Http.Frame.{Frame}
use projectmoo.Http.Split.{IsQuiet}
use projectmoo.Http.Split.Body.{told_none}
use projectmoo.Http.Split.Round.{is_wide}
use projectmoo.Http.Types.{
  State, s_chunk_data, s_body_identity, s_body_identity_eof, Parser, Settings, state_code,
  parsing_header,
}

-- A parser in a body, after one byte that is not the last.
abbrev pub shrunk : State → Parser → Parser
shrunk s_body_identity_eof q = q
shrunk _ q = record q { content_length = q.content_length - 1 }

-- The variables one byte on.
abbrev pub one_on : {W : Type 0} → Frame W → Frame W
one_on f = record f { p = f.p + 1; parser = shrunk f.state f.parser }

module _ {W : Type 0} (settings : Settings W) (quiet : IsQuiet settings) (input : Bytes) where
  identity_wide :
      (c d : ℕ) (f : Frame W)
      → f.state ≡ s_body_identity
      → is_wide s_body_identity f.parser.content_length (length input - f.p) ≡ true
      → f.parser.content_length < 18446744073709551616
      → round settings input c f ≡ round settings input d (one_on f)
  unfolding round step_in step_body_identity to_read deliver shorten parsing_header state_code
  identity_wide c d f at wide word = ground (
    arith,
    told_none settings quiet input (to_read settings input f) f,
    told_none settings quiet input (to_read settings input (one_on f)) (one_on f),
  )

  chunk_wide :
      (c d : ℕ) (f : Frame W)
      → f.state ≡ s_chunk_data
      → is_wide s_chunk_data f.parser.content_length (length input - f.p) ≡ true
      → f.parser.content_length < 18446744073709551616
      → round settings input c f ≡ round settings input d (one_on f)
  unfolding round step_in step_chunk_data to_read deliver shorten parsing_header state_code
  chunk_wide c d f at wide word = ground (
    arith,
    told_none settings quiet input (to_read settings input f) f,
    told_none settings quiet input (to_read settings input (one_on f)) (one_on f),
  )

  eof_wide :
      (c d : ℕ) (f : Frame W)
      → f.state ≡ s_body_identity_eof
      → is_wide s_body_identity_eof f.parser.content_length (length input - f.p) ≡ true
      → length input < 9223372036854775808
      → round settings input c f ≡ round settings input d (one_on f)
  unfolding round step_in step_body_identity_eof deliver parsing_header state_code
  eof_wide c d f at wide small = ground (
    arith,
    told_none settings quiet input (length input - f.p) f,
    told_none settings quiet input (length input - (f.p + 1)) (one_on f),
  )

  wide_in :
      (s : State) (c d : ℕ) (f : Frame W)
      → f.state ≡ s
      → is_wide s f.parser.content_length (length input - f.p) ≡ true
      → f.parser.content_length < 18446744073709551616
      → length input < 9223372036854775808
      → round settings input c f ≡ round settings input d (one_on f)
  wide_in s_body_identity c d f at wide word small = identity_wide c d f at wide word
  wide_in s_chunk_data c d f at wide word small = chunk_wide c d f at wide word
  wide_in s_body_identity_eof c d f at wide word small = eof_wide c d f at wide small
  wide_in _ c d f at wide word small = ground arith

  -- A round that reads several bytes does the same from the second one.
  pub round_wide :
      (c d : ℕ) (f : Frame W)
      → is_wide f.state f.parser.content_length (length input - f.p) ≡ true
      → f.parser.content_length < 18446744073709551616
      → length input < 9223372036854775808
      → round settings input c f ≡ round settings input d (one_on f)
  round_wide c d f wide word small = wide_in f.state c d f refl wide word small

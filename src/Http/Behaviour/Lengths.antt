-- ===== src/Http/Behaviour/Lengths.antt =====
-- http_parser.c: the number that a Content-Length header or a chunk's size line leaves in
-- `content_length`.
use projectmoo.Base.{
  ℕ, ◌+◌, ◌-◌, ◌*◌, ◌≤◌, ◌<◌, ◌≡◌, refl, sym, ap, ◌∙◌, Bool, true, false, not, ◌&&◌, some, [], ◌∷◌,
  arith, Bytes, length, ◌==◌,
}
use projectmoo.Http.Body.{step_chunk_size_start, step_chunk_size}
use projectmoo.Http.Chars.{cr, unhex_value, is_num, unhex_value-lt}
use projectmoo.Http.Execute.{step_in, round}
use projectmoo.Http.Frame.{Frame, next, u64}
use projectmoo.Http.Header.{
  value_char, first_value_char, step_header_value_start, step_header_value,
}
use projectmoo.Http.Rounds.{rounds}
use projectmoo.Http.Tables.{unhex_value_lem}
use projectmoo.Http.Types.{
  s_header_value_start, s_header_value, s_chunk_size_start, s_chunk_size, h_content_length,
  http_max_header_size, Settings, state_code, parsing_header,
}

-- The value of decimal digits that follow on the value `a`.
abbrev pub decimal : ℕ → Bytes → ℕ
decimal a [] = a
decimal a (c ∷ cs) = decimal (a * 10 + (c - b'0')) cs

abbrev pub all_digits : Bytes → Bool
all_digits [] = true
all_digits (c ∷ cs) = is_num c && all_digits cs

pub u64-decimal : (a : ℕ) (cs : Bytes) → u64 (decimal (u64 a) cs) ≡ u64 (decimal a cs)
u64-decimal a [] = omega arith
u64-decimal a (c ∷ cs) =
    sym (u64-decimal (u64 a * 10 + (c - b'0')) cs)
    ∙ ap (λ n. u64 (decimal n cs)) (omega arith)
    ∙ u64-decimal (a * 10 + (c - b'0')) cs

module _ {W : Type 0} where
  -- The variables after `n` bytes of a header, with a content length.
  abbrev pub counted : ℕ → ℕ → Frame W → Frame W
  counted n len f =
      let q = f.parser in
      record f { nread = f.nread + n; p = f.p + n; parser = record q { content_length = len } }

module _ {W : Type 0} (settings : Settings W) (input : Bytes) where
  pub digit_round :
      (c : ℕ) (f : Frame W)
      → f.state ≡ s_header_value
      → f.header_state ≡ h_content_length
      → f.nread < http_max_header_size
      → is_num c ≡ true
      → let q = f.parser in
        round settings input c f
        ≡ next (record f {
          nread = f.nread + 1;
          parser = record q { content_length = u64 (q.content_length * 10 + (c - b'0')) };
        })
  unfolding round step_in step_header_value value_char parsing_header state_code is_num
  digit_round c f at in_length few digit = ground arith

  digit_rounds :
      (cs : Bytes) (f : Frame W)
      → f.state ≡ s_header_value
      → f.header_state ≡ h_content_length
      → f.nread + length cs ≤ http_max_header_size
      → all_digits cs ≡ true
      → f.parser.content_length < 18446744073709551616
      → rounds settings input cs f
        ≡ next (counted (length cs) (u64 (decimal f.parser.content_length cs)) f)
  unfolding rounds
  digit_rounds [] f at in_length few digits word = ground arith
  digit_rounds (c ∷ cs) f at in_length few digits word =
      let n = f.parser.content_length * 10 + (c - b'0') in
      rw (digit_round c f at in_length (omega arith) (ground arith)) (
        digit_rounds cs (counted 1 (u64 n) f) at in_length (omega arith) (ground arith)
          (omega arith)
        ∙ ground (arith, u64-decimal n cs))

  pub first_digit_round :
      (c : ℕ) (f : Frame W)
      → f.state ≡ s_header_value_start
      → f.header_state ≡ h_content_length
      → f.nread < http_max_header_size
      → is_num c ≡ true
      → let q = f.parser in
        round settings input c f
        ≡ next (record f {
          nread = f.nread + 1;
          state = s_header_value;
          index = 0;
          header_value_mark = some f.p;
          parser = record q { content_length = c - b'0' };
        })
  unfolding round step_in step_header_value_start first_value_char parsing_header state_code is_num
  first_digit_round c f at in_length few digit = ground arith

  -- The digits of a Content-Length header, from the first byte of its value and within the limit on
  -- header bytes: whatever the length was before, they leave their decimal value modulo 2 ^ 64,
  -- and of the other variables change only the counts, the state, the index and the mark of the
  -- value.
  pub content_length_digits :
      (c : ℕ) (cs : Bytes) (f : Frame W)
      → f.state ≡ s_header_value_start
      → f.header_state ≡ h_content_length
      → f.nread + length (c ∷ cs) ≤ http_max_header_size
      → all_digits (c ∷ cs) ≡ true
      → rounds settings input (c ∷ cs) f
        ≡ next (
            counted
              (length (c ∷ cs))
              (u64 (decimal 0 (c ∷ cs)))
              (record f { state = s_header_value; index = 0; header_value_mark = some f.p }))
  unfolding rounds is_num
  content_length_digits c cs f at in_length few digits =
      let g = record f { state = s_header_value; index = 0; header_value_mark = some f.p } in
      rw (first_digit_round c f at in_length (omega arith) (ground arith)) (
        digit_rounds cs (counted 1 (c - b'0') g) refl in_length (omega arith) (ground arith)
          (ground arith)
        ∙ ground arith)

-- The value of the digits of a chunk's size, as `unhex` reads them, that follow on the value `a`.
abbrev pub hexadecimal : ℕ → Bytes → ℕ
hexadecimal a [] = a
hexadecimal a (c ∷ cs) = hexadecimal (a * 16 + unhex_value c) cs

abbrev pub all_unhex : Bytes → Bool
all_unhex [] = true
all_unhex (c ∷ cs) = not (unhex_value c == 255) && not (c == cr) && all_unhex cs

pub u64-hexadecimal : (a : ℕ) (cs : Bytes) → u64 (hexadecimal (u64 a) cs) ≡ u64 (hexadecimal a cs)
u64-hexadecimal a [] = omega arith
u64-hexadecimal a (c ∷ cs) =
    sym (u64-hexadecimal (u64 a * 16 + unhex_value c) cs)
    ∙ ap (λ n. u64 (hexadecimal n cs)) (omega arith)
    ∙ u64-hexadecimal (a * 16 + unhex_value c) cs

module _ {W : Type 0} (settings : Settings W) (input : Bytes) where
  pub hex_round :
      (c : ℕ) (f : Frame W)
      → f.state ≡ s_chunk_size
      → f.parser.flags.chunked ≡ true
      → f.nread < http_max_header_size
      → (unhex_value c == 255) ≡ false
      → (c == cr) ≡ false
      → round settings input c f
        ≡ next
            (record (counted 1 (u64 (f.parser.content_length * 16 + unhex_value c)) f) { p = f.p })
  unfolding round step_in step_chunk_size parsing_header state_code
  hex_round c f at chunked few digit ne = ground arith

  hex_rounds :
      (cs : Bytes) (f : Frame W)
      → f.state ≡ s_chunk_size
      → f.parser.flags.chunked ≡ true
      → f.nread + length cs ≤ http_max_header_size
      → all_unhex cs ≡ true
      → f.parser.content_length < 18446744073709551616
      → rounds settings input cs f
        ≡ next (counted (length cs) (u64 (hexadecimal f.parser.content_length cs)) f)
  unfolding rounds
  hex_rounds [] f at chunked few digits word = ground arith
  hex_rounds (c ∷ cs) f at chunked few digits word =
      let n = f.parser.content_length * 16 + unhex_value c in
      rw (hex_round c f at chunked (omega arith) (ground arith) (ground arith)) (
        hex_rounds cs (counted 1 (u64 n) f) at chunked (omega arith) (ground arith) (omega arith)
        ∙ ground (arith, u64-hexadecimal n cs))

  pub first_hex_round :
      (c : ℕ) (f : Frame W)
      → f.state ≡ s_chunk_size_start
      → f.parser.flags.chunked ≡ true
      → f.nread ≡ 0
      → (unhex_value c == 255) ≡ false
      → let q = f.parser in
        round settings input c f
        ≡ next (record f {
          nread = 1;
          state = s_chunk_size;
          parser = record q { content_length = unhex_value c };
        })
  unfolding round step_in step_chunk_size_start parsing_header state_code
  first_hex_round c f at chunked none_yet digit = ground arith

  -- The digits of a chunk's size, from its first byte and within the limit on header bytes: whatever
  -- the length was before, they leave their hexadecimal value modulo 2 ^ 64, with the value
  -- that `unhex` gives to each byte, and of the other variables change only the counts and the state.
  pub chunk_size_digits :
      (c : ℕ) (cs : Bytes) (f : Frame W)
      → f.state ≡ s_chunk_size_start
      → f.parser.flags.chunked ≡ true
      → f.nread ≡ 0
      → length (c ∷ cs) ≤ http_max_header_size
      → all_unhex (c ∷ cs) ≡ true
      → rounds settings input (c ∷ cs) f
        ≡ next (
            counted
              (length (c ∷ cs))
              (u64 (hexadecimal 0 (c ∷ cs)))
              (record f { state = s_chunk_size }))
  unfolding rounds
  chunk_size_digits c cs f at chunked none_yet few digits =
      rw (first_hex_round c f at chunked none_yet (ground arith)) (
        hex_rounds cs (counted 1 (unhex_value c) (record f { state = s_chunk_size; nread = 0 }))
          refl chunked (omega arith) (ground arith) (omega (arith, unhex_value-lt c))
        ∙ ground arith)

  -- A byte from 128 on, which is no hexadecimal digit, is read in a chunk's size as the digit 0: it is
  -- no error, and `content_length` is multiplied by 16, modulo 2 ^ 64.
  pub chunk_size_high_byte :
      (c : ℕ) (f : Frame W)
      → 128 ≤ c
      → c < 256
      → f.state ≡ s_chunk_size
      → f.parser.flags.chunked ≡ true
      → f.nread < http_max_header_size
      → let q = f.parser in
        round settings input c f
        ≡ next (record f {
          nread = f.nread + 1;
          parser = record q { content_length = u64 (q.content_length * 16) };
        })
  chunk_size_high_byte c f high byte at chunked few =
      let zero_digit : unhex_value c ≡ 0 = ground (arith, unhex_value_lem c byte) in
      hex_round c f at chunked few (ground arith) (ground arith) ∙ rw zero_digit (ground arith)

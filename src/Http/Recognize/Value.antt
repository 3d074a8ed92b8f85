-- ===== src/Http/Recognize/Value.antt =====
-- http_parser.c: which header values s_header_value_start and s_header_value take for chunked,
-- keep-alive and close.
use mathlib.Core.Path.{subst}
use mathlib.Core.List.{map}
use projectmoo.Base.{
  ℕ, ◌+◌, ◌≤◌, ◌<◌, ◌≡◌, refl, ◌↔◌, Bool, true, false, ◌||◌, [], ◌∷◌, arith, Bytes, length, ◌==◌,
}
use projectmoo.Http.Chars.{lower}
use projectmoo.Http.Execute.{step_in, round}
use projectmoo.Http.Frame.{Frame, Flow, next, halt}
use projectmoo.Http.Header.{
  chunked_value, keep_alive, close, value_char, first_value_char, step_header_value_start,
  step_header_value,
}
use projectmoo.Http.Recognize.Field.{match_word-is_named}
use projectmoo.Http.Recognize.Name.{is_named}
use projectmoo.Http.Recognize.ValueName.{
  ValueName, chunked_coding, state_of_value, header_of_value, word_of_value, word_fits,
  value_to_come, value_to_come_nil, value_found_iff, is_value_char, all_value_chars, all_word_chars,
  is_named-lower,
}
use projectmoo.Http.Rounds.{and_then, rounds}
use projectmoo.Http.Tables.{ascii_lower, lower_same}
use projectmoo.Http.Types.{
  s_header_value_start, s_header_value, HeaderState, h_matching_transfer_encoding_chunked,
  h_matching_connection_keep_alive, h_matching_connection_close, h_transfer_encoding_chunked,
  h_connection_keep_alive, h_connection_close, http_max_header_size, Settings, state_code,
  parsing_header,
}

module _ {W : Type 0} where
  -- A step within a value, behind which `want` says whether the rest `r` completes `v`.
  abbrev ValueGoes : ValueName → Bool → Bytes → ℕ → Flow W → Type 0
  ValueGoes v want r n (next g) =
      (g.state ≡ s_header_value)
      × (g.nread ≡ n)
      × (word_fits g.header_state g.index ≡ true)
      × (value_to_come v g.header_state g.index r ≡ want)
  ValueGoes v want r n (halt o) = ⊥

  value_char-ValueGoes :
      (h : HeaderState) (v : ValueName) (ch : ℕ) (r : Bytes) (f : Frame W)
      → f.state ≡ s_header_value
      → f.header_state ≡ h
      → word_fits h f.index ≡ true
      → is_value_char ch ≡ true
      → ValueGoes v
          (value_to_come v h f.index (lower ch ∷ r))
          r
          f.nread
          (value_char h ch (lower ch) f)
  unfolding value_char
  value_char-ValueGoes h_matching_transfer_encoding_chunked v ch r f at e fits plain =
      ground (arith, match_word-is_named chunked_value h_transfer_encoding_chunked (lower ch) r f)
  value_char-ValueGoes h_matching_connection_keep_alive v ch r f at e fits plain =
      ground (arith, match_word-is_named keep_alive h_connection_keep_alive (lower ch) r f)
  value_char-ValueGoes h_matching_connection_close v ch r f at e fits plain =
      ground (arith, match_word-is_named close h_connection_close (lower ch) r f)
  value_char-ValueGoes _ v ch r f at e fits plain = ground (arith, lower_same ch 32)

  -- The variables are within a value, and in the header state of `v` exactly if `want`.
  abbrev pub InValue : ValueName → Bool → Flow W → Type 0
  InValue v want (next g) =
      (g.state ≡ s_header_value) × ((g.header_state ≡ state_of_value v) ↔ (want ≡ true))
  InValue v want (halt o) = ⊥

module _ {W : Type 0} (settings : Settings W) (input : Bytes) where
  value_round :
      (ch : ℕ) (f : Frame W)
      → f.state ≡ s_header_value
      → f.nread < http_max_header_size
      → is_value_char ch ≡ true
      → round settings input ch f
        ≡ value_char f.header_state ch (lower ch) (record f { nread = f.nread + 1 })
  unfolding round step_in step_header_value parsing_header state_code
  value_round ch f at few plain = ground arith

  first_round-ValueGoes :
      (v : ValueName) (ch : ℕ) (r : Bytes) (f : Frame W)
      → f.state ≡ s_header_value_start
      → f.header_state ≡ header_of_value v
      → f.nread < http_max_header_size
      → is_value_char ch ≡ true
      → (ch == b' ' || ch == b'\t') ≡ false
      → ValueGoes v
          (is_named (word_of_value v) (lower ch ∷ r))
          r
          (f.nread + 1)
          (round settings input ch f)
  unfolding round step_in step_header_value_start first_value_char parsing_header state_code
  first_round-ValueGoes chunked_coding ch r f at e few plain dense = ground arith
  first_round-ValueGoes _ ch r f at e few plain dense = ground arith

  and_then-InValue :
      (v : ValueName) (want : Bool) (r : Bytes) (n : ℕ) (fl : Flow W) (rest : Frame W → Flow W)
      → ValueGoes v want r n fl
      → ((g : Frame W)
          → g.state ≡ s_header_value
          → g.nread ≡ n
          → word_fits g.header_state g.index ≡ true
          → InValue v (value_to_come v g.header_state g.index r) (rest g))
      → InValue v want (and_then settings input fl rest)
  and_then-InValue v want r n (next g) rest (at, count, fits, same) then_on =
      subst (λ b. InValue v b (rest (record g { p = g.p + 1 }))) same
        (then_on (record g { p = g.p + 1 }) at count fits)
  and_then-InValue v want r n (halt o) rest h then_on = absurd h

  rounds-InValue :
      (v : ValueName) (cs : Bytes) (f : Frame W)
      → f.state ≡ s_header_value
      → word_fits f.header_state f.index ≡ true
      → f.nread + length cs ≤ http_max_header_size
      → all_value_chars cs ≡ true
      → InValue v
          (value_to_come v f.header_state f.index (map lower cs))
          (rounds settings input cs f)
  unfolding rounds
  rounds-InValue v [] f at fits few plain =
      ground
        (arith, value_to_come_nil v f.header_state f.index fits, value_found_iff v f.header_state)
  rounds-InValue v (c ∷ cs) f at fits few plain =
      let r = map lower cs in
      let g = record f { nread = f.nread + 1 } in
      rw (value_round c f at (omega arith) (ground arith)) (
        and_then-InValue v (value_to_come v f.header_state f.index (lower c ∷ r)) r (f.nread + 1) _
          _ (value_char-ValueGoes f.header_state v c r g at refl fits (ground arith))
          (λ g' at' count fits'. rounds-InValue v cs g' at' fits' (omega arith) (ground arith)))

  word_of_value_chars : (v : ValueName) → all_word_chars (word_of_value v) ≡ true
  word_of_value_chars chunked_coding = refl
  word_of_value_chars _ = refl

  -- For any callbacks, at the first byte of the value of a Transfer-Encoding or Connection
  -- header that is neither space nor tab, and within the limit on header bytes: bytes none of
  -- which is 0, CR or LF do not end the call, the variables are within the value behind them,
  -- and the header state is that of chunked, or of keep-alive or close, exactly if the bytes, in
  -- lower case, are that word with any number of spaces behind it.
  pub header_value_iff :
      (v : ValueName) (c : ℕ) (cs : Bytes) (f : Frame W)
      → f.state ≡ s_header_value_start
      → f.header_state ≡ header_of_value v
      → f.nread + length (c ∷ cs) ≤ http_max_header_size
      → (c == b' ' || c == b'\t') ≡ false
      → all_value_chars (c ∷ cs) ≡ true
      → InValue v
          (is_named (word_of_value v) (map ascii_lower (c ∷ cs)))
          (rounds settings input (c ∷ cs) f)
  unfolding rounds
  header_value_iff v c cs f at e few dense plain =
      let r = map lower cs in
      subst (λ b. InValue v b (rounds settings input (c ∷ cs) f))
        (is_named-lower (word_of_value v) (c ∷ cs) (word_of_value_chars v) plain)
        (and_then-InValue v (is_named (word_of_value v) (lower c ∷ r)) r (f.nread + 1) _ _
          (first_round-ValueGoes v c r f at e (omega arith) (ground arith) dense)
          (λ g at' count fits. rounds-InValue v cs g at' fits (omega arith) (ground arith)))

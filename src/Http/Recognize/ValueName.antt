-- ===== src/Http/Recognize/ValueName.antt =====
-- http_parser.c: the header values that s_header_value looks for, as words, and the words that are
-- still to come in each of its header states.
use mathlib.Core.List.{map}
use projectmoo.Base.{
  ℕ, ◌+◌, ◌≡◌, refl, ◌↔◌, Bool, true, false, not, ◌&&◌, [], ◌∷◌, arith, Bytes, drop, ltb, ◌==◌,
}
use projectmoo.Http.Chars.{cr, lf, lower}
use projectmoo.Http.Header.{chunked_value, keep_alive, close}
use projectmoo.Http.Recognize.Name.{all_spaces, is_named, is_named-drop-nil}
use projectmoo.Http.Tables.{ascii_lower, is_word_char, lower_same}
use projectmoo.Http.Types.{
  HeaderState, h_general, h_connection, h_transfer_encoding, h_matching_transfer_encoding_chunked,
  h_matching_connection_keep_alive, h_matching_connection_close, h_transfer_encoding_chunked,
  h_connection_keep_alive, h_connection_close,
}

-- The values that the parser looks at.
pub data ValueName : Type 0 where
  chunked_coding keep_alive_option close_option : ValueName

-- The header state that tells each, the one of its header, and the word.
abbrev pub state_of_value : ValueName → HeaderState
state_of_value chunked_coding = h_transfer_encoding_chunked
state_of_value keep_alive_option = h_connection_keep_alive
state_of_value close_option = h_connection_close

abbrev pub header_of_value : ValueName → HeaderState
header_of_value chunked_coding = h_transfer_encoding
header_of_value keep_alive_option = h_connection
header_of_value close_option = h_connection

abbrev pub word_of_value : ValueName → Bytes
word_of_value chunked_coding = chunked_value
word_of_value keep_alive_option = keep_alive
word_of_value close_option = close

-- The header states of the value of such a header, with the indices each may have.
abbrev pub word_fits : HeaderState → ℕ → Bool
word_fits h_general i = true
word_fits h_matching_transfer_encoding_chunked i = ltb i 6
word_fits h_matching_connection_keep_alive i = ltb i 9
word_fits h_matching_connection_close i = ltb i 4
word_fits h_transfer_encoding_chunked i = true
word_fits h_connection_keep_alive i = true
word_fits h_connection_close i = true
word_fits _ i = false

abbrev pub value_found : ValueName → HeaderState → Bool
value_found chunked_coding h_transfer_encoding_chunked = true
value_found keep_alive_option h_connection_keep_alive = true
value_found close_option h_connection_close = true
value_found _ _ = false

-- What the rest of a value has to be in a header state.
abbrev pub value_to_come : ValueName → HeaderState → ℕ → Bytes → Bool
value_to_come v h_matching_transfer_encoding_chunked i r =
    value_found v h_transfer_encoding_chunked && is_named (drop (i + 1) chunked_value) r
value_to_come v h_matching_connection_keep_alive i r =
    value_found v h_connection_keep_alive && is_named (drop (i + 1) keep_alive) r
value_to_come v h_matching_connection_close i r =
    value_found v h_connection_close && is_named (drop (i + 1) close) r
value_to_come v h_transfer_encoding_chunked i r =
    value_found v h_transfer_encoding_chunked && all_spaces r
value_to_come v h_connection_keep_alive i r = value_found v h_connection_keep_alive && all_spaces r
value_to_come v h_connection_close i r = value_found v h_connection_close && all_spaces r
value_to_come v _ i r = false

pub value_to_come_nil :
    (v : ValueName) (h : HeaderState) (i : ℕ)
    → word_fits h i ≡ true
    → value_to_come v h i [] ≡ value_found v h
value_to_come_nil chunked_coding h_matching_transfer_encoding_chunked i e =
    ground (arith, is_named-drop-nil chunked_value (i + 1))
value_to_come_nil keep_alive_option h_matching_connection_keep_alive i e =
    ground (arith, is_named-drop-nil keep_alive (i + 1))
value_to_come_nil close_option h_matching_connection_close i e =
    ground (arith, is_named-drop-nil close (i + 1))
value_to_come_nil chunked_coding _ i e = refl
value_to_come_nil keep_alive_option _ i e = refl
value_to_come_nil close_option _ i e = refl

pub value_found_iff :
    (v : ValueName) (h : HeaderState) → (value_found v h ≡ true) ↔ (h ≡ state_of_value v)
value_found_iff chunked_coding h_transfer_encoding_chunked = ground arith
value_found_iff chunked_coding _ = ground arith
value_found_iff keep_alive_option h_connection_keep_alive = ground arith
value_found_iff keep_alive_option _ = ground arith
value_found_iff close_option h_connection_close = ground arith
value_found_iff close_option _ = ground arith

abbrev pub is_value_char : ℕ → Bool
is_value_char c = ltb c 256 && not (c == 0) && not (c == cr) && not (c == lf)

abbrev pub all_value_chars : Bytes → Bool
all_value_chars [] = true
all_value_chars (c ∷ cs) = is_value_char c && all_value_chars cs

abbrev pub all_word_chars : Bytes → Bool
all_word_chars [] = true
all_word_chars (x ∷ w) = is_word_char x && all_word_chars w

-- `LOWER` finds the words that lower case finds.
pub is_named-lower :
    (w cs : Bytes)
    → all_word_chars w ≡ true
    → all_value_chars cs ≡ true
    → is_named w (map lower cs) ≡ is_named w (map ascii_lower cs)
is_named-lower [] [] e h = refl
is_named-lower [] (c ∷ cs) e h = ground (arith, lower_same c 32, is_named-lower [] cs refl)
is_named-lower (x ∷ w) [] e h = refl
is_named-lower (x ∷ w) (c ∷ cs) e h = ground (arith, lower_same c x, is_named-lower w cs)

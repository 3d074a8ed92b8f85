-- ===== src/Http/Recognize/Name.antt =====
-- http_parser.c: the header names that s_header_field looks for, as words, and the words that are
-- still to come in each of its header states.
use native.Mathlib.Numerals.{add-one}
use projectmoo.Base.{
  ℕ, zero, suc, ◌+◌, ◌<◌, ◌≡◌, refl, ap, ◌∙◌, ◌↔◌, Bool, true, false, ◌&&◌, ◌||◌, some, [], ◌∷◌,
  arith, Bytes, length, drop, ◌==◌,
}
use projectmoo.Http.Chars.{char_at}
use projectmoo.Http.Header.{
  connection, proxy_connection, content_length_name, transfer_encoding, upgrade_name,
}
use projectmoo.Http.Invariant.{field_fits}
use projectmoo.Http.Types.{
  HeaderState, h_c, h_co, h_con, h_matching_connection, h_matching_proxy_connection,
  h_matching_content_length, h_matching_transfer_encoding, h_matching_upgrade, h_connection,
  h_content_length, h_transfer_encoding, h_upgrade,
}

-- The headers that the parser looks at.
pub data FieldName : Type 0 where
  connection_field content_length_field transfer_encoding_field upgrade_field : FieldName

-- The header state that tells each.
abbrev pub header_of : FieldName → HeaderState
header_of connection_field = h_connection
header_of content_length_field = h_content_length
header_of transfer_encoding_field = h_transfer_encoding
header_of upgrade_field = h_upgrade

abbrev pub all_spaces : Bytes → Bool
all_spaces [] = true
all_spaces (c ∷ cs) = c == b' ' && all_spaces cs

-- A word, with any number of spaces behind it.
abbrev pub is_named : Bytes → Bytes → Bool
is_named [] r = all_spaces r
is_named (x ∷ w) [] = false
is_named (x ∷ w) (c ∷ r) = c == x && is_named w r

-- The names of a header, in lower case.
abbrev pub field_name : FieldName → Bytes → Bool
field_name connection_field r = is_named connection r || is_named proxy_connection r
field_name content_length_field r = is_named content_length_name r
field_name transfer_encoding_field r = is_named transfer_encoding r
field_name upgrade_field r = is_named upgrade_name r

abbrev pub found : FieldName → HeaderState → Bool
found connection_field h_connection = true
found content_length_field h_content_length = true
found transfer_encoding_field h_transfer_encoding = true
found upgrade_field h_upgrade = true
found _ _ = false

-- What the rest of a name has to be in a header state.
abbrev pub to_come : FieldName → HeaderState → ℕ → Bytes → Bool
to_come x h_c i r = field_name x (b'c' ∷ r)
to_come x h_co i r = field_name x (b'c' ∷ b'o' ∷ r)
to_come x h_con i r = field_name x (b'c' ∷ b'o' ∷ b'n' ∷ r)
to_come x h_matching_connection i r = found x h_connection && is_named (drop (i + 1) connection) r
to_come x h_matching_proxy_connection i r =
    found x h_connection && is_named (drop (i + 1) proxy_connection) r
to_come x h_matching_content_length i r =
    found x h_content_length && is_named (drop (i + 1) content_length_name) r
to_come x h_matching_transfer_encoding i r =
    found x h_transfer_encoding && is_named (drop (i + 1) transfer_encoding) r
to_come x h_matching_upgrade i r = found x h_upgrade && is_named (drop (i + 1) upgrade_name) r
to_come x h_connection i r = found x h_connection && all_spaces r
to_come x h_content_length i r = found x h_content_length && all_spaces r
to_come x h_transfer_encoding i r = found x h_transfer_encoding && all_spaces r
to_come x h_upgrade i r = found x h_upgrade && all_spaces r
to_come x _ i r = false

pub is_named-drop :
    (word : Bytes) (i c : ℕ) (r : Bytes) {x : ℕ}
    → char_at word i ≡ some x
    → i < length word
    → is_named (drop i word) (c ∷ r) ≡ (c == x && is_named (drop (i + 1) word) r)
is_named-drop [] i c r e within = absurd (omega arith)
is_named-drop (y ∷ word) zero c r e within = ground arith
is_named-drop (y ∷ word) (suc i) c r {x} e within =
    is_named-drop word i c r e (omega arith)
    ∙ rw (add-one (suc i)) (ap (λ j. c == x && is_named (drop j word) r) (add-one i))

pub drop-length : (word : Bytes) → drop (length word) word ≡ []
drop-length [] = refl
drop-length (x ∷ word) = drop-length word

-- A word that is not over needs a byte more.
pub is_named-drop-nil : (word : Bytes) (i : ℕ) → i < length word → is_named (drop i word) [] ≡ false
is_named-drop-nil [] i h = absurd (omega arith)
is_named-drop-nil (x ∷ word) zero h = refl
is_named-drop-nil (x ∷ word) (suc i) h = is_named-drop-nil word i (omega arith)

-- At the end of a name nothing is to come exactly if its header was found.
pub to_come_nil :
    (x : FieldName) (h : HeaderState) (i : ℕ) → field_fits h i ≡ true → to_come x h i [] ≡ found x h
to_come_nil connection_field h_matching_connection i e =
    ground (arith, is_named-drop-nil connection (i + 1))
to_come_nil _ h_matching_connection i e = ground (arith, is_named-drop-nil connection (i + 1))
to_come_nil connection_field h_matching_proxy_connection i e =
    ground (arith, is_named-drop-nil proxy_connection (i + 1))
to_come_nil _ h_matching_proxy_connection i e =
    ground (arith, is_named-drop-nil proxy_connection (i + 1))
to_come_nil connection_field h_matching_content_length i e =
    ground (arith, is_named-drop-nil content_length_name (i + 1))
to_come_nil _ h_matching_content_length i e =
    ground (arith, is_named-drop-nil content_length_name (i + 1))
to_come_nil connection_field h_matching_transfer_encoding i e =
    ground (arith, is_named-drop-nil transfer_encoding (i + 1))
to_come_nil _ h_matching_transfer_encoding i e =
    ground (arith, is_named-drop-nil transfer_encoding (i + 1))
to_come_nil connection_field h_matching_upgrade i e =
    ground (arith, is_named-drop-nil upgrade_name (i + 1))
to_come_nil _ h_matching_upgrade i e = ground (arith, is_named-drop-nil upgrade_name (i + 1))
to_come_nil connection_field _ i e = refl
to_come_nil content_length_field _ i e = refl
to_come_nil transfer_encoding_field _ i e = refl
to_come_nil upgrade_field _ i e = refl

pub found_iff : (x : FieldName) (h : HeaderState) → (found x h ≡ true) ↔ (h ≡ header_of x)
found_iff connection_field h_connection = ground arith
found_iff connection_field _ = ground arith
found_iff content_length_field h_content_length = ground arith
found_iff content_length_field _ = ground arith
found_iff transfer_encoding_field h_transfer_encoding = ground arith
found_iff transfer_encoding_field _ = ground arith
found_iff upgrade_field h_upgrade = ground arith
found_iff upgrade_field _ = ground arith

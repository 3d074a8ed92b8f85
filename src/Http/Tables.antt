-- ===== src/Http/Tables.antt =====
-- The tables and character classes of http_parser.c against the characters that they stand for.
-- Over a small range every value is checked by evaluation.
use projectmoo.Base.{
  ℕ, zero, suc, ◌+◌, ◌-◌, ◌<◌, ◌≡◌, refl, Bool, true, false, not, ◌&&◌, ◌||◌, [], ◌∷◌, arith, Bytes,
  codes, ltb, leb, ◌==◌, if◌then◌else◌, ==_iff,
}
use projectmoo.Http.Chars.{
  cr, tokens, unhex, normal_url_char, token, unhex_value, lower, is_alpha, is_num, is_url_char,
  is_host_char,
}

all_below : ℕ → (ℕ → Bool) → Bool
all_below zero p = true
all_below (suc n) p = p n && all_below n p

all_below_sound : (n : ℕ) (p : ℕ → Bool) (c : ℕ) → all_below n p ≡ true → c < n → p c ≡ true
unfolding all_below
all_below_sound zero p c h lt = absurd (omega arith)
all_below_sound (suc n) p c h lt = ground (arith, all_below_sound n p c)

abbrev same : Bool → Bool → Bool
same true b = b
same false b = not b

abbrev within : ℕ → ℕ → ℕ → Bool
within lo hi c = leb lo c && leb c hi

abbrev member : ℕ → Bytes → Bool
member c [] = false
member c (x ∷ xs) = c == x || member c xs

-- The separators of RFC 2616, but the space, the tab, the double quote, the slash and `}`.
abbrev pub separators : Bytes
separators = codes "()<>@,;:\\[]?={"

-- A printable ASCII character that is none of these.
abbrev pub is_field_char : ℕ → Bool
is_field_char c = within 32 126 c && not (member c separators)

abbrev pub ascii_lower : ℕ → ℕ
ascii_lower c = if within b'A' b'Z' c then c + 32 else c

abbrev pub is_letter : ℕ → Bool
is_letter c = within b'a' b'z' c || within b'A' b'Z' c

-- The value of a hexadecimal digit, or 255.
abbrev pub hex_digit : ℕ → ℕ
hex_digit c =
    if within b'0' b'9' c
    then c - b'0'
    else if within b'a' b'f' c
    then c - b'a' + 10
    else if within b'A' b'F' c
    then c - b'A' + 10
    else 255

abbrev check_token : ℕ → Bool
check_token c = token c == (if is_field_char c then ascii_lower c else 0)

token_table : all_below 256 check_token ≡ true
unfolding all_below token tokens
token_table = refl

-- For every byte `token` gives 0, but for the printable ASCII characters that are not among the
-- `separators`: these it gives in lower case. The space, the double quote, the slash and `}` are among
-- them.
pub token_lem : (c : ℕ) → c < 256 → token c ≡ (if is_field_char c then ascii_lower c else 0)
token_lem c h = (==_iff _ _).0 (all_below_sound 256 check_token c token_table h)

abbrev check_unhex : ℕ → Bool
check_unhex c = unhex_value c == (if ltb c 128 then hex_digit c else 0)

unhex_table : all_below 256 check_unhex ≡ true
unfolding all_below unhex_value unhex
unhex_table = refl

pub unhex_value_lem : (c : ℕ) → c < 256 → unhex_value c ≡ (if ltb c 128 then hex_digit c else 0)
unhex_value_lem c h = (==_iff _ _).0 (all_below_sound 256 check_unhex c unhex_table h)

abbrev check_classes : ℕ → Bool
check_classes c =
    same (is_alpha c) (is_letter c)
    && same (is_num c) (within b'0' b'9' c)
    && same (is_host_char c) (is_letter c || within b'0' b'9' c || c == b'.' || c == b'-')
    && same (is_url_char c) (within 33 126 c && not (c == b'#') && not (c == b'?'))

class_table : all_below 256 check_classes ≡ true
unfolding all_below is_alpha is_num is_host_char is_url_char normal_url_char
class_table = refl

-- For every byte: IS_ALPHA holds of the ASCII letters, IS_HOST_CHAR of letters, digits, the dot and
-- the dash, and IS_URL_CHAR of the printable ASCII characters but the space, `#` and `?`.
pub class_lem :
    (c : ℕ)
    → c < 256
    → (is_alpha c ≡ is_letter c)
      × (is_host_char c ≡ (is_letter c || within b'0' b'9' c || c == b'.' || c == b'-'))
      × (is_url_char c ≡ (within 33 126 c && not (c == b'#') && not (c == b'?')))
class_lem c h = ground (arith, all_below_sound 256 check_classes c class_table h)

-- A byte with the bit 0x20 set.
abbrev with_bit : ℕ → ℕ
with_bit c =
    if within 0 31 c || within 64 95 c || within 128 159 c || within 192 223 c then c + 32 else c

abbrev check_lower : ℕ → Bool
check_lower c = lower c == with_bit c

lower_table : all_below 256 check_lower ≡ true
unfolding all_below lower
lower_table = refl

-- The small letters, the dash and the space.
abbrev pub is_word_char : ℕ → Bool
is_word_char x = within b'a' b'z' x || x == b'-' || x == b' '

-- `LOWER` and lower case lead to the same letters, dashes and spaces, but from the bytes 0 and CR.
pub lower_same :
    (c x : ℕ)
    → c < 256
    → (c == 0) ≡ false
    → (c == cr) ≡ false
    → is_word_char x ≡ true
    → (lower c == x) ≡ (ascii_lower c == x)
lower_same c x h a b word =
    let e : lower c ≡ with_bit c =
      (==_iff _ _).0 (all_below_sound 256 check_lower c lower_table h) in
    ground arith

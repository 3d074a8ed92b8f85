-- ===== src/Http/Chars.antt =====
-- The character classes and tables of http_parser.c, built with HTTP_PARSER_STRICT, its default.
-- A `char` is the byte that it stores, so a cast to `unsigned char` changes nothing here.
use Prim.Native.Nat.{bit_or}
use projectmoo.Base.{
  ℕ, zero, suc, ◌≤◌, ◌<◌, ◌≡◌, refl, ◌≢◌, Bool, true, ◌&&◌, ◌||◌, Option, none, some, [], ◌∷◌,
  arith, Bytes, length, get_or, ltb, leb, ◌==◌,
}

-- `CR` and `LF`
abbrev pub cr : ℕ
cr = 13

abbrev pub lf : ℕ
lf = 10

-- A C string's byte at an index: its terminator at its length, and nothing that may be read
-- behind that.
abbrev pub char_at : Bytes → ℕ → Option ℕ
char_at [] zero = some 0
char_at [] (suc i) = none
char_at (c ∷ cs) zero = some c
char_at (c ∷ cs) (suc i) = char_at cs i

-- The initialised half of `tokens`; the array's other 128 entries are 0.
unfoldable pub tokens : Bytes
tokens =
    0 ∷ 0 ∷ 0 ∷ 0 ∷ 0 ∷ 0 ∷ 0 ∷ 0 ∷ 0 ∷ 0 ∷ 0 ∷ 0 ∷ 0 ∷ 0 ∷ 0 ∷ 0 ∷ 0 ∷ 0 ∷ 0 ∷ 0 ∷ 0 ∷ 0 ∷ 0 ∷ 0
    ∷ 0 ∷ 0 ∷ 0 ∷ 0 ∷ 0 ∷ 0 ∷ 0 ∷ 0 ∷ 32 ∷ 33 ∷ 34 ∷ 35 ∷ 36 ∷ 37 ∷ 38 ∷ 39 ∷ 0 ∷ 0 ∷ 42 ∷ 43 ∷ 0
    ∷ 45 ∷ 46 ∷ 47 ∷ 48 ∷ 49 ∷ 50 ∷ 51 ∷ 52 ∷ 53 ∷ 54 ∷ 55 ∷ 56 ∷ 57 ∷ 0 ∷ 0 ∷ 0 ∷ 0 ∷ 0 ∷ 0 ∷ 0
    ∷ 97 ∷ 98 ∷ 99 ∷ 100 ∷ 101 ∷ 102 ∷ 103 ∷ 104 ∷ 105 ∷ 106 ∷ 107 ∷ 108 ∷ 109 ∷ 110 ∷ 111 ∷ 112
    ∷ 113 ∷ 114 ∷ 115 ∷ 116 ∷ 117 ∷ 118 ∷ 119 ∷ 120 ∷ 121 ∷ 122 ∷ 0 ∷ 0 ∷ 0 ∷ 94 ∷ 95 ∷ 96 ∷ 97 ∷ 98
    ∷ 99 ∷ 100 ∷ 101 ∷ 102 ∷ 103 ∷ 104 ∷ 105 ∷ 106 ∷ 107 ∷ 108 ∷ 109 ∷ 110 ∷ 111 ∷ 112 ∷ 113 ∷ 114
    ∷ 115 ∷ 116 ∷ 117 ∷ 118 ∷ 119 ∷ 120 ∷ 121 ∷ 122 ∷ 0 ∷ 124 ∷ 125 ∷ 126 ∷ 0 ∷ []

-- The initialised half of `unhex`, with 255 for -1; the array's other 128 entries are 0.
unfoldable pub unhex : Bytes
unhex =
    255 ∷ 255 ∷ 255 ∷ 255 ∷ 255 ∷ 255 ∷ 255 ∷ 255 ∷ 255 ∷ 255 ∷ 255 ∷ 255 ∷ 255 ∷ 255 ∷ 255 ∷ 255
    ∷ 255 ∷ 255 ∷ 255 ∷ 255 ∷ 255 ∷ 255 ∷ 255 ∷ 255 ∷ 255 ∷ 255 ∷ 255 ∷ 255 ∷ 255 ∷ 255 ∷ 255 ∷ 255
    ∷ 255 ∷ 255 ∷ 255 ∷ 255 ∷ 255 ∷ 255 ∷ 255 ∷ 255 ∷ 255 ∷ 255 ∷ 255 ∷ 255 ∷ 255 ∷ 255 ∷ 255 ∷ 255
    ∷ 0 ∷ 1 ∷ 2 ∷ 3 ∷ 4 ∷ 5 ∷ 6 ∷ 7 ∷ 8 ∷ 9 ∷ 255 ∷ 255 ∷ 255 ∷ 255 ∷ 255 ∷ 255 ∷ 255 ∷ 10 ∷ 11 ∷ 12
    ∷ 13 ∷ 14 ∷ 15 ∷ 255 ∷ 255 ∷ 255 ∷ 255 ∷ 255 ∷ 255 ∷ 255 ∷ 255 ∷ 255 ∷ 255 ∷ 255 ∷ 255 ∷ 255
    ∷ 255 ∷ 255 ∷ 255 ∷ 255 ∷ 255 ∷ 255 ∷ 255 ∷ 255 ∷ 255 ∷ 255 ∷ 255 ∷ 255 ∷ 255 ∷ 10 ∷ 11 ∷ 12
    ∷ 13 ∷ 14 ∷ 15 ∷ 255 ∷ 255 ∷ 255 ∷ 255 ∷ 255 ∷ 255 ∷ 255 ∷ 255 ∷ 255 ∷ 255 ∷ 255 ∷ 255 ∷ 255
    ∷ 255 ∷ 255 ∷ 255 ∷ 255 ∷ 255 ∷ 255 ∷ 255 ∷ 255 ∷ 255 ∷ 255 ∷ 255 ∷ 255 ∷ []

-- The initialised half of `normal_url_char`; the array's other 128 entries are 0.
unfoldable pub normal_url_char : Bytes
normal_url_char =
    0 ∷ 0 ∷ 0 ∷ 0 ∷ 0 ∷ 0 ∷ 0 ∷ 0 ∷ 0 ∷ 0 ∷ 0 ∷ 0 ∷ 0 ∷ 0 ∷ 0 ∷ 0 ∷ 0 ∷ 0 ∷ 0 ∷ 0 ∷ 0 ∷ 0 ∷ 0 ∷ 0
    ∷ 0 ∷ 0 ∷ 0 ∷ 0 ∷ 0 ∷ 0 ∷ 0 ∷ 0 ∷ 0 ∷ 1 ∷ 1 ∷ 0 ∷ 1 ∷ 1 ∷ 1 ∷ 1 ∷ 1 ∷ 1 ∷ 1 ∷ 1 ∷ 1 ∷ 1 ∷ 1 ∷ 1
    ∷ 1 ∷ 1 ∷ 1 ∷ 1 ∷ 1 ∷ 1 ∷ 1 ∷ 1 ∷ 1 ∷ 1 ∷ 1 ∷ 1 ∷ 1 ∷ 1 ∷ 1 ∷ 0 ∷ 1 ∷ 1 ∷ 1 ∷ 1 ∷ 1 ∷ 1 ∷ 1 ∷ 1
    ∷ 1 ∷ 1 ∷ 1 ∷ 1 ∷ 1 ∷ 1 ∷ 1 ∷ 1 ∷ 1 ∷ 1 ∷ 1 ∷ 1 ∷ 1 ∷ 1 ∷ 1 ∷ 1 ∷ 1 ∷ 1 ∷ 1 ∷ 1 ∷ 1 ∷ 1 ∷ 1 ∷ 1
    ∷ 1 ∷ 1 ∷ 1 ∷ 1 ∷ 1 ∷ 1 ∷ 1 ∷ 1 ∷ 1 ∷ 1 ∷ 1 ∷ 1 ∷ 1 ∷ 1 ∷ 1 ∷ 1 ∷ 1 ∷ 1 ∷ 1 ∷ 1 ∷ 1 ∷ 1 ∷ 1 ∷ 1
    ∷ 1 ∷ 1 ∷ 1 ∷ 1 ∷ 1 ∷ 1 ∷ 1 ∷ 0 ∷ []

-- `TOKEN`
unfoldable pub token : ℕ → ℕ
token c = get_or tokens c 0

-- `unhex[(unsigned char)ch]`, an int8_t as its bit pattern
unfoldable pub unhex_value : ℕ → ℕ
unhex_value c = get_or unhex c 0

-- `LOWER`
unfoldable pub lower : ℕ → ℕ
lower c = bit_or c 0x20

-- `IS_ALPHA`
unfoldable pub is_alpha : ℕ → Bool
unfolding lower
is_alpha c = leb b'a' (lower c) && leb (lower c) b'z'

-- `IS_NUM`
unfoldable pub is_num : ℕ → Bool
is_num c = leb b'0' c && leb c b'9'

-- `IS_ALPHANUM`
unfoldable pub is_alphanum : ℕ → Bool
unfolding is_alpha is_num
is_alphanum c = is_alpha c || is_num c

-- `IS_URL_CHAR`
unfoldable pub is_url_char : ℕ → Bool
is_url_char c = get_or normal_url_char c 0 == 1

-- `IS_HOST_CHAR`
unfoldable pub is_host_char : ℕ → Bool
unfolding is_alphanum
is_host_char c = is_alphanum c || c == b'.' || c == b'-'

-- Reading a string up to its terminator is no fault.
pub char_at-ne-none : (s : Bytes) (i : ℕ) → i ≤ length s → char_at s i ≢ none
char_at-ne-none [] zero h = ground arith
char_at-ne-none [] (suc i) h = absurd (omega arith)
char_at-ne-none (c ∷ cs) zero h = ground arith
char_at-ne-none (c ∷ cs) (suc i) h = char_at-ne-none cs i (omega arith)

-- A byte that is not 0 stands before the terminator.
pub char_at_lt : (s : Bytes) (i : ℕ) {c : ℕ} → char_at s i ≡ some c → c ≢ 0 → i < length s
char_at_lt [] zero h ne = ground arith
char_at_lt [] (suc i) h ne = ground arith
char_at_lt (x ∷ cs) zero h ne = omega arith
char_at_lt (x ∷ cs) (suc i) h ne = omega (arith, char_at_lt cs i h ne)

-- A table whose entries are below a bound reads below it everywhere.
abbrev all_lt : Bytes → ℕ → Bool
all_lt [] n = true
all_lt (x ∷ xs) n = ltb x n && all_lt xs n

get_or-lt : (xs : Bytes) (i d n : ℕ) → all_lt xs n ≡ true → d < n → get_or xs i d < n
get_or-lt [] i d n h lt = lt
get_or-lt (x ∷ xs) zero d n h lt = ground arith
get_or-lt (x ∷ xs) (suc i) d n h lt = get_or-lt xs i d n (ground arith) lt

-- The table holds bytes.
pub unhex_value-lt : (c : ℕ) → unhex_value c < 256
unfolding unhex_value unhex
unhex_value-lt c = get_or-lt unhex c 0 256 refl (omega arith)

-- ===== src/WebServer/File.antt =====
-- example/webserver.cc: `get_file_content`, over a stream of the C++ library.
use projectmoo.Base.{
  ℕ, zero, suc, ◌+◌, Bool, true, false, ◌&&◌, ◌||◌, Option, none, some, [], ◌∷◌, ◌++◌, Bytes,
  length, leb, ◌==◌, if◌then◌else◌,
}

-- `isspace` in the C locale
abbrev pub is_space : ℕ → Bool
is_space c = c == 32 || leb 9 c && leb c 13

-- An open `ifstream`: the bytes that are left, and whether `eof()`.
pub record Stream : Type 0 where
  pub left : Bytes
  pub at_eof : Bool

abbrev pub skip_spaces : Bytes → Bytes
skip_spaces [] = []
skip_spaces (c ∷ cs) = let rest = skip_spaces cs in if is_space c then rest else c ∷ cs

-- The word at the head of some bytes, and what is behind it.
abbrev pub first_word : Bytes → Bytes
first_word [] = []
first_word (c ∷ cs) = let rest = first_word cs in if is_space c then [] else c ∷ rest

abbrev pub behind_word : Bytes → Bytes
behind_word [] = []
behind_word (c ∷ cs) = let rest = behind_word cs in if is_space c then c ∷ cs else rest

abbrev is_nil : Bytes → Bool
is_nil [] = true
is_nil (c ∷ cs) = false

-- `file >> line`: with no word left the line is not written, and the end is noticed; a word that
-- the end cuts off notices it too.
unfoldable pub extract : Stream → Bytes → Bytes × Stream
extract f line =
    let text = skip_spaces f.left in
    let rest = behind_word text in
    if f.at_eof || is_nil text
    then (line, record { left = []; at_eof = true })
    else (first_word text, record { left = rest; at_eof = is_nil rest })

-- `while(!file.eof()){ file >> line; content << line; }`, on fuel; `none` is a loop that goes on
unfoldable pub read_words : ℕ → Stream → Bytes → Bytes → Option Bytes
read_words zero f line content = none
read_words (suc fuel) f line content =
    let (line', f') = extract f line in
    elim f.at_eof [ true ↦ some content | false ↦ read_words fuel f' line' (content ++ line') ]

-- `get_file_content`, on what `open` finds under the name; with one round more than bytes
unfoldable pub get_file_content : Option Bytes → Option Bytes
get_file_content none = some []
get_file_content (some s) = read_words (length s + 2) (record { left = s; at_eof = false }) [] []

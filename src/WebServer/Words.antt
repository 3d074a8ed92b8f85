-- ===== src/WebServer/Words.antt =====
-- example/webserver.cc: what `get_file_content` makes of a file.
use mathlib.Core.List.{append-nil, append_assoc}
use projectmoo.Base.{
  ℕ, zero, suc, ◌+◌, ◌≤◌, ◌≡◌, refl, ap, ◌∙◌, inl, inr, Bool, true, false, not, some, [], ◌∷◌, ◌++◌,
  arith, Bytes, length, List-cases, if◌then◌else◌,
}
use projectmoo.WebServer.File.{
  is_space, skip_spaces, first_word, behind_word, extract, read_words, get_file_content,
}

-- The bytes that are no white space.
abbrev pub dense : Bytes → Bytes
dense [] = []
dense (c ∷ cs) = if is_space c then dense cs else c ∷ dense cs

-- The last word, after `w`; `inside` tells whether `w` goes on.
abbrev pub last_word : Bool → Bytes → Bytes → Bytes
last_word inside w [] = w
last_word inside w (c ∷ cs) =
    last_word (not (is_space c)) (if is_space c then w else if inside then w ++ c ∷ [] else c ∷ [])
      cs

-- Whether the last byte is white space; with no byte, `b`.
abbrev pub ends_in_space : Bool → Bytes → Bool
ends_in_space b [] = b
ends_in_space b (c ∷ cs) = ends_in_space (is_space c) cs

-- What is read twice: the last word, if white space follows on it.
abbrev pub repeated : Bytes → Bytes
repeated s = if ends_in_space true s then last_word false [] s else []

skip_spaces-facts :
    (s w : Bytes)
    → (dense (skip_spaces s) ≡ dense s)
      × (ends_in_space true (skip_spaces s) ≡ ends_in_space true s)
      × (last_word false w (skip_spaces s) ≡ last_word false w s)
      × (length (skip_spaces s) ≤ length s)
skip_spaces-facts [] w = ground arith
skip_spaces-facts (c ∷ cs) w = ground (arith, skip_spaces-facts cs w)

-- Behind a word there is nothing, or white space.
behind_word-facts :
    (s w : Bytes)
    → (dense s ≡ first_word s ++ dense (behind_word s))
      × (last_word true w s ≡ last_word false (w ++ first_word s) (behind_word s))
      × (length (behind_word s) ≤ length s)
behind_word-facts [] w = ground (arith, append-nil w)
behind_word-facts (c ∷ cs) w = ground (
  arith,
  append-nil w,
  behind_word-facts cs (w ++ c ∷ []),
  append_assoc w (c ∷ []) (first_word cs),
)

skip_spaces_head : (s : Bytes) {c : ℕ} {cs : Bytes} → skip_spaces s ≡ c ∷ cs → is_space c ≡ false
skip_spaces_head [] h = ground arith
skip_spaces_head (x ∷ s) {c} {cs} h = ground (arith, skip_spaces_head s {c = c} {cs = cs})

-- With a word, white space and more behind it, the end is decided behind it.
ends_in_space_behind :
    (cs : Bytes) (b : Bool) {x : ℕ} {r : Bytes}
    → behind_word cs ≡ x ∷ r
    → ends_in_space b cs ≡ ends_in_space true (x ∷ r)
ends_in_space_behind [] b h = ground arith
ends_in_space_behind (c ∷ cs) b {x} {r} h =
    ground (arith, ends_in_space_behind cs false {x = x} {r = r})

ends_in_word : (cs : Bytes) → behind_word cs ≡ [] → ends_in_space false cs ≡ false
ends_in_word [] h = refl
ends_in_word (c ∷ cs) h = ground (arith, ends_in_word cs)

-- What the loop appends, of the bytes `s` behind the word `w`.
abbrev appended : Bytes → Bytes → Bytes
appended w s = dense s ++ (if ends_in_space true s then last_word false w s else [])

appended-skip_spaces : (w s : Bytes) → appended w (skip_spaces s) ≡ appended w s
appended-skip_spaces w s = ground (arith, skip_spaces-facts s w)

read_words-eof :
    (fuel : ℕ) (w content : Bytes)
    → read_words (suc fuel) (record { left = []; at_eof = true }) w content ≡ some content
unfolding read_words
read_words-eof fuel w content = refl

-- One round, on the text behind the white space.
round_appended :
    (fuel : ℕ) (text s w content : Bytes)
    → skip_spaces s ≡ text
    → length text + 1 ≤ fuel
    → ((r v out : Bytes)
        → length r + 2 ≤ fuel
        → read_words fuel (record { left = r; at_eof = false }) v out ≡ some (out ++ appended v r))
    → read_words (suc fuel) (record { left = s; at_eof = false }) w content
      ≡ some (content ++ appended w text)
unfolding read_words extract
round_appended zero text s w content e enough ih = absurd (omega arith)
round_appended (suc fuel) [] s w content e enough ih =
    ground (arith, read_words-eof fuel w (content ++ w))
round_appended (suc fuel) (c ∷ cs) s w content e enough ih =
    let word = first_word (c ∷ cs) in
    elim (List-cases (behind_word cs)) [
      | inl over ↦ ground (
        arith,
        skip_spaces_head s {c = c} {cs = cs},
        read_words-eof fuel word (content ++ word),
        behind_word-facts cs (c ∷ []),
        ends_in_word cs,
        append-nil (first_word cs),
      )
      | inr (x, r, more) ↦
          let tail = if ends_in_space true (x ∷ r) then last_word false word (x ∷ r) else [] in
          ground (
            arith,
            skip_spaces_head s {c = c} {cs = cs},
            ih (x ∷ r) word (content ++ word),
            behind_word-facts cs (c ∷ []),
            ends_in_space_behind cs false {x = x} {r = r},
            append_assoc content word (dense (x ∷ r) ++ tail),
            append_assoc (first_word cs) (dense (x ∷ r)) tail,
          )
    ]

read_words-appended :
    (fuel : ℕ) (s w content : Bytes)
    → length s + 2 ≤ fuel
    → read_words fuel (record { left = s; at_eof = false }) w content
      ≡ some (content ++ appended w s)
read_words-appended zero s w content enough = absurd (omega arith)
read_words-appended (suc fuel) s w content enough =
    let (same, ends, last, shorter) = skip_spaces-facts s w in
    round_appended fuel (skip_spaces s) s w content refl (omega arith)
      (λ r v out small. read_words-appended fuel r v out small)
    ∙ ap (λ t. some (content ++ t)) (appended-skip_spaces w s)

-- For every file the loop of `get_file_content` ends within the rounds that it is given, and its
-- result is the file's bytes without the white space, followed by the last word once more if white
-- space stands behind it.
pub get_file_content_lem : (s : Bytes) → get_file_content (some s) ≡ some (dense s ++ repeated s)
unfolding get_file_content
get_file_content_lem s = read_words-appended (length s + 2) s [] [] (omega arith)

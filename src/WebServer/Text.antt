-- ===== src/WebServer/Text.antt =====
-- example/webserver.cc: the C++ strings that the server uses, and the file name of a request.
use projectmoo.Base.{
  ℕ, ◌+◌, ◌-◌, Bool, true, false, ◌&&◌, Option, none, some, [], ◌∷◌, Bytes, codes, length, take,
  drop, ltb, ◌==◌, if◌then◌else◌,
}

-- `std::string(const char*)`: the bytes before the first NUL.
abbrev pub c_string : Bytes → Bytes
c_string [] = []
c_string (c ∷ cs) = let rest = c_string cs in if c == 0 then [] else c ∷ rest

abbrev pub starts_with : Bytes → Bytes → Bool
starts_with [] s = true
starts_with (x ∷ pat) [] = false
starts_with (x ∷ pat) (c ∷ s) = c == x && starts_with pat s

-- An index counted from `k`.
abbrev pub shifted : ℕ → Option ℕ → Option ℕ
shifted k none = none
shifted k (some i) = some (k + i)

-- `s.find(pat)`; `none` is `string::npos`
abbrev pub find_first : Bytes → Bytes → Option ℕ
find_first pat [] = if starts_with pat [] then some 0 else none
find_first pat (c ∷ s) =
    let rest = find_first pat s in if starts_with pat (c ∷ s) then some 0 else shifted 1 rest

-- `s.find(pat, pos)`
abbrev pub find_from : Bytes → Bytes → ℕ → Option ℕ
find_from pat s pos = if ltb (length s) pos then none else shifted pos (find_first pat (drop pos s))

-- `s.substr(pos, n)`
abbrev pub substr : Bytes → ℕ → ℕ → Bytes
substr s pos n = take n (drop pos s)

-- GET_STRING and HTTP_STRING of `on_read`
abbrev pub get_string : Bytes
get_string = codes "GET /?file="

abbrev pub http_string : Bytes
http_string = codes " HTTP"

-- The file name of `on_read`, once GET_STRING was found at `pos`, by where HTTP_STRING was found.
abbrev pub name_between : Bytes → ℕ → Option ℕ → Option Bytes
name_between s pos none = none
name_between s pos (some http_pos) =
    let first = pos + length get_string in some (substr s first (http_pos - first))

-- The file name in the text of a request, in `on_read`.
unfoldable pub requested_file : Bytes → Option Bytes
requested_file s = elim (find_first get_string s) [
  | none ↦ none
  | some pos ↦ name_between s pos (find_from http_string s pos)
]

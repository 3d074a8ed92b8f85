-- ===== src/WebServer/Name.antt =====
-- example/webserver.cc: the file name that `on_read` finds in a request.
use projectmoo.Base.{
  ◌+◌, ◌-◌, ◌≡◌, refl, ap, ◌∙◌, Bool, true, not, ◌&&◌, some, [], ◌∷◌, ◌++◌, arith, Bytes, length,
  take-append, ◌==◌,
}
use projectmoo.WebServer.Text.{
  find_first, find_from, get_string, http_string, name_between, requested_file,
}

abbrev pub spaceless : Bytes → Bool
spaceless [] = true
spaceless (c ∷ cs) = not (c == b' ') && spaceless cs

-- A text with no space is passed over.
find_first-http_string :
    (name rest : Bytes)
    → spaceless name ≡ true
    → find_first http_string (name ++ (http_string ++ rest)) ≡ some (length name)
find_first-http_string [] rest h = refl
find_first-http_string (c ∷ name) rest h = ground (arith, find_first-http_string name rest)

-- Whatever follows on the version of the request: the name between the query and the version is
-- found whole, for a name with no space.
pub requested_file-request :
    (name rest : Bytes)
    → spaceless name ≡ true
    → requested_file (get_string ++ (name ++ (http_string ++ rest))) ≡ some name
unfolding requested_file
requested_file-request name rest h =
    let s = get_string ++ (name ++ (http_string ++ rest)) in
    let found : find_first http_string s ≡ some (11 + length name) =
      ground (arith, find_first-http_string name rest) in
    let from : find_from http_string s 0 ≡ some (11 + length name) = ground (arith, found) in
    let size : 11 + length name - 11 ≡ length name = omega arith in
    ap (name_between s 0) from ∙ rw size (ap some (take-append name (http_string ++ rest)))

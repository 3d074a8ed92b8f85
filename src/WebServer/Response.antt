-- ===== src/WebServer/Response.antt =====
-- example/webserver.cc: `make_http_response`.
use projectmoo.Base.{
  ℕ, zero, suc, ◌+◌, ◌/◌, ◌%◌, [], ◌∷◌, ◌++◌, Bytes, codes, length, ltb, if◌then◌else◌,
}

-- `ss << n` for an unsigned number, on fuel
unfoldable pub print_digits : ℕ → ℕ → Bytes
print_digits zero n = []
print_digits (suc fuel) n =
    let front = print_digits fuel (n / 10) in
    if ltb n 10 then (n + b'0') ∷ [] else front ++ (n % 10 + b'0') ∷ []

-- A size_t has at most 20 digits.
abbrev pub print_size : ℕ → Bytes
print_size n = print_digits 20 n

abbrev pub response_header : Bytes
response_header = codes "HTTP/1.1 200 OK\r\nContent-Type: text/html\r\nContent-Length: "

-- `make_http_response`, from the content of the file
unfoldable pub make_http_response : Bytes → Bytes
unfolding print_digits
make_http_response content =
    response_header ++ (print_size (length content) ++ (codes "\r\n\r\n" ++ content))

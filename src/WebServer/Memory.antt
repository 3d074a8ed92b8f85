-- ===== src/WebServer/Memory.antt =====
-- example/webserver.cc: texts in memory that end in NUL.
use projectmoo.Base.{
  ℕ, zero, suc, ◌+◌, ◌/◌, ◌%◌, ◌≡◌, refl, sym, ap, ◌∙◌, inl, inr, Bool, true, false, not, ◌&&◌, [],
  ◌∷◌, ◌++◌, arith, Bytes, codes, length, take, drop, take-append, leb, ◌==◌, ==_iff, Bool-cases,
}
use projectmoo.Http.Behaviour.Query.{all_url_chars}
use projectmoo.Http.Chars.{normal_url_char, is_url_char}
use projectmoo.WebServer.Handlers.{strcpy}
use projectmoo.WebServer.Name.{spaceless}
use projectmoo.WebServer.Response.{print_digits, print_size, make_http_response}
use projectmoo.WebServer.Text.{c_string}

abbrev pub no_nul : Bytes → Bool
no_nul [] = true
no_nul (c ∷ cs) = not (c == 0) && no_nul cs

pub no_nul-append : (xs ys : Bytes) → no_nul (xs ++ ys) ≡ (no_nul xs && no_nul ys)
no_nul-append [] ys = refl
no_nul-append (x ∷ xs) ys = ground (arith, no_nul-append xs ys)

pub c_string-append : (xs ys : Bytes) → no_nul xs ≡ true → c_string (xs ++ ys) ≡ xs ++ c_string ys
c_string-append [] ys h = refl
c_string-append (x ∷ xs) ys h = ground (arith, c_string-append xs ys)

-- A text with no NUL is read to its end, and behind it.
pub length-c_string : (xs : Bytes) → leb (length xs) (length (c_string xs)) ≡ no_nul xs
length-c_string [] = refl
length-c_string (x ∷ xs) = ground (arith, length-c_string xs)

pub c_string-no_nul : (xs : Bytes) → no_nul xs ≡ true → c_string xs ≡ xs
c_string-no_nul [] h = refl
c_string-no_nul (x ∷ xs) h = ground (arith, c_string-no_nul xs)

url_char_nonzero : (c : ℕ) → is_url_char c ≡ true → (c == 0) ≡ false
unfolding is_url_char normal_url_char
url_char_nonzero zero h = ground arith
url_char_nonzero (suc c) h = ground arith

pub no_nul-url : (name : Bytes) → all_url_chars name ≡ true → no_nul name ≡ true
no_nul-url [] h = refl
no_nul-url (c ∷ name) h = ground (arith, url_char_nonzero c, no_nul-url name)

url_char_dense : (c : ℕ) → is_url_char c ≡ true → (c == b' ') ≡ false
unfolding is_url_char normal_url_char
url_char_dense c h = elim (Bool-cases (c == b' ')) [
  | inl e ↦
      let same : c ≡ 32 = (==_iff c 32).0 e in
      let clash : is_url_char 32 ≡ true = ap is_url_char (sym same) ∙ h in ground arith
  | inr e ↦ e
]

pub spaceless-url : (name : Bytes) → all_url_chars name ≡ true → spaceless name ≡ true
spaceless-url [] h = refl
spaceless-url (c ∷ name) h = ground (arith, url_char_dense c, spaceless-url name)

no_nul-print_digits : (fuel n : ℕ) → no_nul (print_digits fuel n) ≡ true
unfolding print_digits
no_nul-print_digits zero n = refl
no_nul-print_digits (suc fuel) n = ground (
  arith,
  no_nul-print_digits fuel (n / 10),
  no_nul-append (print_digits fuel (n / 10)) ((n % 10 + b'0') ∷ []),
)

-- A response has a NUL only where its content has one.
pub no_nul-response :
    (content : Bytes) → no_nul content ≡ true → no_nul (make_http_response content) ≡ true
unfolding make_http_response
no_nul-response content h =
    let digits = print_size (length content) in
    ground (
      arith,
      no_nul-print_digits 20 (length content),
      no_nul-append digits (codes "\r\n\r\n" ++ content),
    )

-- `strcpy` of a text with no NUL into a block of its length.
pub strcpy_lem : (text junk : Bytes) → no_nul text ≡ true → strcpy (length text) text junk ≡ text
strcpy_lem text junk h =
    ap (λ s. take (length text) (s ++ 0 ∷ drop (length s + 1) junk)) (c_string-no_nul text h)
    ∙ take-append text (0 ∷ drop (length text + 1) junk)

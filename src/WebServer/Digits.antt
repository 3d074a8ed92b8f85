-- ===== src/WebServer/Digits.antt =====
-- example/webserver.cc: the digits of a number, printed and read.
use projectmoo.Base.{
  ℕ, zero, suc, ◌+◌, ◌-◌, ◌*◌, ◌/◌, ◌%◌, ◌≤◌, ◌<◌, ◌≡◌, refl, ap, inl, inr, true, ◌&&◌, [], ◌∷◌,
  ◌++◌, arith, Bytes, length, length-append, List-cases,
}
use projectmoo.Http.Behaviour.Lengths.{decimal, all_digits}
use projectmoo.Http.Chars.{is_num}
use projectmoo.WebServer.Response.{print_digits}

-- 10 to the power of a number of digits.
abbrev pub ten_pow : ℕ → ℕ
ten_pow zero = 1
ten_pow (suc k) = 10 * ten_pow k

decimal-append :
    (a : ℕ) (xs : Bytes) (c : ℕ) → decimal a (xs ++ c ∷ []) ≡ decimal a xs * 10 + (c - b'0')
decimal-append a [] c = refl
decimal-append a (x ∷ xs) c = decimal-append (a * 10 + (x - b'0')) xs c

-- A printed number is read back.
pub decimal-print_digits : (fuel n : ℕ) → n < ten_pow fuel → decimal 0 (print_digits fuel n) ≡ n
unfolding print_digits
decimal-print_digits zero n h = omega arith
decimal-print_digits (suc fuel) n h =
    let front = print_digits fuel (n / 10) in
    ground (arith, decimal-print_digits fuel (n / 10), decimal-append 0 front (n % 10 + b'0'))

all_digits-append : (xs ys : Bytes) → all_digits (xs ++ ys) ≡ (all_digits xs && all_digits ys)
all_digits-append [] ys = refl
all_digits-append (x ∷ xs) ys = ground (arith, all_digits-append xs ys)

digit_char : (n : ℕ) → n < 10 → is_num (n + b'0') ≡ true
unfolding is_num
digit_char n h = ground arith

pub all_digits-print_digits : (fuel n : ℕ) → all_digits (print_digits fuel n) ≡ true
unfolding print_digits
all_digits-print_digits zero n = refl
all_digits-print_digits (suc fuel) n =
    let front = print_digits fuel (n / 10) in
    ground (
      arith,
      all_digits-print_digits fuel (n / 10),
      digit_char n,
      digit_char (n % 10),
      all_digits-append front ((n % 10 + b'0') ∷ []),
    )

pub length-print_digits : (fuel n : ℕ) → length (print_digits fuel n) ≤ fuel
unfolding print_digits
length-print_digits zero n = omega arith
length-print_digits (suc fuel) n = ground (
  arith,
  length-print_digits fuel (n / 10),
  length-append (print_digits fuel (n / 10)) ((n % 10 + b'0') ∷ []),
)

print_digits-pos : (fuel n : ℕ) → 0 < length (print_digits (suc fuel) n)
unfolding print_digits
print_digits-pos fuel n =
    let front = print_digits fuel (n / 10) in
    ground (arith, length-append front ((n % 10 + b'0') ∷ []))

-- A number has a first digit.
pub print_digits-cons : (fuel n : ℕ) → (c : ℕ) × (cs : Bytes) × (print_digits (suc fuel) n ≡ c ∷ cs)
print_digits-cons fuel n = elim (List-cases (print_digits (suc fuel) n)) [
  | inl none_left ↦ absurd (omega (arith, print_digits-pos fuel n, ap length none_left))
  | inr (c, cs, e) ↦ (c, cs, e)
]

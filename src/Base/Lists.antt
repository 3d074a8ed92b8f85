-- ===== src/Base/Lists.antt =====
-- Lists measured and indexed by native numbers, under the library's names.
use Prim.Native.Nat.{ℕ, zero, suc, ◌+◌, ◌-◌, ◌≤◌, ◌<◌}
use mathlib.Core.Path.{◌≡◌, refl, sym, ap, ◌∙◌}
use mathlib.Core.List.{List, [], ◌∷◌, ◌++◌}
use mathlib.Core.Logic.{◌⊎◌, inl, inr}
use mathlib.Core.Option.{Option, none, some}
use native.Mathlib.Omega.{arith}
use native.Mathlib.Numerals.{add-one}
use Prim.Native.Char.{code}
use Prim.Native.String.{String}

-- A byte string.
abbrev pub Bytes : Type 0
Bytes = List ℕ

-- The bytes of an ASCII text.
abbrev pub codes : String → Bytes
codes String.[] = []
codes (String.◌∷◌ c s) = code c ∷ codes s

module _ {ℓ} {A : Type ℓ} where
  abbrev pub length : List A → ℕ
  length [] = 0
  length (x ∷ xs) = suc (length xs)

  abbrev pub get_elem? : List A → ℕ → Option A
  get_elem? [] i = none
  get_elem? (x ∷ xs) zero = some x
  get_elem? (x ∷ xs) (suc i) = get_elem? xs i

  abbrev pub get_or : List A → ℕ → A → A
  get_or [] i d = d
  get_or (x ∷ xs) zero d = x
  get_or (x ∷ xs) (suc i) d = get_or xs i d

  abbrev pub take : ℕ → List A → List A
  take zero xs = []
  take (suc n) [] = []
  take (suc n) (x ∷ xs) = x ∷ take n xs

  abbrev pub drop : ℕ → List A → List A
  drop zero xs = xs
  drop (suc n) [] = []
  drop (suc n) (x ∷ xs) = drop n xs

  pub length-append : (xs ys : List A) → length (xs ++ ys) ≡ length xs + length ys
  length-append [] ys = omega arith
  length-append (x ∷ xs) ys = omega (arith, length-append xs ys)

  -- An index with an element is in range.
  pub get_elem?_lt : (xs : List A) (i : ℕ) {a : A} → get_elem? xs i ≡ some a → i < length xs
  get_elem?_lt [] i h = ground arith
  get_elem?_lt (x ∷ xs) zero h = omega arith
  get_elem?_lt (x ∷ xs) (suc i) h = omega (arith, get_elem?_lt xs i h)

  -- An index with no element is out of range.
  pub get_elem?_ge : (xs : List A) (i : ℕ) → get_elem? xs i ≡ none → length xs ≤ i
  get_elem?_ge [] i h = omega arith
  get_elem?_ge (x ∷ xs) zero h = ground arith
  get_elem?_ge (x ∷ xs) (suc i) h = omega (arith, get_elem?_ge xs i h)

  pub take-length : (xs : List A) → take (length xs) xs ≡ xs
  take-length [] = refl
  take-length (x ∷ xs) = ap (◌∷◌ x) (take-length xs)

  pub take-append : (xs ys : List A) → take (length xs) (xs ++ ys) ≡ xs
  take-append [] ys = refl
  take-append (x ∷ xs) ys = ap (◌∷◌ x) (take-append xs ys)

  pub get_elem?-length : (xs : List A) → get_elem? xs (length xs) ≡ none
  get_elem?-length [] = refl
  get_elem?-length (x ∷ xs) = get_elem?-length xs

  -- The element at an index heads what is behind it.
  pub drop_cons :
      (xs : List A) (i : ℕ) {c : A} {cs : List A}
      → drop i xs ≡ c ∷ cs
      → (get_elem? xs i ≡ some c) × (drop (i + 1) xs ≡ cs)
  drop_cons [] zero h = ground arith
  drop_cons [] (suc i) h = ground arith
  drop_cons (x ∷ xs) zero h = ground arith
  drop_cons (x ∷ xs) (suc i) h =
      let (at, behind) = drop_cons xs i h in
      (at, rw (add-one (suc i)) (ap (λ j. drop j xs) (sym (add-one i)) ∙ behind))

  pub drop_nil : (xs : List A) (i : ℕ) → drop i xs ≡ [] → get_elem? xs i ≡ none
  drop_nil [] i h = refl
  drop_nil (x ∷ xs) zero h = ground arith
  drop_nil (x ∷ xs) (suc i) h = drop_nil xs i h

  pub length-drop : (xs : List A) (i : ℕ) → length (drop i xs) ≡ length xs - i
  length-drop xs zero = omega arith
  length-drop [] (suc i) = omega arith
  length-drop (x ∷ xs) (suc i) = omega (arith, length-drop xs i)

  -- What is behind a list that comes next.
  pub drop_behind :
      (input : List A) (i : ℕ) (xs ys : List A)
      → drop i input ≡ xs ++ ys
      → drop (i + length xs) input ≡ ys
  drop_behind input i [] ys e = ap (λ k. drop k input) (omega arith) ∙ e
  drop_behind input i (x ∷ xs) ys e =
      let (_, e') = drop_cons input i e in
      ap (λ k. drop k input) (omega arith) ∙ drop_behind input (i + 1) xs ys e'

  pub List-cases : (xs : List A) → (xs ≡ []) ⊎ ((a : A) × (rest : List A) × (xs ≡ a ∷ rest))
  List-cases [] = inl refl
  List-cases (x ∷ xs) = inr (x, xs, refl)

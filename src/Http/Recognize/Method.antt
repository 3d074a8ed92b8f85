-- ===== src/Http/Recognize/Method.antt =====
-- http_parser.c: the words that s_start_req and s_req_method take for a method.
use native.Mathlib.Numerals.{add-one}
use mathlib.Core.Path.{subst}
use mathlib.Core.List.{append-nil, append_assoc}
use projectmoo.Base.{
  ℕ, zero, suc, ◌≤◌, ◌≡◌, refl, sym, ap, ◌∙◌, ◌≢◌, ◌↔◌, inl, inr, Bool, true, false, not, ◌&&◌,
  Option, none, some, [], ◌∷◌, ◌++◌, arith, Bytes, length, take, ◌==◌, if◌then◌else◌, Bool-cases,
}
use projectmoo.Http.Chars.{char_at, char_at_lt}
use projectmoo.Http.Frame.{Frame, Flow, next, halt}
use projectmoo.Http.Methods.{method_strings, length-method_strings-le}
use projectmoo.Http.Request.{other_method, match_method, step_req_method}
use projectmoo.Http.Response.{start_req_method_assign}
use projectmoo.Http.Types.{
  Method, http_delete, http_connect, http_mkcol, State, s_req_method, s_req_spaces_before_url,
  Settings,
}

abbrev pub in_method : State → Bool
in_method s_req_method = true
in_method _ = false

abbrev pub method_done : State → Bool
method_done s_req_spaces_before_url = true
method_done _ = false

module _ {W : Type 0} where
  -- The method that the parser holds when these bytes have taken it behind the method; `none` if
  -- it is still within the method, was behind it before the last byte, or has met an error.
  pub scan : Bytes → Flow W → Option Method
  scan [] (next g) = if method_done g.state then some g.parser.method else none
  scan (c ∷ cs) (next g) =
      let rest = scan cs (step_req_method c g) in if in_method g.state then rest else none
  scan cs (halt o) = none

  -- The same from the first byte of a method.
  pub recognise : Settings W → Frame W → Bytes → Option Method
  recognise settings f [] = none
  recognise settings f (c ∷ cs) = scan cs (start_req_method_assign settings c f)

  -- What has been read is the beginning of the name tried so far, or that name and a space.
  abbrev Spelled : Bytes → Flow W → Type 0
  Spelled read (next g) =
      (g.state ≡ s_req_method
        → (read ≡ take g.index (method_strings g.parser.method))
          × (g.index ≤ length (method_strings g.parser.method)))
      × (g.state ≡ s_req_spaces_before_url → read ≡ method_strings g.parser.method ++ b' ' ∷ [])
  Spelled read (halt o) = Unit

method_done-eq : (s : State) → method_done s ≡ true → s ≡ s_req_spaces_before_url
method_done-eq s_req_spaces_before_url h = refl
method_done-eq _ h = ground arith

in_method-eq : (s : State) → in_method s ≡ true → s ≡ s_req_method
in_method-eq s_req_method h = refl
in_method-eq _ h = ground arith

abbrev all_nonzero : Bytes → Bool
all_nonzero [] = true
all_nonzero (c ∷ cs) = not (c == 0) && all_nonzero cs

method_strings_nonzero : (m : Method) → all_nonzero (method_strings m) ≡ true
unfolding method_strings
method_strings_nonzero http_delete = refl
method_strings_nonzero _ = refl

take-suc-char_at :
    (s : Bytes) (i : ℕ) {c : ℕ} → char_at s i ≡ some c → c ≢ 0 → take (suc i) s ≡ take i s ++ c ∷ []
take-suc-char_at [] zero e ne = ground arith
take-suc-char_at [] (suc i) e ne = ground arith
take-suc-char_at (x ∷ s) zero e ne = ground arith
take-suc-char_at (x ∷ s) (suc i) e ne = ap (◌∷◌ x) (take-suc-char_at s i e ne)

take-char_at_zero : (s : Bytes) (i : ℕ) → char_at s i ≡ some 0 → all_nonzero s ≡ true → take i s ≡ s
take-char_at_zero [] zero e h = refl
take-char_at_zero [] (suc i) e h = refl
take-char_at_zero (x ∷ s) zero e h = ground arith
take-char_at_zero (x ∷ s) (suc i) e h = ap (◌∷◌ x) (take-char_at_zero s i e (ground arith))

module _ {W : Type 0} where
  assign_Spelled :
      (settings : Settings W) (c : ℕ) (f : Frame W)
      → Spelled (c ∷ []) (start_req_method_assign settings c f)
  unfolding start_req_method_assign method_strings
  assign_Spelled settings c f = ground arith

  other_method-Spelled :
      (m : Method) (c : ℕ) (g : Frame W) (read : Bytes)
      → g.state ≡ s_req_method
      → read ≡ take g.index (method_strings m)
      → Spelled (read ++ c ∷ []) (other_method m c g)
  unfolding other_method method_strings
  other_method-Spelled http_connect c g read at e = ground arith
  other_method-Spelled http_mkcol c g read at e = ground arith
  other_method-Spelled _ c g read at e = ground arith

  match_method-Spelled :
      (o : Option ℕ) (c : ℕ) (g : Frame W) (read : Bytes)
      → g.state ≡ s_req_method
      → c ≢ 0
      → char_at (method_strings g.parser.method) g.index ≡ o
      → read ≡ take g.index (method_strings g.parser.method)
      → g.index ≤ length (method_strings g.parser.method)
      → Spelled (read ++ c ∷ []) (match_method o c g)
  unfolding match_method
  match_method-Spelled none c g read at ne e spelled within = tt
  match_method-Spelled (some x) c g read at ne e spelled within =
      let name = method_strings g.parser.method in
      ground (
        arith,
        char_at_lt name g.index e,
        take-suc-char_at name g.index e,
        take-char_at_zero name g.index,
        method_strings_nonzero g.parser.method,
        length-method_strings-le g.parser.method,
        add-one g.index,
        other_method-Spelled g.parser.method c g read at spelled,
      )

  step_req_method-Spelled :
      (c : ℕ) (g : Frame W) (read : Bytes)
      → g.state ≡ s_req_method
      → Spelled read (next g)
      → Spelled (read ++ c ∷ []) (step_req_method c g)
  unfolding step_req_method
  step_req_method-Spelled c g read at h = ground (
    arith,
    match_method-Spelled (char_at (method_strings g.parser.method) g.index) c g read at,
    h.0 at,
  )

  scan_sound :
      (cs : Bytes) (fl : Flow W) (read : Bytes) {m : Method}
      → Spelled read fl
      → scan cs fl ≡ some m
      → read ++ cs ≡ method_strings m ++ b' ' ∷ []
  unfolding scan
  scan_sound [] (next g) read h e = ground (arith, append-nil read, method_done-eq g.state)
  scan_sound (c ∷ cs) (next g) read {m} h e = elim (Bool-cases (in_method g.state)) [
    | inl within ↦
        let spelled = step_req_method-Spelled c g read (in_method-eq g.state within) h in
        let scanned : scan cs (step_req_method c g) ≡ some m = ground arith in
        sym (append_assoc read (c ∷ []) cs)
        ∙ scan_sound cs (step_req_method c g) (read ++ c ∷ []) spelled scanned
    | inr beyond ↦ ground arith
  ]
  scan_sound [] (halt o) read h e = ground arith
  scan_sound (c ∷ cs) (halt o) read h e = ground arith

  recognise_name :
      (settings : Settings W) (f : Frame W) (m : Method)
      → recognise settings f (method_strings m ++ b' ' ∷ []) ≡ some m
  unfolding recognise scan start_req_method_assign step_req_method match_method other_method
      method_strings
  recognise_name settings f http_delete = refl
  recognise_name settings f _ = refl

  recognise_of_eq :
      (settings : Settings W) (f : Frame W) (bytes : Bytes) (m : Method)
      → bytes ≡ method_strings m ++ b' ' ∷ []
      → recognise settings f bytes ≡ some m
  recognise_of_eq settings f bytes m e =
      subst (λ b. recognise settings f b ≡ some m) (sym e) (recognise_name settings f m)

  -- For any callbacks and any state of the variables: reading from the first byte of a method, the
  -- bytes that take the parser to the spaces before the URL with method `m` are exactly the name of
  -- `m` in `method_strings` and one space.
  pub recognise_iff :
      (settings : Settings W) (f : Frame W) (bytes : Bytes) (m : Method)
      → (recognise settings f bytes ≡ some m) ↔ (bytes ≡ method_strings m ++ b' ' ∷ [])
  unfolding recognise
  recognise_iff settings f [] m = (λ e. ground arith, recognise_of_eq settings f [] m)
  recognise_iff settings f (c ∷ cs) m = (
    scan_sound cs (start_req_method_assign settings c f) (c ∷ []) (assign_Spelled settings c f),
    recognise_of_eq settings f (c ∷ cs) m,
  )

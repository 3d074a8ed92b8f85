-- ===== src/Http/Runs.antt =====
-- Runs of the loop of `http_parser_execute` (http_parser.c) over bytes that are read one a round, one
-- run after another.
use mathlib.Core.List.{append_assoc}
use mathlib.Core.Path.{subst}
use projectmoo.Base.{
  ℕ, ◌+◌, ◌≤◌, ◌<◌, ◌≡◌, refl, ap, ◌∙◌, inl, inr, Option, none, some, [], ◌∷◌, ◌++◌, arith, Bytes,
  length, drop, length-append, drop_cons, ◌==◌, if◌then◌else◌, Option-cases,
}
use projectmoo.Http.Chars.{cr, lf, is_url_char}
use projectmoo.Http.Execute.{step_in, round, loop}
use projectmoo.Http.Frame.{Frame, next}
use projectmoo.Http.Header.{step_header_field_start}
use projectmoo.Http.Request.{
  step_req_http_start, step_req_http_h, step_req_http_ht, step_req_http_htt, step_req_http_http,
  step_req_http_major, step_req_http_minor, step_req_line_almost_done,
}
use projectmoo.Http.Rounds.{loop_next}
use projectmoo.Http.Types.{
  State, s_dead, s_req_query_string, s_req_http_start, s_req_http_h, s_req_http_ht, s_req_http_htt,
  s_req_http_http, s_req_first_http_major, s_req_http_major, s_req_first_http_minor,
  s_req_http_minor, s_req_line_almost_done, s_header_field_start, s_headers_almost_done,
  http_max_header_size, Settings, state_code, parsing_header,
}
use projectmoo.Http.Url.{step_req_query_string}

-- The states that such a byte leads through, when nothing else changes.
abbrev pub plain_step : State → ℕ → Option State
plain_step s_req_query_string c = if is_url_char c then some s_req_query_string else none
plain_step s_req_http_start c = if c == b'H' then some s_req_http_h else none
plain_step s_req_http_h c = if c == b'T' then some s_req_http_ht else none
plain_step s_req_http_ht c = if c == b'T' then some s_req_http_htt else none
plain_step s_req_http_htt c = if c == b'P' then some s_req_http_http else none
plain_step s_req_http_http c = if c == b'/' then some s_req_first_http_major else none
plain_step s_req_http_major c = if c == b'.' then some s_req_first_http_minor else none
plain_step s_req_http_minor c = if c == cr then some s_req_line_almost_done else none
plain_step s_req_line_almost_done c = if c == lf then some s_header_field_start else none
plain_step s_header_field_start c = if c == cr then some s_headers_almost_done else none
plain_step _ c = none

abbrev pub walk : State → Bytes → Option State
walk s [] = some s
walk s (c ∷ cs) = elim (plain_step s c) [ none ↦ none | some s' ↦ walk s' cs ]

module _ {W : Type 0} (settings : Settings W) (input : Bytes) where
  -- Wherever these bytes come next, the loop reads them on the variables `f` and goes on with `g`.
  abbrev pub Runs : Bytes → Frame W → Frame W → Type 0
  Runs cs f g =
      (rest : Bytes) (fuel : ℕ)
      → drop f.p input ≡ cs ++ rest
      → (loop settings input (length cs + fuel) f ≡ loop settings input fuel g)
        × (drop g.p input ≡ rest)

  pub Runs-one :
      (c : ℕ) (f g : Frame W)
      → round settings input c f ≡ next g
      → g.p ≡ f.p
      → Runs (c ∷ []) f (record g { p = f.p + 1 })
  Runs-one c f g e same rest fuel behind =
      let (here, behind') = drop_cons input f.p behind in
      (
        ap (λ k. loop settings input k f) (omega arith)
            ∙ loop_next settings input fuel f here e
            ∙ ap (λ k. loop settings input fuel (record g { p = k + 1 })) same,
        behind',
      )

  pub Runs-append :
      (xs ys : Bytes) (f g h : Frame W) → Runs xs f g → Runs ys g h → Runs (xs ++ ys) f h
  Runs-append xs ys f g h first second rest fuel behind =
      let (e, behind') = first (ys ++ rest) (length ys + fuel) (behind ∙ append_assoc xs ys rest) in
      let (e', behind'') = second rest fuel behind' in
      (ap (λ k. loop settings input k f) (omega (arith, length-append xs ys)) ∙ e ∙ e', behind'')

  plain_round :
      (s : State) (c : ℕ) (f : Frame W) {s' : State}
      → f.state ≡ s
      → plain_step s c ≡ some s'
      → f.nread < http_max_header_size
      → round settings input c f ≡ next (record f { state = s'; nread = f.nread + 1 })
  unfolding round step_in parsing_header state_code step_req_query_string step_req_http_start
      step_req_http_h step_req_http_ht step_req_http_htt step_req_http_http step_req_http_major
      step_req_http_minor step_req_line_almost_done step_header_field_start
  plain_round s_dead c f at e few = ground arith
  plain_round _ c f at e few = ground arith

  pub Runs-walk :
      (cs : Bytes) (f : Frame W) {s : State}
      → walk f.state cs ≡ some s
      → f.nread + length cs ≤ http_max_header_size
      → Runs cs f (record f { state = s; nread = f.nread + length cs; p = f.p + length cs })
  Runs-walk [] f e few = λ rest fuel behind. (ground arith, ground arith)
  Runs-walk (c ∷ cs) f {s} e few = elim (Option-cases (plain_step f.state c)) [
    | inl stuck ↦ ground arith
    | inr (s', step) ↦
        let g = record f { state = s'; nread = f.nread + 1; p = f.p + 1 } in
        let h = record g { state = s; nread = g.nread + length cs; p = g.p + length cs } in
        let end = record f {
          state = s;
          nread = f.nread + length (c ∷ cs);
          p = f.p + length (c ∷ cs);
        } in
        let same : h ≡ end = ground arith in
        subst (λ k. Runs (c ∷ cs) f k) same
          (Runs-append (c ∷ []) cs f g h
            (Runs-one c f (record g { p = f.p }) (plain_round f.state c f refl step (omega arith))
              refl)
            (Runs-walk cs g (ground arith) (omega arith)))
  ]

-- ===== src/Http/Invariant/Request.antt =====
-- http_parser.c: the states of Http/Request and Http/Response that begin a message, and those that read a method,
-- and the invariant.
use projectmoo.Base.{ℕ, ◌<◌, ◌≡◌, refl, ◌≢◌, not, Option, none, some, arith, ◌==◌, if◌then◌else◌}
use projectmoo.Http.Chars.{char_at, is_alpha, char_at-ne-none, char_at_lt}
use projectmoo.Http.Frame.{Frame, Flow, minus_one, goto, fail}
use projectmoo.Http.Invariant.{Inv, Sound, Calm, notify-Sound}
use projectmoo.Http.Methods.{method_strings, length-method_strings-le}
use projectmoo.Http.Request.{step_start_req, other_method, match_method, step_req_method}
use projectmoo.Http.Response.{
  begin_message, start_req_method_assign, step_start_req_or_res, step_start_res,
}
use projectmoo.Http.Types.{
  http_request, Method, http_connect, hpe_cb_message_begin, hpe_invalid_method, s_start_req_or_res,
  s_res_or_resp_h, s_start_res, s_start_req, s_req_method, no_flags, Settings,
}

module _ {W : Type 0} (settings : Settings W) (len : ℕ) where
  start_req_method_assign-Sound :
      (ch : ℕ) (f : Frame W)
      → Calm f
      → f.p < len
      → Sound len f.p (start_req_method_assign settings ch f)
  unfolding start_req_method_assign method_strings
  start_req_method_assign-Sound ch f h within = ground arith

  begin_message-Sound :
      (f : Frame W) (rest : Frame W → Flow W)
      → Calm f
      → f.p < len
      → ((g : Frame W) → Calm g → g.p ≡ f.p → g.state ≡ f.state → Sound len f.p (rest g))
      → Sound len f.p (begin_message settings f rest)
  unfolding begin_message
  begin_message-Sound f rest h within next_part =
      let q = f.parser in
      let g = record f { parser = record q { flags = no_flags; content_length = minus_one } } in
      notify-Sound len settings.on_message_begin hpe_cb_message_begin g rest refl (omega arith)
        within (λ w. next_part (record g { world = w }) (ground arith) refl refl)

  pub step_start_req-Sound :
      (ch : ℕ) (f : Frame W)
      → Inv 1 f
      → f.p < len
      → f.state ≡ s_start_req
      → Sound len f.p (step_start_req settings ch f)
  unfolding step_start_req
  step_start_req-Sound ch f h within at = ground (
    arith,
    begin_message-Sound f
        (λ (g : Frame W).
          if not (is_alpha ch)
          then fail hpe_invalid_method g
          else start_req_method_assign settings ch g)
        (ground arith) within
        (λ g calm e e'. ground (arith, start_req_method_assign-Sound ch g calm)),
  )

  pub step_start_req_or_res-Sound :
      (ch : ℕ) (f : Frame W)
      → Inv 1 f
      → f.p < len
      → f.state ≡ s_start_req_or_res
      → Sound len f.p (step_start_req_or_res settings ch f)
  unfolding step_start_req_or_res
  step_start_req_or_res-Sound ch f h within at = ground (
    arith,
    begin_message-Sound f
        (λ (g : Frame W).
          if ch == b'H'
          then goto s_res_or_resp_h g
          else let q = g.parser in
            start_req_method_assign settings ch
              (record g { parser = record q { type = http_request } }))
        (ground arith) within
        (λ g calm e e'.
          let q = g.parser in
          ground (
            arith,
            start_req_method_assign-Sound ch
                (record g { parser = record q { type = http_request } }) (ground arith),
          )),
  )

  pub step_start_res-Sound :
      (ch : ℕ) (f : Frame W)
      → Inv 1 f
      → f.p < len
      → f.state ≡ s_start_res
      → Sound len f.p (step_start_res settings ch f)
  unfolding step_start_res
  step_start_res-Sound ch f h within at =
      begin_message-Sound f _ (ground arith) within (λ g calm e e'. ground arith)

  other_method-Sound :
      (m : Method) (ch : ℕ) (f : Frame W)
      → Inv 1 f
      → f.p < len
      → f.state ≡ s_req_method
      → f.parser.method ≡ m
      → Sound len f.p (other_method m ch f)
  unfolding other_method method_strings
  other_method-Sound http_connect ch f h within at e = ground arith
  other_method-Sound _ ch f h within at e = ground arith

  match_method-Sound :
      (o : Option ℕ) (ch : ℕ) (f : Frame W)
      → Inv 1 f
      → f.p < len
      → f.state ≡ s_req_method
      → ch ≢ 0
      → char_at (method_strings f.parser.method) f.index ≡ o
      → Sound len f.p (match_method o ch f)
  unfolding match_method
  match_method-Sound none ch f h within at ne e =
      absurd (char_at-ne-none (method_strings f.parser.method) f.index (h.method_index at) e)
  match_method-Sound (some expected) ch f h within at ne e = ground (
    arith,
    char_at_lt (method_strings f.parser.method) f.index e,
    length-method_strings-le f.parser.method,
    other_method-Sound f.parser.method ch f h within at refl,
  )

  pub step_req_method-Sound :
      (ch : ℕ) (f : Frame W)
      → Inv 1 f
      → f.p < len
      → f.state ≡ s_req_method
      → Sound len f.p (step_req_method ch f)
  unfolding step_req_method
  step_req_method-Sound ch f h within at = ground (
    arith,
    match_method-Sound (char_at (method_strings f.parser.method) f.index) ch f h within at,
  )

-- ===== src/Http/Split/Request.antt =====
-- http_parser.c: the states that begin a message, and those of a method.
use projectmoo.Base.{ℕ, not, Option, none, some, arith, ◌==◌, if◌then◌else◌}
use projectmoo.Http.Chars.{char_at, is_alpha}
use projectmoo.Http.Frame.{Frame, Flow, minus_one, goto, fail}
use projectmoo.Http.Methods.{method_strings}
use projectmoo.Http.Request.{step_start_req, other_method, match_method, step_req_method}
use projectmoo.Http.Response.{
  begin_message, start_req_method_assign, step_start_req_or_res, step_start_res,
}
use projectmoo.Http.Split.{IsQuiet, Alike, SameFlow, notify-SameFlow}
use projectmoo.Http.Types.{
  http_request, Method, http_connect, hpe_cb_message_begin, hpe_invalid_method, s_res_or_resp_h,
  no_flags, Settings,
}

as_request : {W : Type 0} → Frame W → Frame W
as_request h = let q = h.parser in record h { parser = record q { type = http_request } }

module _ {W : Type 0} (settings : Settings W) (quiet : IsQuiet settings) {k : ℕ} where
  start_req_method_assign-SameFlow :
      (ch : ℕ) (f g : Frame W)
      → Alike k f g
      → SameFlow k (start_req_method_assign settings ch f) (start_req_method_assign settings ch g)
  unfolding start_req_method_assign
  start_req_method_assign-SameFlow ch f g a = ground arith

  begin_message-SameFlow :
      (f g : Frame W) (rest : Frame W → Flow W)
      → Alike k f g
      → ((h h' : Frame W) → Alike k h h' → SameFlow k (rest h) (rest h'))
      → SameFlow k (begin_message settings f rest) (begin_message settings g rest)
  unfolding begin_message
  begin_message-SameFlow f g rest a then_on =
      let q = f.parser in
      let r = g.parser in
      let f' = record f { parser = record q { flags = no_flags; content_length = minus_one } } in
      let g' = record g { parser = record r { flags = no_flags; content_length = minus_one } } in
      notify-SameFlow settings.on_message_begin hpe_cb_message_begin f' g' rest rest
        quiet.begin_blind (ground arith)
        (λ w. then_on (record f' { world = w }) (record g' { world = w }) (ground arith))

  pub step_start_req-SameFlow :
      (ch : ℕ) (f g : Frame W)
      → Alike k f g
      → SameFlow k (step_start_req settings ch f) (step_start_req settings ch g)
  unfolding step_start_req
  step_start_req-SameFlow ch f g a =
      let rest : Frame W → Flow W = λ h.
        if not (is_alpha ch)
        then fail hpe_invalid_method h
        else start_req_method_assign settings ch h in
      ground (
        arith,
        begin_message-SameFlow f g rest a
            (λ h h' b. ground (arith, start_req_method_assign-SameFlow ch h h' b)),
      )

  pub step_start_req_or_res-SameFlow :
      (ch : ℕ) (f g : Frame W)
      → Alike k f g
      → SameFlow k (step_start_req_or_res settings ch f) (step_start_req_or_res settings ch g)
  unfolding step_start_req_or_res as_request
  step_start_req_or_res-SameFlow ch f g a =
      let rest : Frame W → Flow W = λ h.
        if ch == b'H'
        then goto s_res_or_resp_h h
        else start_req_method_assign settings ch (as_request h) in
      ground (
        arith,
        begin_message-SameFlow f g rest a (λ h h' b. ground (
          arith,
          start_req_method_assign-SameFlow ch (as_request h) (as_request h') (ground arith),
        )),
      )

  pub step_start_res-SameFlow :
      (ch : ℕ) (f g : Frame W)
      → Alike k f g
      → SameFlow k (step_start_res settings ch f) (step_start_res settings ch g)
  unfolding step_start_res
  step_start_res-SameFlow ch f g a = begin_message-SameFlow f g _ a (λ h h' b. ground arith)

  other_method-SameFlow :
      (m : Method) (ch : ℕ) (f g : Frame W)
      → Alike k f g
      → SameFlow k (other_method m ch f) (other_method m ch g)
  unfolding other_method
  other_method-SameFlow http_connect ch f g a = ground arith
  other_method-SameFlow _ ch f g a = ground arith

  match_method-SameFlow :
      (o : Option ℕ) (ch : ℕ) (f g : Frame W)
      → Alike k f g
      → SameFlow k (match_method o ch f) (match_method o ch g)
  unfolding match_method
  match_method-SameFlow none ch f g a = tt
  match_method-SameFlow (some x) ch f g a =
      ground (arith, other_method-SameFlow f.parser.method ch f g a)

  pub step_req_method-SameFlow :
      (ch : ℕ) (f g : Frame W)
      → Alike k f g
      → SameFlow k (step_req_method ch f) (step_req_method ch g)
  unfolding step_req_method
  step_req_method-SameFlow ch f g a =
      ground
        (arith, match_method-SameFlow (char_at (method_strings f.parser.method) f.index) ch f g a)

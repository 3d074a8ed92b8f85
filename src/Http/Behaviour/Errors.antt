-- ===== src/Http/Behaviour/Errors.antt =====
-- http_parser.c: calls of `http_parser_execute` at the end of the stream.
use projectmoo.Base.{
  ℕ, ◌≡◌, refl, ◌≢◌, true, false, Option, none, some, [], arith, ◌==◌, if◌then◌else◌,
}
use projectmoo.Http.Execute.{
  initial_frame, return_zero, execute_eof, http_parser_execute, execute_nil,
}
use projectmoo.Http.Frame.{Outcome, returned, next, notify}
use projectmoo.Http.Invariant.Calls.{at_boundary}
use projectmoo.Http.Types.{
  hpe_ok, hpe_cb_message_complete, hpe_invalid_eof_state, State, s_body_identity_eof, Parser,
  Settings,
}

module _ {W : Type 0} where
  -- What on_message_complete makes of the end of a stream.
  abbrev pub completed_at_eof : Option (Parser → W → ℕ × W) → Parser → W → Outcome W
  completed_at_eof none q w = returned q w 0
  completed_at_eof (some cb) q w =
      let (rc, w') = cb q w in
      returned (if rc == 0 then q else record q { http_errno = hpe_cb_message_complete }) w' 0

  completed :
      (cb : Option (Parser → W → ℕ × W)) (q : Parser) (w : W)
      → return_zero (notify cb hpe_cb_message_complete (initial_frame q w) next)
        ≡ completed_at_eof cb q w
  unfolding notify
  completed none q w = refl
  completed (some cb) q w = ground arith

module _ {W : Type 0} (settings : Settings W) where
  execute_eof_cases :
      (s : State) (q : Parser) (w : W)
      → let call = execute_eof settings s q w in
        (at_boundary s ≡ true → call ≡ returned q w 0)
        × (s ≡ s_body_identity_eof → call ≡ completed_at_eof settings.on_message_complete q w)
        × (at_boundary s ≡ false
            → s ≢ s_body_identity_eof
            → call ≡ returned (record q { http_errno = hpe_invalid_eof_state }) w 1)
  unfolding execute_eof
  execute_eof_cases s_body_identity_eof q w =
      (λ b. cc, λ e. completed settings.on_message_complete q w, λ b ne. absurd (ne refl))
  execute_eof_cases _ q w = ground arith

  -- The end of the stream, told by a call on no bytes to a parser without an error. Between two
  -- messages it changes nothing. In a body that is read up to it on_message_complete is called, and 0
  -- is returned with its verdict. In any other state it is the error HPE_INVALID_EOF_STATE, no
  -- callback is called, and 1 is returned.
  pub execute_eof_lem :
      (q : Parser) (w : W)
      → q.http_errno ≡ hpe_ok
      → let call = http_parser_execute settings [] q w in
        (at_boundary q.state ≡ true → call ≡ returned q w 0)
        × (q.state ≡ s_body_identity_eof → call ≡ completed_at_eof settings.on_message_complete q w)
        × (at_boundary q.state ≡ false
            → q.state ≢ s_body_identity_eof
            → call ≡ returned (record q { http_errno = hpe_invalid_eof_state }) w 1)
  execute_eof_lem q w ok = rw (execute_nil settings q w ok) (execute_eof_cases q.state q w)

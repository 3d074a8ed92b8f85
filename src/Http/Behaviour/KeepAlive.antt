-- ===== src/Http/Behaviour/KeepAlive.antt =====
-- http_parser.c: a connection behind its last message.
use projectmoo.Base.{
  ℕ, suc, ◌<◌, ◌≡◌, refl, ap, ◌∙◌, false, Option, none, some, [], ◌∷◌, arith, Bytes, length,
}
use projectmoo.Http.Behaviour.Bodies.{body_told, closing, execute_body_whole}
use projectmoo.Http.Behaviour.LastChunk.{GoesOn, message_told}
use projectmoo.Http.Execute.{
  initial_frame, step_in, round, loop_step, http_parser_execute, execute_loop,
}
use projectmoo.Http.Frame.{
  Outcome, returned, fault, exhausted, halt, http_should_keep_alive, new_message,
}
use projectmoo.Http.Invariant.Execute.{Ready}
use projectmoo.Http.Response.{step_dead}
use projectmoo.Http.Types.{
  hpe_ok, hpe_closed_connection, s_dead, s_body_identity, Parser, http_max_header_size, Settings,
  state_code, parsing_header,
}

module _ {W : Type 0} (settings : Settings W) where
  -- A call behind another, on what that one left.
  abbrev pub next_call : Bytes → Outcome W → Outcome W
  next_call input (returned q w n) = http_parser_execute settings input q w
  next_call input fault = fault
  next_call input exhausted = exhausted

  dead_round :
      (input : Bytes) (c : ℕ) (q : Parser) (w : W)
      → q.state ≡ s_dead
      → q.nread < http_max_header_size
      → round settings input c (initial_frame q w)
        ≡ halt (returned (record q { http_errno = hpe_closed_connection }) w 0)
  unfolding round step_in step_dead parsing_header state_code
  dead_round input c q w at few = ground arith

  dead_call :
      (input : Bytes) (q : Parser) (w : W)
      → q.http_errno ≡ hpe_ok
      → q.state ≡ s_dead
      → q.nread < http_max_header_size
      → 0 < length input
      → http_parser_execute settings input q w
        ≡ returned (record q { http_errno = hpe_closed_connection }) w 0
  dead_call [] q w ok at few some_input = absurd (omega arith)
  dead_call (c ∷ cs) q w ok at few some_input =
      execute_loop settings (c ∷ cs) q w ok some_input
      ∙ loop_step settings (c ∷ cs) (suc (length cs)) (initial_frame q w) refl
      ∙ rw (dead_round (c ∷ cs) c q w at few)

  closing-GoesOn :
      (cb : Option (Parser → W → ℕ × W)) (q : Parser) (w : W) (n : ℕ)
      → GoesOn cb
      → closing settings cb q w n
        ≡ returned (record q { state = new_message q }) (message_told cb q w) n
  closing-GoesOn none q w n h = refl
  closing-GoesOn (some cb) q w n h = ground (arith, h q w)

  -- The body of a message ends, its length known and exactly the bytes that are left of it given to a
  -- call, on_message_complete, if there is one, gives 0, and the connection should not be kept
  -- alive, while the count of header bytes is below its limit: on_body is given the bytes and
  -- on_message_complete is called, and the call that follows, with any bytes but none, reads none
  -- of them, calls no callback and leaves HPE_CLOSED_CONNECTION.
  pub execute_closed :
      (body input : Bytes) (q : Parser) (w : W)
      → Ready q
      → q.state ≡ s_body_identity
      → length body ≡ q.content_length
      → GoesOn settings.on_message_complete
      → http_should_keep_alive q ≡ false
      → q.nread < http_max_header_size
      → 0 < length input
      → let r = record q { content_length = 0 } in
        let v = message_told settings.on_message_complete r (body_told settings.on_body q body w) in
        next_call input (http_parser_execute settings body q w)
        ≡ returned (record r { state = s_dead; http_errno = hpe_closed_connection }) v 0
  unfolding new_message http_should_keep_alive
  execute_closed body input q w h at exact goes_on last few some_input =
      let cb = settings.on_message_complete in
      let r = record q { content_length = 0 } in
      let given = body_told settings.on_body q body w in
      let v = message_told cb r given in
      let dead : new_message r ≡ s_dead = ground (arith, last) in
      ap (next_call input) (
        execute_body_whole settings body q w h at exact
        ∙ closing-GoesOn cb r given (length body) goes_on)
      ∙ ap (λ s. http_parser_execute settings input (record r { state = s }) v) dead
      ∙ dead_call input (record r { state = s_dead }) v h.no_error refl few some_input

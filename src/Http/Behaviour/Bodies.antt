-- ===== src/Http/Behaviour/Bodies.antt =====
-- http_parser.c: calls of `http_parser_execute` on the bytes of a body.
use projectmoo.Base.{
  ℕ, suc, ◌-◌, ◌<◌, ◌≡◌, refl, ◌∙◌, inl, inr, Bool, true, false, Option, none, some, [], ◌∷◌, arith,
  Bytes, length, take-length, ◌==◌, if◌then◌else◌, Bool-cases,
}
use projectmoo.Http.Body.{
  to_read, told, deliver, shorten, step_body_identity, step_body_identity_eof, step_chunk_data,
}
use projectmoo.Http.Complete.{end_message}
use projectmoo.Http.Execute.{
  initial_frame, step_in, round, loop, loop_step, http_parser_execute, execute_loop,
}
use projectmoo.Http.Frame.{Outcome, returned, next, new_message, goto, notify}
use projectmoo.Http.Invariant.Execute.{Ready}
use projectmoo.Http.Rounds.{loop_read_all}
use projectmoo.Http.Types.{
  hpe_cb_message_complete, s_chunk_data, s_body_identity, s_body_identity_eof, Parser, Settings,
  state_code, parsing_header,
}

-- The client's world after on_body was given these bytes.
abbrev pub body_told : {W : Type 0} → Option (Parser → Bytes → W → ℕ × W) → Parser → Bytes → W → W
body_told none q bytes w = w
body_told (some cb) q bytes w = (cb q bytes w).1

-- The states in which the bytes of a body of known length are read.
abbrev pub in_body : Parser → Bool
in_body q = elim q.state [ s_body_identity ↦ true | s_chunk_data ↦ q.flags.chunked | _ ↦ false ]

module _ {W : Type 0} (settings : Settings W) where
  told_all :
      (input : Bytes) (cb : Option (Parser → Bytes → W → ℕ × W)) (q : Parser) (w : W)
      → told settings input cb (length input) (initial_frame q w) ≡ body_told cb q input w
  unfolding told
  told_all input none q w = refl
  told_all input (some cb) q w = rw (take-length input)

  part_round :
      (c : ℕ) (cs : Bytes) (q : Parser) (w : W)
      → in_body q ≡ true
      → length (c ∷ cs) < q.content_length
      → q.content_length < 9223372036854775808
      → let input = c ∷ cs in
        round settings input c (initial_frame q w)
        ≡ next (record (initial_frame q w) {
          p = length cs;
          world = body_told settings.on_body q input w;
          parser = record q { content_length = q.content_length - length input };
        })
  unfolding round step_in step_body_identity step_chunk_data to_read deliver shorten parsing_header
      state_code
  part_round c cs q w body more small = ground (arith, told_all (c ∷ cs) settings.on_body q w)

  whole_round :
      (c : ℕ) (cs : Bytes) (q : Parser) (w : W)
      → q.state ≡ s_body_identity
      → length (c ∷ cs) ≡ q.content_length
      → q.content_length < 9223372036854775808
      → let input = c ∷ cs in
        round settings input c (initial_frame q w)
        ≡ end_message settings (record (initial_frame q w) {
          p = length cs;
          world = body_told settings.on_body q input w;
          parser = record q { content_length = 0 };
        })
  unfolding round step_in step_body_identity to_read deliver shorten parsing_header state_code
  whole_round c cs q w at exact small = ground (arith, told_all (c ∷ cs) settings.on_body q w)

  eof_round :
      (c : ℕ) (cs : Bytes) (q : Parser) (w : W)
      → q.state ≡ s_body_identity_eof
      → length (c ∷ cs) < 9223372036854775808
      → let input = c ∷ cs in
        round settings input c (initial_frame q w)
        ≡ next (record (initial_frame q w) {
          p = length cs;
          world = body_told settings.on_body q input w;
        })
  unfolding round step_in step_body_identity_eof deliver parsing_header state_code
  eof_round c cs q w at small = ground (arith, told_all (c ∷ cs) settings.on_body q w)

  -- A parser in a body of known length, or in a chunk, that is given fewer bytes than are left: on_body
  -- gets exactly these bytes, once, `content_length` falls by their number, and nothing else of
  -- the parser changes.
  pub execute_body_part :
      (input : Bytes) (q : Parser) (w : W)
      → Ready q
      → in_body q ≡ true
      → 0 < length input
      → length input < q.content_length
      → q.content_length < 9223372036854775808
      → http_parser_execute settings input q w
        ≡ returned
            (record q { content_length = q.content_length - length input })
            (body_told settings.on_body q input w)
            (length input)
  execute_body_part [] q w h body some_input more small = absurd (omega arith)
  execute_body_part (c ∷ cs) q w h body some_input more small =
      let input = c ∷ cs in
      let r = record q { content_length = q.content_length - length input } in
      let g = record (initial_frame q w) {
        p = length cs;
        world = body_told settings.on_body q input w;
        parser = r;
      } in
      execute_loop settings input q w h.no_error some_input
      ∙ loop_read_all settings c cs (initial_frame q w) g refl (part_round c cs q w body more small)
          refl (ground arith) (ground arith) (ground arith)
      ∙ ground arith

  -- In a body that ends with the stream, any bytes go to on_body, once and unchanged, and the parser
  -- does not change.
  pub execute_body_eof :
      (input : Bytes) (q : Parser) (w : W)
      → Ready q
      → q.state ≡ s_body_identity_eof
      → 0 < length input
      → length input < 9223372036854775808
      → http_parser_execute settings input q w
        ≡ returned q (body_told settings.on_body q input w) (length input)
  execute_body_eof [] q w h at some_input small = absurd (omega arith)
  execute_body_eof (c ∷ cs) q w h at some_input small =
      let input = c ∷ cs in
      let g = record (initial_frame q w) {
        p = length cs;
        world = body_told settings.on_body q input w;
      } in
      execute_loop settings input q w h.no_error some_input
      ∙ loop_read_all settings c cs (initial_frame q w) g refl (eof_round c cs q w at small) refl
          (ground arith) (ground arith) (ground arith)
      ∙ ground arith

  -- What on_message_complete makes of a call on `n` bytes whose last one ends a message.
  abbrev pub closing : Option (Parser → W → ℕ × W) → Parser → W → ℕ → Outcome W
  closing none q w n = returned (record q { state = new_message q }) w n
  closing (some cb) q w n =
      let (rc, w') = cb q w in
      if rc == 0
      then returned (record q { state = new_message q }) w' n
      else returned (record q { http_errno = hpe_cb_message_complete }) w' (n - 1)

  loop-closing :
      (cb : Option (Parser → W → ℕ × W)) (c : ℕ) (cs : Bytes) (q r : Parser) (w v : W)
      → Ready q
      → q.state ≡ s_body_identity
      → r ≡ record q { content_length = 0 }
      → round settings (c ∷ cs) c (initial_frame q w)
        ≡ notify cb hpe_cb_message_complete
            (record (initial_frame q w) { p = length cs; world = v; parser = r })
            (λ g. goto (new_message g.parser) g)
      → loop settings (c ∷ cs) (suc (suc (length cs))) (initial_frame q w)
        ≡ closing cb r v (length (c ∷ cs))
  unfolding notify
  loop-closing none c cs q r w v h at e turn =
      loop_read_all settings c cs (initial_frame q w) _ refl turn refl (ground arith) (ground arith)
        (ground arith)
      ∙ ground arith
  loop-closing (some cb) c cs q r w v h at e turn = elim (Bool-cases ((cb r v).0 == 0)) [
    | inl zero_rc ↦
        let g = record (initial_frame q w) {
          p = length cs;
          world = (cb r v).1;
          parser = r;
          state = new_message r;
        } in
        loop_read_all settings c cs (initial_frame q w) g refl (turn ∙ ground arith) refl
          (ground arith) (ground arith) (ground arith)
        ∙ ground arith
    | inr refused ↦
        loop_step settings (c ∷ cs) (suc (length cs)) (initial_frame q w) refl ∙ ground arith
  ]

  -- A parser in a body of known length that is given exactly the bytes that are left: on_body gets
  -- them, once and unchanged; then on_message_complete is called, and if it returns 0 the parser
  -- is at the state for the next message with content_length 0 and all bytes read.
  pub execute_body_whole :
      (input : Bytes) (q : Parser) (w : W)
      → Ready q
      → q.state ≡ s_body_identity
      → length input ≡ q.content_length
      → http_parser_execute settings input q w
        ≡ closing settings.on_message_complete
            (record q { content_length = 0 })
            (body_told settings.on_body q input w)
            (length input)
  unfolding end_message
  execute_body_whole [] q w h at exact = absurd (omega (arith, h.body_left at))
  execute_body_whole (c ∷ cs) q w h at exact =
      execute_loop settings (c ∷ cs) q w h.no_error (omega arith)
      ∙ loop-closing settings.on_message_complete c cs q (record q { content_length = 0 }) w
          (body_told settings.on_body q (c ∷ cs) w) h at refl
          (whole_round c cs q w at exact (ground arith))

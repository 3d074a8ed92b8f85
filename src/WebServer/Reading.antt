-- ===== src/WebServer/Reading.antt =====
-- http-parser/http_parser.c: the rounds of `http_parser_execute` on a response of example/webserver.cc.
use mathlib.Core.Path.{subst}
use projectmoo.Base.{
  ℕ, suc, ◌+◌, ◌-◌, ◌*◌, ◌≤◌, ◌<◌, ◌≡◌, refl, ap, true, false, none, some, [], ◌∷◌, ◌++◌, arith,
  Bytes, codes, length, drop, take-length, length-drop,
}
use projectmoo.Http.Behaviour.Lengths.{
  decimal, all_digits, u64-decimal, counted, digit_round, first_digit_round,
}
use projectmoo.Http.Body.{to_read, told, deliver, shorten, step_body_identity}
use projectmoo.Http.Chars.{cr, lf, is_num}
use projectmoo.Http.Complete.{
  end_message, choose_body, after_headers, headers_complete, step_headers_almost_done,
}
use projectmoo.Http.Execute.{http_parser_init, initial_frame, step_in, round, loop}
use projectmoo.Http.Frame.{
  Frame, next, u64, minus_one, http_should_keep_alive, new_message, notify, report,
  callback_header_value,
}
use projectmoo.Http.Header.{
  header_flags, step_header_almost_done, step_header_field_start, step_header_value,
  step_header_value_lws,
}
use projectmoo.Http.Log.{fresh_request, run}
use projectmoo.Http.Runs.{Runs, Runs-one, Runs-append}
use projectmoo.Http.Types.{
  http_response, http_delete, s_start_res, s_header_value_start, s_header_value, s_header_value_lws,
  s_header_almost_done, s_headers_almost_done, s_body_identity, h_content_length, no_flags, Parser,
  http_max_header_size, Settings, state_code, parsing_header,
}
use projectmoo.WebServer.Response.{response_header}

-- A client that is given the body only.
abbrev pub reading : {W : Type 0} → (Parser → Bytes → W → ℕ × W) → Settings W
reading cb = record {
  on_message_begin = none;
  on_url = none;
  on_header_field = none;
  on_header_value = none;
  on_headers_complete = none;
  on_body = some cb;
  on_message_complete = none;
}

-- The parser at the length of a response.
abbrev pub at_length : Parser → Parser
at_length q = record q {
  content_length = minus_one;
  http_major = 1;
  http_minor = 1;
  status_code = 200;
}

abbrev pub length_frame : {W : Type 0} → Parser → W → Frame W
length_frame q w = record (initial_frame q w) {
  parser = at_length q;
  state = s_header_value_start;
  header_state = h_content_length;
  index = 13;
  nread = 58;
  p = 58;
}

module _ {W : Type 0} (cb : Parser → Bytes → W → ℕ × W) where
  pub header_rounds :
      (memory : Parser) (w : W) (rest : Bytes)
      → let q = http_parser_init memory http_response in
        loop
          (reading cb)
          (response_header ++ rest)
          (suc (length (response_header ++ rest)))
          (initial_frame q w)
        ≡ loop (reading cb) (response_header ++ rest) (suc (length rest)) (length_frame q w)
  unfolding run fresh_request http_parser_init
  header_rounds memory w rest = refl

digit_value : (c : ℕ) → is_num c ≡ true → c - b'0' < 10
unfolding is_num
digit_value c h = ground arith

module _ {W : Type 0} (settings : Settings W) (input : Bytes) where
  Runs-digits :
      (cs : Bytes) (f : Frame W)
      → f.state ≡ s_header_value
      → f.header_state ≡ h_content_length
      → f.nread + length cs ≤ http_max_header_size
      → all_digits cs ≡ true
      → f.parser.content_length < 18446744073709551616
      → Runs settings input cs f (counted (length cs) (u64 (decimal f.parser.content_length cs)) f)
  Runs-digits [] f at in_length few digits word = λ rest fuel behind. (ground arith, ground arith)
  Runs-digits (c ∷ cs) f at in_length few digits word =
      let n = f.parser.content_length * 10 + (c - b'0') in
      let g = counted 1 (u64 n) f in
      let h = counted (length cs) (u64 (decimal (u64 n) cs)) g in
      let end = counted (length (c ∷ cs)) (u64 (decimal f.parser.content_length (c ∷ cs))) f in
      let same : h ≡ end = ground (arith, u64-decimal n cs) in
      subst (λ k. Runs settings input (c ∷ cs) f k) same
        (Runs-append settings input (c ∷ []) cs f g h
          (Runs-one settings input c f (record g { p = f.p })
            (digit_round settings input c f at in_length (omega arith) (ground arith)) refl)
          (Runs-digits cs g at in_length (omega arith) (ground arith) (omega arith)))

  -- The digits of a length, from the first byte of the value.
  pub Runs-length :
      (c : ℕ) (cs : Bytes) (f : Frame W)
      → f.state ≡ s_header_value_start
      → f.header_state ≡ h_content_length
      → f.nread + length (c ∷ cs) ≤ http_max_header_size
      → all_digits (c ∷ cs) ≡ true
      → let g = record f { state = s_header_value; index = 0; header_value_mark = some f.p } in
        Runs settings input (c ∷ cs) f (counted (length (c ∷ cs)) (u64 (decimal 0 (c ∷ cs))) g)
  Runs-length c cs f at in_length few digits =
      let g0 = record f { state = s_header_value; index = 0; header_value_mark = some f.p } in
      let g = counted 1 (c - b'0') g0 in
      let h = counted (length cs) (u64 (decimal (c - b'0') cs)) g in
      let end = counted (length (c ∷ cs)) (u64 (decimal 0 (c ∷ cs))) g0 in
      let small : c - b'0' < 10 = digit_value c (ground arith) in
      let same : h ≡ end = ground arith in
      subst (λ k. Runs settings input (c ∷ cs) f k) same
        (Runs-append settings input (c ∷ []) cs f g h
          (Runs-one settings input c f (record g { p = f.p })
            (first_digit_round settings input c f at in_length (omega arith) (ground arith)) refl)
          (Runs-digits cs g refl in_length (omega arith) (ground arith) (omega arith)))

module _ {W : Type 0} (cb : Parser → Bytes → W → ℕ × W) (input : Bytes) where
  value_headers_end_round :
      (f : Frame W)
      → f.state ≡ s_header_value
      → f.nread < http_max_header_size
      → round (reading cb) input cr f
        ≡ next (record f {
          state = s_header_almost_done;
          header_value_mark = none;
          nread = f.nread + 1;
        })
  unfolding round step_in step_header_value callback_header_value report parsing_header state_code
  value_headers_end_round f at few = ground arith

  almost_done_round :
      (f : Frame W)
      → f.state ≡ s_header_almost_done
      → f.header_state ≡ h_content_length
      → f.nread < http_max_header_size
      → round (reading cb) input lf f
        ≡ next (record f { state = s_header_value_lws; nread = f.nread + 1 })
  unfolding round step_in step_header_almost_done header_flags parsing_header state_code
  almost_done_round f at in_length few = ground arith

  lws_round :
      (f : Frame W)
      → f.state ≡ s_header_value_lws
      → f.nread < http_max_header_size
      → round (reading cb) input cr f
        ≡ next (record f { state = s_headers_almost_done; nread = f.nread + 1 })
  unfolding round step_in step_header_value_lws step_header_field_start parsing_header state_code
  lws_round f at few = ground arith

  pub Runs-blank :
      (f : Frame W)
      → f.state ≡ s_header_value
      → f.header_state ≡ h_content_length
      → f.nread + 3 ≤ http_max_header_size
      → Runs (reading cb) input (codes "\r\n\r") f (record f {
        state = s_headers_almost_done;
        header_value_mark = none;
        nread = f.nread + 3;
        p = f.p + 3;
      })
  Runs-blank f at in_length few =
      let s = reading cb in
      let f1 = record f {
        state = s_header_almost_done;
        header_value_mark = none;
        nread = f.nread + 1;
        p = f.p + 1;
      } in
      let f2 = record f1 { state = s_header_value_lws; nread = f1.nread + 1; p = f1.p + 1 } in
      let f3 = record f2 { state = s_headers_almost_done; nread = f2.nread + 1; p = f2.p + 1 } in
      let end = record f {
        state = s_headers_almost_done;
        header_value_mark = none;
        nread = f.nread + 3;
        p = f.p + 3;
      } in
      let same : f3 ≡ end = ground arith in
      subst (λ k. Runs s input (codes "\r\n\r") f k) same
        (Runs-append s input (codes "\r") (codes "\n\r") f f1 f3
          (Runs-one s input cr f (record f1 { p = f.p })
            (value_headers_end_round f at (omega arith)) refl)
          (Runs-append s input (codes "\n") (codes "\r") f1 f2 f3
            (Runs-one s input lf f1 (record f2 { p = f1.p })
              (almost_done_round f1 refl in_length (omega arith)) refl)
            (Runs-one s input cr f2 (record f3 { p = f2.p }) (lws_round f2 refl (omega arith))
              refl)))

  -- The end of the headers, with a body to come.
  pub headers_end_round :
      (f : Frame W) (q : Parser)
      → f.state ≡ s_headers_almost_done
      → f.nread < http_max_header_size
      → f.parser
        ≡ record q { type = http_response; flags = no_flags; method = http_delete; upgrade = false }
      → 0 < f.parser.content_length
      → f.parser.content_length < 9223372036854775808
      → round (reading cb) input lf f ≡ next (record f { state = s_body_identity; nread = 0 })
  unfolding round step_in step_headers_almost_done headers_complete after_headers choose_body
      parsing_header state_code
  headers_end_round f q at few e some_body small = ground (arith, e)

  -- The same with no body.
  pub empty_round :
      (f : Frame W) (q : Parser)
      → f.state ≡ s_headers_almost_done
      → f.nread < http_max_header_size
      → f.parser ≡ record q {
        type = http_response;
        flags = no_flags;
        method = http_delete;
        upgrade = false;
        http_major = 1;
        http_minor = 1;
        content_length = 0;
      }
      → round (reading cb) input lf f ≡ next (record f { state = s_start_res; nread = 0 })
  unfolding round step_in step_headers_almost_done headers_complete after_headers choose_body
      end_message notify new_message http_should_keep_alive parsing_header state_code
  empty_round f q at few e = ground (arith, e)

  -- The whole body in one round.
  pub body_round :
      (c : ℕ) (cs : Bytes) (f : Frame W) (q : Parser)
      → f.state ≡ s_body_identity
      → drop f.p input ≡ c ∷ cs
      → f.parser ≡ record q {
        type = http_response;
        flags = no_flags;
        http_major = 1;
        http_minor = 1;
        content_length = length (c ∷ cs);
      }
      → length (c ∷ cs) < 9223372036854775808
      → let r = f.parser in
        round (reading cb) input c f
        ≡ next (record f {
          state = s_start_res;
          p = f.p + length cs;
          world = (cb f.parser (c ∷ cs) f.world).1;
          parser = record r { content_length = 0 };
        })
  unfolding round step_in step_body_identity to_read told deliver shorten end_message notify
      new_message http_should_keep_alive parsing_header state_code
  body_round c cs f q at behind e small =
      ground (arith, e, ap length behind, length-drop input f.p, take-length (c ∷ cs))

-- ===== src/WebServer/Client.antt =====
-- example/webserver.cc and http-parser/http_parser.c: a client that parses a response of the server.
use mathlib.Core.List.{append_assoc}
use projectmoo.Base.{
  ℕ, zero, suc, ◌+◌, ◌≤◌, ◌<◌, ◌≡◌, refl, sym, ap, ◌∙◌, true, none, some, [], ◌∷◌, ◌++◌, arith,
  Bytes, codes, length, get_elem?, drop, length-append, drop_cons, drop_nil, length-drop,
}
use projectmoo.Http.Behaviour.Lengths.{decimal, all_digits, counted}
use projectmoo.Http.Chars.{lf}
use projectmoo.Http.Execute.{http_parser_init, loop, loop_end, http_parser_execute, execute_loop}
use projectmoo.Http.Frame.{Frame, returned, u64}
use projectmoo.Http.Rounds.{loop_next, finish_unmarked}
use projectmoo.Http.Runs.{Runs-append}
use projectmoo.Http.Types.{
  http_response, s_start_res, s_header_value, s_headers_almost_done, s_body_identity,
  h_content_length, Parser, http_max_header_size,
}
use projectmoo.WebServer.Digits.{
  decimal-print_digits, all_digits-print_digits, length-print_digits, print_digits-cons,
}
use projectmoo.WebServer.Reading.{
  reading, at_length, length_frame, header_rounds, Runs-length, Runs-blank, headers_end_round,
  empty_round, body_round,
}
use projectmoo.WebServer.Response.{response_header, make_http_response}

-- The client's world behind on_body with this content; no body is no call.
abbrev pub received : {W : Type 0} → (Parser → Bytes → W → ℕ × W) → Parser → Bytes → W → W
received cb q [] w = w
received cb q (c ∷ cs) w = (cb q (c ∷ cs) w).1

-- The parser in the body, and behind it.
abbrev pub in_response : Parser → ℕ → Parser
in_response q n = let r = at_length q in record r { content_length = n }

abbrev pub behind_response : Parser → Parser
behind_response q =
    let r = in_response q 0 in
    record r { state = s_start_res; header_state = h_content_length; index = 0; nread = 0 }

get_elem?-none : (xs : Bytes) (i : ℕ) → length xs ≤ i → get_elem? xs i ≡ none
get_elem?-none [] i h = refl
get_elem?-none (x ∷ xs) zero h = absurd (omega arith)
get_elem?-none (x ∷ xs) (suc i) h = get_elem?-none xs i (omega arith)

module _ {W : Type 0} (cb : Parser → Bytes → W → ℕ × W) (input : Bytes) (memory : Parser) where
  -- The body, from the last byte of the headers on.
  loop_body :
      (content : Bytes) (f : Frame W)
      → let q = http_parser_init memory http_response in
        f.state ≡ s_headers_almost_done
        → f.header_state ≡ h_content_length
        → f.index ≡ 0
        → f.nread < http_max_header_size
        → f.header_field_mark ≡ none
        → f.header_value_mark ≡ none
        → f.url_mark ≡ none
        → f.parser ≡ in_response q (length content)
        → drop f.p input ≡ lf ∷ content
        → length content < 9223372036854775808
        → loop (reading cb) input (length content + 2) f
          ≡ returned
              (behind_response q)
              (received cb (in_response q (length content)) content f.world)
              (length input)
  unfolding http_parser_init
  loop_body [] f at in_length start few a b d e behind small =
      let s = reading cb in
      let (here, behind') = drop_cons input f.p behind in
      let g = record f { state = s_start_res; nread = 0; p = f.p + 1 } in
      loop_next s input 1 f here
        (empty_round cb input f (in_response (http_parser_init memory http_response) 0) at few e)
      ∙ loop_end s input 0 g (drop_nil input g.p behind')
      ∙ finish_unmarked s input g a b d
      ∙ ground arith
  loop_body (c ∷ cs) f at in_length start few a b d e behind small =
      let s = reading cb in
      let q = http_parser_init memory http_response in
      let (here, behind') = drop_cons input f.p behind in
      let (here', behind'') = drop_cons input (f.p + 1) behind' in
      let g = record f { state = s_body_identity; nread = 0; p = f.p + 1 } in
      let r = f.parser in
      let h = record g {
        state = s_start_res;
        p = g.p + length cs + 1;
        world = (cb r (c ∷ cs) f.world).1;
        parser = record r { content_length = 0 };
      } in
      ap (λ k. loop s input k f) (omega arith)
      ∙ loop_next s input (suc (suc (length cs))) f here (
          headers_end_round cb input f (in_response q (length (c ∷ cs))) at few e (ground arith)
            (ground arith))
      ∙ loop_next s input (suc (length cs)) g here'
          (body_round cb input c cs g (in_response q (length (c ∷ cs))) refl behind' e small)
      ∙ loop_end s input (length cs) h
          (get_elem?-none input h.p (omega (arith, ap length behind', length-drop input (f.p + 1))))
      ∙ finish_unmarked s input h a b d
      ∙ ground arith

module _ {W : Type 0} (cb : Parser → Bytes → W → ℕ × W) where
  -- A response whose length is written with these digits.
  loop_response :
      (memory : Parser) (w : W) (d : ℕ) (ds content : Bytes)
      → all_digits (d ∷ ds) ≡ true
      → length (d ∷ ds) ≤ 20
      → decimal 0 (d ∷ ds) ≡ length content
      → length content < 9223372036854775808
      → let q = http_parser_init memory http_response in
        let rest = d ∷ ds ++ (codes "\r\n\r" ++ lf ∷ content) in
        let input = response_header ++ rest in
        loop (reading cb) input (suc (length rest)) (length_frame q w)
        ≡ returned
            (behind_response q)
            (received cb (in_response q (length content)) content w)
            (length input)
  unfolding http_parser_init
  loop_response memory w d ds content digits short value small =
      let s = reading cb in
      let q = http_parser_init memory http_response in
      let blank = codes "\r\n\r" in
      let rest = d ∷ ds ++ (blank ++ lf ∷ content) in
      let input = response_header ++ rest in
      let f0 = length_frame q w in
      let start = record f0 { state = s_header_value; index = 0; header_value_mark = some 58 } in
      let k = length (d ∷ ds) in
      let f1 = counted k (u64 (decimal 0 (d ∷ ds))) start in
      let f2 = record f1 {
        state = s_headers_almost_done;
        header_value_mark = none;
        nread = f1.nread + 3;
        p = f1.p + 3;
      } in
      let number : u64 (decimal 0 (d ∷ ds)) ≡ length content = omega (arith, value) in
      let (e, behind) =
        Runs-append s input (d ∷ ds) blank f0 f1 f2
          (Runs-length s input d ds f0 refl refl (omega arith) digits)
          (Runs-blank cb input f1 refl refl (omega arith)) (lf ∷ content) (length content + 2)
          (sym (append_assoc (d ∷ ds) blank (lf ∷ content))) in
      ap (λ n. loop s input n f0)
        (omega
          (arith, length-append (d ∷ ds) (blank ++ lf ∷ content), length-append (d ∷ ds) blank))
      ∙ e
      ∙ loop_body cb input memory content f2 refl refl refl (omega arith) refl refl refl
          (ap (in_response q) number) behind small

  -- What the server writes, its own parser reads: for a client that is told of the body only, on
  -- memory with any content, and a response to a content of fewer than 2^63 bytes: one call reads
  -- the whole response and no more than it; the callback is given exactly the content, once, or is
  -- not called if there is none; the parser is ready for the next response.
  pub execute-make_http_response :
      (memory : Parser) (content : Bytes) (w : W)
      → length content < 9223372036854775808
      → let q = http_parser_init memory http_response in
        let text = make_http_response content in
        http_parser_execute (reading cb) text q w
        ≡ returned
            (behind_response q)
            (received cb (in_response q (length content)) content w)
            (length text)
  unfolding make_http_response http_parser_init
  execute-make_http_response memory content w small =
      let q = http_parser_init memory http_response in
      let n = length content in
      let (d, ds, e) = print_digits-cons 19 n in
      let value : decimal 0 (d ∷ ds) ≡ n =
        ap (decimal 0) (sym e) ∙ decimal-print_digits 20 n (omega arith) in
      let digits : all_digits (d ∷ ds) ≡ true =
        ap all_digits (sym e) ∙ all_digits-print_digits 20 n in
      let short : length (d ∷ ds) ≤ 20 = omega (arith, ap length e, length-print_digits 20 n) in
      let rest = d ∷ ds ++ (codes "\r\n\r" ++ lf ∷ content) in
      rw e (
        execute_loop (reading cb) (response_header ++ rest) q w refl (omega arith)
        ∙ header_rounds cb memory w rest
        ∙ loop_response memory w d ds content digits short value small)

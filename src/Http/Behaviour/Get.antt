-- ===== src/Http/Behaviour/Get.antt =====
-- http_parser.c: a call of `http_parser_execute` on a whole GET request.
use mathlib.Core.List.{append_assoc}
use projectmoo.Base.{
  ℕ, suc, ◌+◌, ◌≤◌, ◌≡◌, refl, sym, ap, ◌∙◌, true, [], ◌∷◌, ◌++◌, arith, Bytes, codes, length,
  length-append, drop_cons, drop_nil,
}
use projectmoo.Http.Behaviour.Query.{
  answering, query_start, all_url_chars, in_query, versioned, query_rounds, walk_name, Runs-version,
  end_round,
}
use projectmoo.Http.Chars.{lf}
use projectmoo.Http.Execute.{http_parser_init, loop, loop_end, http_parser_execute, execute_loop}
use projectmoo.Http.Frame.{returned, minus_one}
use projectmoo.Http.Rounds.{loop_next, finish_unmarked}
use projectmoo.Http.Runs.{Runs-append, Runs-walk}
use projectmoo.Http.Types.{
  http_request, http_get, s_start_req, no_flags, Parser, http_max_header_size,
}

-- The parser as the callback is given it, and as the call leaves it.
abbrev pub got_request : Parser → Parser
got_request q = record q {
  method = http_get;
  content_length = minus_one;
  http_major = 1;
  http_minor = 1;
}

abbrev pub answered_request : Parser → Parser
answered_request q =
    let r = got_request q in
    record r {
      flags = record no_flags { skipbody = true };
      state = s_start_req;
      index = 4;
      nread = 0;
    }

abbrev pub get_request : Bytes → Bytes
get_request name = query_start ++ (name ++ (codes " HTTP/1.1\r\n\r" ++ lf ∷ []))

module _ {W : Type 0} (cb : Parser → W → ℕ × W) where
  loop_request :
      (memory : Parser) (name : Bytes) (w : W)
      → all_url_chars name ≡ true
      → length name + 20 ≤ http_max_header_size
      → let q = http_parser_init memory http_request in
        (cb (got_request q) w).0 ≡ 1
        → loop (answering cb) (get_request name) (suc (length name + 13)) (in_query q w)
          ≡ returned (answered_request q) (cb (got_request q) w).1 (length (get_request name))
  unfolding http_parser_init
  loop_request memory name w plain few one =
      let s = answering cb in
      let q = http_parser_init memory http_request in
      let input = get_request name in
      let n = length name in
      let f0 = in_query q w in
      let f1 = record f0 { nread = 7 + n; p = 7 + n } in
      let f2 = versioned f1 in
      let r = f2.parser in
      let f3 = record f2 {
        state = s_start_req;
        nread = 0;
        world = (cb r w).1;
        parser = record r { flags = record no_flags { skipbody = true } };
      } in
      let f4 = record f3 { p = f2.p + 1 } in
      let (e, behind) =
        Runs-append s input name (codes " HTTP/1.1\r\n\r") f0 f1 f2
          (Runs-walk s input name f0 (walk_name cb name plain) (omega arith))
          (Runs-version cb input f1 refl (omega arith)) (lf ∷ []) 2
          (sym (append_assoc name (codes " HTTP/1.1\r\n\r") (lf ∷ []))) in
      let (here, behind') = drop_cons input f2.p behind in
      ap (λ k. loop s input k f0) (omega (arith, length-append name (codes " HTTP/1.1\r\n\r")))
      ∙ e
      ∙ loop_next s input 1 f2 here (end_round cb input f2 r refl (omega arith) refl one)
      ∙ loop_end s input 0 f4 (drop_nil input f4.p behind')
      ∙ finish_unmarked s input f4 refl refl refl
      ∙ refl

  pub execute_get :
      (memory : Parser) (name : Bytes) (w : W)
      → all_url_chars name ≡ true
      → length name + 20 ≤ http_max_header_size
      → let q = http_parser_init memory http_request in
        (cb (got_request q) w).0 ≡ 1
        → http_parser_execute (answering cb) (get_request name) q w
          ≡ returned (answered_request q) (cb (got_request q) w).1 (length (get_request name))
  unfolding http_parser_init
  execute_get memory name w plain few one =
      let s = answering cb in
      let q = http_parser_init memory http_request in
      let input = get_request name in
      let rest = name ++ (codes " HTTP/1.1\r\n\r" ++ lf ∷ []) in
      execute_loop s input q w refl (omega arith)
      ∙ query_rounds cb memory w rest
      ∙ ap (λ k. loop s input k (in_query q w))
          (omega (arith, length-append name (codes " HTTP/1.1\r\n\r" ++ lf ∷ [])))
      ∙ loop_request memory name w plain few one

-- ===== src/Http/Behaviour/Query.antt =====
-- http_parser.c: the rounds of `http_parser_execute` on a GET request with a query.
use mathlib.Core.Path.{subst}
use projectmoo.Base.{
  ℕ, suc, ◌+◌, ◌≤◌, ◌<◌, ◌≡◌, refl, Bool, true, false, ◌&&◌, none, some, [], ◌∷◌, ◌++◌, arith,
  Bytes, codes, length,
}
use projectmoo.Http.Chars.{lf, normal_url_char, lower, is_num, is_url_char}
use projectmoo.Http.Complete.{
  end_message, choose_body, after_headers, headers_answered, headers_complete,
  step_headers_almost_done,
}
use projectmoo.Http.Execute.{http_parser_init, initial_frame, step_in, round, loop}
use projectmoo.Http.Frame.{
  Frame, next, minus_one, http_should_keep_alive, new_message, notify, report, callback_url,
}
use projectmoo.Http.Log.{fresh_request, run}
use projectmoo.Http.Request.{step_req_first_http_major, step_req_first_http_minor}
use projectmoo.Http.Runs.{walk, Runs, Runs-one, Runs-append, Runs-walk}
use projectmoo.Http.Types.{
  http_request, http_get, s_start_req, s_req_query_string, s_req_http_start, s_req_first_http_major,
  s_req_http_major, s_req_first_http_minor, s_req_http_minor, s_headers_almost_done, no_flags,
  Parser, http_max_header_size, Settings, state_code, parsing_header,
}
use projectmoo.Http.Url.{url_then_http, step_req_query_string}
use projectmoo.Http.Version.{first_major, first_minor}

-- A client that is told of the end of the headers only.
abbrev pub answering : {W : Type 0} → (Parser → W → ℕ × W) → Settings W
answering cb = record {
  on_message_begin = none;
  on_url = none;
  on_header_field = none;
  on_header_value = none;
  on_headers_complete = some cb;
  on_body = none;
  on_message_complete = none;
}

abbrev pub query_start : Bytes
query_start = codes "GET /?f"

abbrev pub version_end : Bytes
version_end = codes " HTTP/1.1\r\n\r\n"

-- Bytes that a query may hold.
abbrev pub all_url_chars : Bytes → Bool
all_url_chars [] = true
all_url_chars (c ∷ cs) = is_url_char c && all_url_chars cs

-- The variables behind the first byte of the query.
abbrev pub in_query : {W : Type 0} → Parser → W → Frame W
in_query q w = record (initial_frame q w) {
  parser = record q { method = http_get; content_length = minus_one };
  state = s_req_query_string;
  index = 4;
  nread = 7;
  url_mark = some 4;
  p = 7;
}

-- The variables behind a version, at the end of the headers.
abbrev pub versioned : {W : Type 0} → Frame W → Frame W
versioned f =
    let q = f.parser in
    record f {
      parser = record q { http_major = 1; http_minor = 1 };
      state = s_headers_almost_done;
      nread = f.nread + 12;
      url_mark = none;
      p = f.p + 12;
    }

module _ {W : Type 0} (cb : Parser → W → ℕ × W) where
  pub query_rounds :
      (memory : Parser) (w : W) (rest : Bytes)
      → let q = http_parser_init memory http_request in
        loop
          (answering cb)
          (query_start ++ rest)
          (suc (length (query_start ++ rest)))
          (initial_frame q w)
        ≡ loop (answering cb) (query_start ++ rest) (suc (length rest)) (in_query q w)
  unfolding run fresh_request http_parser_init
  query_rounds memory w rest = refl

  pub walk_name :
      (name : Bytes)
      → all_url_chars name ≡ true
      → walk s_req_query_string name ≡ some s_req_query_string
  walk_name [] h = refl
  walk_name (c ∷ name) h = ground (arith, walk_name name)

  space_round :
      (input : Bytes) (f : Frame W)
      → f.state ≡ s_req_query_string
      → f.nread < http_max_header_size
      → round (answering cb) input b' ' f
        ≡ next (record f { state = s_req_http_start; nread = f.nread + 1; url_mark = none })
  unfolding round step_in step_req_query_string url_then_http callback_url report parsing_header
      state_code is_url_char normal_url_char lower
  space_round input f at few = ground arith

  major_round :
      (input : Bytes) (f : Frame W)
      → f.state ≡ s_req_first_http_major
      → f.nread < http_max_header_size
      → let q = f.parser in
        round (answering cb) input b'1' f
        ≡ next (record f {
          state = s_req_http_major;
          nread = f.nread + 1;
          parser = record q { http_major = 1 };
        })
  unfolding round step_in step_req_first_http_major first_major parsing_header state_code is_num
  major_round input f at few = ground arith

  minor_round :
      (input : Bytes) (f : Frame W)
      → f.state ≡ s_req_first_http_minor
      → f.nread < http_max_header_size
      → let q = f.parser in
        round (answering cb) input b'1' f
        ≡ next (record f {
          state = s_req_http_minor;
          nread = f.nread + 1;
          parser = record q { http_minor = 1 };
        })
  unfolding round step_in step_req_first_http_minor first_minor parsing_header state_code is_num
  minor_round input f at few = ground arith

  pub Runs-version :
      (input : Bytes) (f : Frame W)
      → f.state ≡ s_req_query_string
      → f.nread + 12 ≤ http_max_header_size
      → Runs (answering cb) input (codes " HTTP/1.1\r\n\r") f (versioned f)
  Runs-version input f at few =
      let s = answering cb in
      let q = f.parser in
      let q' = record q { http_major = 1 } in
      let f1 = record f {
        state = s_req_http_start;
        nread = f.nread + 1;
        url_mark = none;
        p = f.p + 1;
      } in
      let f2 = record f1 { state = s_req_first_http_major; nread = f1.nread + 5; p = f1.p + 5 } in
      let f3 = record f2 {
        state = s_req_http_major;
        nread = f2.nread + 1;
        p = f2.p + 1;
        parser = q';
      } in
      let f4 = record f3 { state = s_req_first_http_minor; nread = f3.nread + 1; p = f3.p + 1 } in
      let f5 = record f4 {
        state = s_req_http_minor;
        nread = f4.nread + 1;
        p = f4.p + 1;
        parser = record q' { http_minor = 1 };
      } in
      let f6 = record f5 { state = s_headers_almost_done; nread = f5.nread + 3; p = f5.p + 3 } in
      let same : f6 ≡ versioned f = ground arith in
      subst (λ g. Runs s input (codes " HTTP/1.1\r\n\r") f g) same
        (Runs-append s input (codes " ") (codes "HTTP/1.1\r\n\r") f f1 f6
          (Runs-one s input b' ' f (record f1 { p = f.p }) (space_round input f at (omega arith))
            refl)
          (Runs-append s input (codes "HTTP/") (codes "1.1\r\n\r") f1 f2 f6
            (Runs-walk s input (codes "HTTP/") f1 refl (omega arith))
            (Runs-append s input (codes "1") (codes ".1\r\n\r") f2 f3 f6
              (Runs-one s input b'1' f2 (record f3 { p = f2.p })
                (major_round input f2 refl (omega arith)) refl)
              (Runs-append s input (codes ".") (codes "1\r\n\r") f3 f4 f6
                (Runs-walk s input (codes ".") f3 refl (omega arith))
                (Runs-append s input (codes "1") (codes "\r\n\r") f4 f5 f6
                  (Runs-one s input b'1' f4 (record f5 { p = f4.p })
                    (minor_round input f4 refl (omega arith)) refl)
                  (Runs-walk s input (codes "\r\n\r") f5 refl (omega arith)))))))

  -- The last byte, where the callback's 1 takes the body away.
  pub end_round :
      (input : Bytes) (f : Frame W) (q : Parser)
      → f.state ≡ s_headers_almost_done
      → f.nread < http_max_header_size
      → f.parser ≡ record q {
        type = http_request;
        flags = no_flags;
        method = http_get;
        http_major = 1;
        http_minor = 1;
        upgrade = false;
      }
      → (cb f.parser f.world).0 ≡ 1
      → let r = f.parser in
        round (answering cb) input lf f
        ≡ next (record f {
          state = s_start_req;
          nread = 0;
          world = (cb f.parser f.world).1;
          parser = record r { flags = record no_flags { skipbody = true } };
        })
  unfolding round step_in step_headers_almost_done headers_complete headers_answered after_headers
      choose_body end_message notify new_message http_should_keep_alive parsing_header state_code
  end_round input f q at few e one = ground (arith, e, one)

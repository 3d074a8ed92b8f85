-- ===== src/Http/Split/Header.antt =====
-- http_parser.c: the states of a header, and the end of a header block.
use mathlib.Core.Path.{subst, ap₂}
use projectmoo.Base.{
  ℕ, ◌+◌, ◌-◌, ◌≡◌, sym, ◌∙◌, Bool, true, ◌||◌, Option, none, some, arith, Bytes, length, ◌==◌,
}
use projectmoo.Http.Chars.{char_at, token, lower}
use projectmoo.Http.Complete.{
  end_message, choose_body, after_headers, headers_answered, headers_complete,
  step_headers_almost_done,
}
use projectmoo.Http.Frame.{
  Frame, returned, Flow, next, halt, u64, http_should_keep_alive, new_message, goto,
  callback_header_field, callback_header_value,
}
use projectmoo.Http.Header.{
  connection, proxy_connection, content_length_name, transfer_encoding, upgrade_name, chunked_value,
  keep_alive, close, match_char, match_word, field_char, value_char, first_value_char,
  step_header_almost_done, step_header_field_start, step_header_field, step_header_value_start,
  step_header_value, step_header_value_lws,
}
use projectmoo.Http.Request.{is_connect}
use projectmoo.Http.Split.{Oblivious, IsQuiet, Alike, SameFlow, notify-SameFlow, report-none}
use projectmoo.Http.Types.{
  hpe_cb_header_field, hpe_cb_header_value, hpe_cb_message_complete, s_header_field_start,
  s_header_value_start, s_header_value, s_header_almost_done, s_headers_almost_done, HeaderState,
  h_general, h_matching_connection, h_matching_proxy_connection, h_matching_content_length,
  h_matching_transfer_encoding, h_matching_upgrade, h_connection, h_content_length,
  h_transfer_encoding, h_upgrade, h_matching_transfer_encoding_chunked,
  h_matching_connection_keep_alive, h_matching_connection_close, h_transfer_encoding_chunked,
  h_connection_keep_alive, h_connection_close, Parser, Settings,
}

module _ {W : Type 0} {k : ℕ} where
  match_char-SameFlow :
      (o : Option ℕ) (c : ℕ) (last : Bool) (found : HeaderState) (f g : Frame W)
      → Alike k f g
      → SameFlow k (match_char o c last found f) (match_char o c last found g)
  unfolding match_char
  match_char-SameFlow none c last found f g a = tt
  match_char-SameFlow (some x) c last found f g a = ground arith

  match_word-SameFlow :
      (word : Bytes) (found : HeaderState) (c : ℕ) (f g : Frame W)
      → Alike k f g
      → SameFlow k (match_word word found c f) (match_word word found c g)
  unfolding match_word
  match_word-SameFlow word found c f g a =
      let i = u64 (f.index + 1) in
      ground (
        arith,
        match_char-SameFlow (char_at word i) c (i == length word - 1) found (record f { index = i })
            (record g { index = u64 (g.index + 1) }) (ground arith),
      )

  field_char-SameFlow :
      (hs : HeaderState) (ch c : ℕ) (f g : Frame W)
      → Alike k f g
      → SameFlow k (field_char hs ch c f) (field_char hs ch c g)
  unfolding field_char
  field_char-SameFlow h_matching_connection ch c f g a =
      match_word-SameFlow connection h_connection c f g a
  field_char-SameFlow h_matching_proxy_connection ch c f g a =
      match_word-SameFlow proxy_connection h_connection c f g a
  field_char-SameFlow h_matching_content_length ch c f g a =
      match_word-SameFlow content_length_name h_content_length c f g a
  field_char-SameFlow h_matching_transfer_encoding ch c f g a =
      match_word-SameFlow transfer_encoding h_transfer_encoding c f g a
  field_char-SameFlow h_matching_upgrade ch c f g a =
      match_word-SameFlow upgrade_name h_upgrade c f g a
  field_char-SameFlow _ ch c f g a = ground arith

  value_char-SameFlow :
      (hs : HeaderState) (ch c : ℕ) (f g : Frame W)
      → Alike k f g
      → SameFlow k (value_char hs ch c f) (value_char hs ch c g)
  unfolding value_char
  value_char-SameFlow h_matching_transfer_encoding_chunked ch c f g a =
      match_word-SameFlow chunked_value h_transfer_encoding_chunked c f g a
  value_char-SameFlow h_matching_connection_keep_alive ch c f g a =
      match_word-SameFlow keep_alive h_connection_keep_alive c f g a
  value_char-SameFlow h_matching_connection_close ch c f g a =
      match_word-SameFlow close h_connection_close c f g a
  value_char-SameFlow _ ch c f g a = ground arith

  first_value_char-SameFlow :
      (hs : HeaderState) (ch c : ℕ) (f g : Frame W)
      → Alike k f g
      → SameFlow k (first_value_char hs ch c f) (first_value_char hs ch c g)
  unfolding first_value_char
  first_value_char-SameFlow h_upgrade ch c f g a = ground arith
  first_value_char-SameFlow _ ch c f g a = ground arith

  pub step_header_almost_done-SameFlow :
      (ch : ℕ) (f g : Frame W)
      → Alike k f g
      → SameFlow k (step_header_almost_done ch f) (step_header_almost_done ch g)
  unfolding step_header_almost_done
  step_header_almost_done-SameFlow ch f g a = ground arith

module _ {W : Type 0} (settings : Settings W) (quiet : IsQuiet settings) {k : ℕ} where
  pub end_message-SameFlow :
      (f g : Frame W) → Alike k f g → SameFlow k (end_message settings f) (end_message settings g)
  unfolding end_message new_message
  end_message-SameFlow f g a =
      notify-SameFlow settings.on_message_complete hpe_cb_message_complete f g _ _
        quiet.complete_blind a (λ w. ground arith)

  choose_body-SameFlow :
      (f g : Frame W) → Alike k f g → SameFlow k (choose_body settings f) (choose_body settings g)
  unfolding choose_body http_should_keep_alive
  choose_body-SameFlow f g a = ground (arith, end_message-SameFlow f g a)

  after_headers-SameFlow :
      (f g : Frame W)
      → Alike k f g
      → SameFlow k (after_headers settings f) (after_headers settings g)
  unfolding after_headers
  after_headers-SameFlow f g a =
      let leave : Frame W → Flow W = λ h. halt (returned h.parser h.world (h.p + 1)) in
      ground (
        arith,
        choose_body-SameFlow f g a,
        notify-SameFlow settings.on_message_complete hpe_cb_message_complete f g leave leave
            quiet.complete_blind a (λ w. ground arith),
      )

  headers_answered-SameFlow :
      (rc : ℕ) (w : W) (f g : Frame W)
      → Alike k f g
      → SameFlow k (headers_answered settings (rc, w) f) (headers_answered settings (rc, w) g)
  unfolding headers_answered
  headers_answered-SameFlow rc w f g a =
      let q = f.parser in
      let fl = q.flags in
      let r = g.parser in
      let gl = r.flags in
      ground (
        arith,
        after_headers-SameFlow (record f { world = w }) (record g { world = w }) (ground arith),
        after_headers-SameFlow
            (record f { parser = record q { flags = record fl { skipbody = true } }; world = w })
            (record g { parser = record r { flags = record gl { skipbody = true } }; world = w })
            (ground arith),
      )

  headers_complete-SameFlow :
      (cb : Option (Parser → W → ℕ × W)) (f g : Frame W)
      → Oblivious cb
      → Alike k f g
      → SameFlow k (headers_complete settings cb f) (headers_complete settings cb g)
  unfolding headers_complete
  headers_complete-SameFlow none f g blind a = after_headers-SameFlow f g a
  headers_complete-SameFlow (some cb) f g blind a =
      let same : cb f.parser f.world ≡ cb g.parser g.world =
        blind f.parser f.world ∙ ap₂ cb a.parser a.world ∙ sym (blind g.parser g.world) in
      let answer = cb f.parser f.world in
      subst (λ x. SameFlow k (headers_answered settings answer f) (headers_answered settings x g))
        same (headers_answered-SameFlow answer.0 answer.1 f g a)

  pub step_headers_almost_done-SameFlow :
      (ch : ℕ) (f g : Frame W)
      → Alike k f g
      → SameFlow k (step_headers_almost_done settings ch f) (step_headers_almost_done settings ch g)
  unfolding step_headers_almost_done
  step_headers_almost_done-SameFlow ch f g a =
      let q = f.parser in
      let r = g.parser in
      let f' = record f {
        nread = 0;
        parser = record q { upgrade = (q.flags.upgrading || is_connect q.method) || q.upgrade };
      } in
      let g' = record g {
        nread = 0;
        parser = record r { upgrade = (r.flags.upgrading || is_connect r.method) || r.upgrade };
      } in
      ground (
        arith,
        end_message-SameFlow f g a,
        headers_complete-SameFlow settings.on_headers_complete f' g' quiet.headers_blind
            (ground arith),
      )

module _ {W : Type 0} (settings : Settings W) (quiet : IsQuiet settings) (input tail : Bytes)
    {k : ℕ} where
  pub step_header_field_start-SameFlow :
      (ch : ℕ) (f g : Frame W)
      → Alike k f g
      → SameFlow k
          (step_header_field_start settings input ch f)
          (step_header_field_start settings tail ch g)
  unfolding step_header_field_start
  step_header_field_start-SameFlow ch f g a = ground (
    arith,
    step_headers_almost_done-SameFlow settings quiet {k = k} ch
        (record f { state = s_headers_almost_done }) (record g { state = s_headers_almost_done })
        (ground arith),
  )

  pub step_header_value_lws-SameFlow :
      (ch : ℕ) (f g : Frame W)
      → Alike k f g
      → SameFlow k
          (step_header_value_lws settings input ch f)
          (step_header_value_lws settings tail ch g)
  unfolding step_header_value_lws
  step_header_value_lws-SameFlow ch f g a = ground (
    arith,
    step_header_field_start-SameFlow ch (record f { state = s_header_field_start })
        (record g { state = s_header_field_start }) (ground arith),
  )

  callback_header_field-SameFlow :
      (f g : Frame W) (rest : Frame W → Flow W)
      → Alike k f g
      → ((h h' : Frame W) → Alike k h h' → SameFlow k (rest h) (rest h'))
      → SameFlow k
          (callback_header_field settings input f rest)
          (callback_header_field settings tail g rest)
  unfolding callback_header_field
  callback_header_field-SameFlow f g rest a then_on =
      rw
        (
          report-none settings.on_header_field input f.header_field_mark hpe_cb_header_field f _
              quiet.no_field,
          report-none settings.on_header_field tail g.header_field_mark hpe_cb_header_field g _
              quiet.no_field,
        )
        (then_on (record f { header_field_mark = none }) (record g { header_field_mark = none })
          (ground arith))

  callback_header_value-SameFlow :
      (f g : Frame W) (rest : Frame W → Flow W)
      → Alike k f g
      → ((h h' : Frame W) → Alike k h h' → SameFlow k (rest h) (rest h'))
      → SameFlow k
          (callback_header_value settings input f rest)
          (callback_header_value settings tail g rest)
  unfolding callback_header_value
  callback_header_value-SameFlow f g rest a then_on =
      rw
        (
          report-none settings.on_header_value input f.header_value_mark hpe_cb_header_value f _
              quiet.no_value,
          report-none settings.on_header_value tail g.header_value_mark hpe_cb_header_value g _
              quiet.no_value,
        )
        (then_on (record f { header_value_mark = none }) (record g { header_value_mark = none })
          (ground arith))

  pub step_header_field-SameFlow :
      (ch : ℕ) (f g : Frame W)
      → Alike k f g
      → SameFlow k (step_header_field settings input ch f) (step_header_field settings tail ch g)
  unfolding step_header_field
  step_header_field-SameFlow ch f g a = ground (
    arith,
    field_char-SameFlow f.header_state ch (token ch) f g a,
    callback_header_field-SameFlow f g (goto s_header_value_start) a (λ h h' b. ground arith),
    callback_header_field-SameFlow f g (goto s_header_field_start) a (λ h h' b. ground arith),
    callback_header_field-SameFlow (record f { state = s_header_almost_done })
        (record g { state = s_header_almost_done }) next (ground arith) (λ h h' b. b),
  )

  pub step_header_value_start-SameFlow :
      (ch : ℕ) (f g : Frame W)
      → Alike k f g
      → SameFlow k
          (step_header_value_start settings input ch f)
          (step_header_value_start settings tail ch g)
  unfolding step_header_value_start
  step_header_value_start-SameFlow ch f g a =
      let f' = record f { header_value_mark = some f.p; state = s_header_value; index = 0 } in
      let g' = record g { header_value_mark = some g.p; state = s_header_value; index = 0 } in
      let end_value : Frame W → Flow W =
        λ h. next (record h { header_state = h_general; state = s_header_almost_done }) in
      let b : Alike k f' g' = ground arith in
      ground (
        arith,
        first_value_char-SameFlow f.header_state ch (lower ch) f' g' b,
        callback_header_value-SameFlow f' g' end_value b (λ h h' b. ground arith),
        callback_header_value-SameFlow f' g' (goto s_header_field_start) b (λ h h' b. ground arith),
      )

  pub step_header_value-SameFlow :
      (ch : ℕ) (f g : Frame W)
      → Alike k f g
      → SameFlow k (step_header_value settings input ch f) (step_header_value settings tail ch g)
  unfolding step_header_value
  step_header_value-SameFlow ch f g a = ground (
    arith,
    value_char-SameFlow f.header_state ch (lower ch) f g a,
    callback_header_value-SameFlow f g (goto s_header_almost_done) a (λ h h' b. ground arith),
    callback_header_value-SameFlow f g (step_header_almost_done ch) a
        (λ h h' b. step_header_almost_done-SameFlow ch h h' b),
  )

-- ===== src/Http/Invariant/Header.antt =====
-- http_parser.c: the states of Http/Header and the invariant.
use native.Mathlib.Nat.{le_refl}
use projectmoo.Base.{
  ℕ, ◌+◌, ◌-◌, ◌≤◌, ◌<◌, ◌≡◌, refl, ◌⊎◌, inl, inr, true, false, ◌||◌, Option, none, some, arith,
  Bytes, length, Bool-cases,
}
use projectmoo.Http.Chars.{token, lower, char_at-ne-none}
use projectmoo.Http.Complete.{
  choose_body, after_headers, headers_answered, headers_complete, step_headers_almost_done,
}
use projectmoo.Http.Frame.{
  Frame, returned, Flow, next, halt, u64, goto, callback_header_field, callback_header_value,
}
use projectmoo.Http.Header.{
  connection, proxy_connection, content_length_name, transfer_encoding, upgrade_name, chunked_value,
  keep_alive, close, match_word, field_char, value_char, first_value_char, step_header_almost_done,
  step_header_field_start, step_header_field, step_header_value_start, step_header_value,
  step_header_value_lws,
}
use projectmoo.Http.Invariant.{
  is_marked, Inv, Sound, Calm, notify-Sound, report-Sound, end_message-Sound,
}
use projectmoo.Http.Request.{is_connect}
use projectmoo.Http.Types.{
  hpe_cb_header_value, hpe_cb_message_complete, s_header_field_start, s_header_field,
  s_header_value_start, s_header_value, s_header_value_lws, s_header_almost_done,
  s_headers_almost_done, HeaderState, h_general, h_matching_connection, h_matching_proxy_connection,
  h_matching_content_length, h_matching_transfer_encoding, h_matching_upgrade, h_connection,
  h_content_length, h_transfer_encoding, h_upgrade, h_matching_transfer_encoding_chunked,
  h_matching_connection_keep_alive, h_matching_connection_close, h_transfer_encoding_chunked,
  h_connection_keep_alive, h_connection_close, Parser, Settings,
}

module _ {W : Type 0} where
  -- A byte of a word: it differs, or it is the last one, or more are to come.
  match_word_cases :
      (word : Bytes) (found : HeaderState) (c : ℕ) (f : Frame W)
      → length word ≤ 20
      → f.index < length word - 1
      → let i = f.index + 1 in
        (match_word word found c f ≡ next (record f { index = i; header_state = h_general }))
        ⊎ ((match_word word found c f ≡ next (record f { index = i; header_state = found }))
            ⊎ ((match_word word found c f ≡ next (record f { index = i })) × (i < length word - 1)))
  unfolding match_word
  match_word_cases word found c f short more =
      ground (arith, char_at-ne-none word (u64 (f.index + 1)))

module _ {W : Type 0} (len : ℕ) where
  field_char-Sound :
      (hs : HeaderState) (ch c : ℕ) (f : Frame W)
      → Inv 1 f
      → f.p < len
      → f.state ≡ s_header_field
      → f.header_state ≡ hs
      → Sound len f.p (field_char hs ch c f)
  unfolding field_char
  field_char-Sound h_matching_connection ch c f h within at e =
      ground (arith, match_word_cases connection h_connection c f)
  field_char-Sound h_matching_proxy_connection ch c f h within at e =
      ground (arith, match_word_cases proxy_connection h_connection c f)
  field_char-Sound h_matching_content_length ch c f h within at e =
      ground (arith, match_word_cases content_length_name h_content_length c f)
  field_char-Sound h_matching_transfer_encoding ch c f h within at e =
      ground (arith, match_word_cases transfer_encoding h_transfer_encoding c f)
  field_char-Sound h_matching_upgrade ch c f h within at e =
      ground (arith, match_word_cases upgrade_name h_upgrade c f)
  field_char-Sound _ ch c f h within at e = ground arith

  value_char-Sound :
      (hs : HeaderState) (ch c : ℕ) (f : Frame W)
      → Inv 1 f
      → f.p < len
      → f.state ≡ s_header_value
      → f.header_state ≡ hs
      → Sound len f.p (value_char hs ch c f)
  unfolding value_char
  value_char-Sound h_matching_transfer_encoding_chunked ch c f h within at e =
      ground (arith, match_word_cases chunked_value h_transfer_encoding_chunked c f)
  value_char-Sound h_matching_connection_keep_alive ch c f h within at e =
      ground (arith, match_word_cases keep_alive h_connection_keep_alive c f)
  value_char-Sound h_matching_connection_close ch c f h within at e =
      ground (arith, match_word_cases close h_connection_close c f)
  value_char-Sound _ ch c f h within at e = ground arith

  -- At the first byte of a value the index is 0.
  first_value_char-Sound :
      (hs : HeaderState) (ch c : ℕ) (f : Frame W)
      → Calm f
      → f.p < len
      → f.state ≡ s_header_value
      → f.index ≡ 0
      → is_marked f.header_value_mark ≡ true
      → f.header_state ≡ hs
      → Sound len f.p (first_value_char hs ch c f)
  unfolding first_value_char
  first_value_char-Sound h_upgrade ch c f h within at start marked e = ground arith
  first_value_char-Sound _ ch c f h within at start marked e = ground arith

  pub step_header_almost_done-Sound :
      {start : ℕ} (ch : ℕ) (f : Frame W)
      → Calm f
      → start ≤ f.p
      → f.p < len
      → Sound len start (step_header_almost_done ch f)
  unfolding step_header_almost_done
  step_header_almost_done-Sound ch f h after within = ground arith

-- The variables with the upgrade forgotten.
abbrev not_upgraded : {W : Type 0} → Frame W → Frame W
not_upgraded f = let q = f.parser in record f { parser = record q { upgrade = false } }

module _ {W : Type 0} (settings : Settings W) (len : ℕ) where
  choose_body-Sound :
      {start : ℕ} (f : Frame W)
      → Calm f
      → start ≤ f.p
      → f.p < len
      → f.nread ≡ 0
      → Sound len start (choose_body settings f)
  unfolding choose_body
  choose_body-Sound f h after within e =
      ground (arith, end_message-Sound len settings f h after within)

  after_headers-Sound :
      (f : Frame W)
      → Calm (not_upgraded f)
      → f.p < len
      → f.nread ≡ 0
      → Sound len f.p (after_headers settings f)
  unfolding after_headers
  after_headers-Sound f h within e = elim (Bool-cases f.parser.upgrade) [
    | inl u ↦
        let leave : Frame W → Flow W = λ g. halt (returned g.parser g.world (g.p + 1)) in
        ground (
          arith,
          notify-Sound len {start = f.p} settings.on_message_complete hpe_cb_message_complete f
              leave refl (le_refl f.p) within (λ w. (omega arith, omega arith, inr u)),
        )
    | inr u ↦
        let calm : Calm f = ground arith in
        ground (arith, choose_body-Sound f calm (le_refl f.p) within e)
  ]

  headers_complete-Sound :
      (cb : Option (Parser → W → ℕ × W)) (f : Frame W)
      → Calm (not_upgraded f)
      → f.p < len
      → f.nread ≡ 0
      → Sound len f.p (headers_complete settings cb f)
  unfolding headers_complete headers_answered
  headers_complete-Sound none f h within e = after_headers-Sound f h within e
  headers_complete-Sound (some cb) f h within e =
      let q = f.parser in
      let fl = q.flags in
      let w = (cb f.parser f.world).1 in
      ground (
        arith,
        after_headers-Sound (record f { world = w }) (ground arith) within e,
        after_headers-Sound
            (record f { parser = record q { flags = record fl { skipbody = true } }; world = w })
            (ground arith) within e,
      )

  pub step_headers_almost_done-Sound :
      (ch : ℕ) (f : Frame W)
      → Calm f
      → f.p < len
      → Sound len f.p (step_headers_almost_done settings ch f)
  unfolding step_headers_almost_done
  step_headers_almost_done-Sound ch f h within =
      let q = f.parser in
      let g = record f {
        nread = 0;
        parser = record q { upgrade = (q.flags.upgrading || is_connect q.method) || q.upgrade };
      } in
      ground (
        arith,
        end_message-Sound len settings f h (le_refl f.p) within,
        headers_complete-Sound settings.on_headers_complete g (ground arith) within refl,
      )

module _ {W : Type 0} (settings : Settings W) (input : Bytes) where
  pub step_header_field_start-Sound :
      (ch : ℕ) (f : Frame W)
      → Calm f
      → f.p < length input
      → Sound (length input) f.p (step_header_field_start settings input ch f)
  unfolding step_header_field_start
  step_header_field_start-Sound ch f h within = ground (
    arith,
    step_headers_almost_done-Sound settings (length input) ch
        (record f { state = s_headers_almost_done }) (ground arith) within,
  )

  pub step_header_value_lws-Sound :
      (ch : ℕ) (f : Frame W)
      → Inv 1 f
      → f.p < length input
      → f.state ≡ s_header_value_lws
      → Sound (length input) f.p (step_header_value_lws settings input ch f)
  unfolding step_header_value_lws
  step_header_value_lws-Sound ch f h within at = ground (
    arith,
    step_header_field_start-Sound ch (record f { state = s_header_field_start }) (ground arith)
        within,
  )

  pub step_header_field-Sound :
      (ch : ℕ) (f : Frame W)
      → Inv 1 f
      → f.p < length input
      → f.state ≡ s_header_field
      → Sound (length input) f.p (step_header_field settings input ch f)
  unfolding step_header_field callback_header_field
  step_header_field-Sound ch f h within at =
      ground
        (arith, field_char-Sound (length input) f.header_state ch (token ch) f h within at refl)

  pub step_header_value_start-Sound :
      (ch : ℕ) (f : Frame W)
      → Inv 1 f
      → f.p < length input
      → f.state ≡ s_header_value_start
      → Sound (length input) f.p (step_header_value_start settings input ch f)
  unfolding step_header_value_start callback_header_value
  step_header_value_start-Sound ch f h within at =
      let g = record f { header_value_mark = some f.p; state = s_header_value; index = 0 } in
      ground (
        arith,
        first_value_char-Sound (length input) f.header_state ch (lower ch) g (ground arith) within
            refl refl refl refl,
      )

  callback_header_value-Sound :
      (f : Frame W) (rest : Frame W → Flow W)
      → f.p < length input
      → ((w : W)
          → Sound (length input) f.p (rest (record f { world = w; header_value_mark = none })))
      → Sound (length input) f.p (callback_header_value settings input f rest)
  unfolding callback_header_value
  callback_header_value-Sound f rest within h =
      report-Sound (length input) settings.on_header_value input f.header_value_mark
        hpe_cb_header_value f (λ g. rest (record g { header_value_mark = none })) refl (le_refl f.p)
        within h

  pub step_header_value-Sound :
      (ch : ℕ) (f : Frame W)
      → Inv 1 f
      → f.p < length input
      → f.state ≡ s_header_value
      → Sound (length input) f.p (step_header_value settings input ch f)
  unfolding step_header_value
  step_header_value-Sound ch f h within at = ground (
    arith,
    value_char-Sound (length input) f.header_state ch (lower ch) f h within at refl,
    callback_header_value-Sound f (goto s_header_almost_done) within (λ w. ground arith),
    callback_header_value-Sound f (step_header_almost_done ch) within (λ w.
        step_header_almost_done-Sound (length input) ch
          (record f { world = w; header_value_mark = none }) (ground arith) (le_refl f.p) within),
  )

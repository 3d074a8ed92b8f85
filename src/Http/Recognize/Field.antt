-- ===== src/Http/Recognize/Field.antt =====
-- http_parser.c: which header names s_header_field_start and s_header_field take for which header.
use mathlib.Core.Path.{subst}
use mathlib.Core.List.{map}
use projectmoo.Base.{
  ℕ, ◌+◌, ◌-◌, ◌≤◌, ◌<◌, ◌≡◌, refl, ap, ◌∙◌, ◌↔◌, ◌⊎◌, inl, inr, Bool, true, false, ◌&&◌, [], ◌∷◌,
  arith, Bytes, length, drop, ◌==◌, Bool-cases, Option-cases,
}
use projectmoo.Http.Chars.{char_at, token, char_at-ne-none}
use projectmoo.Http.Execute.{step_in, round}
use projectmoo.Http.Frame.{Frame, Flow, next, halt, u64}
use projectmoo.Http.Header.{
  connection, proxy_connection, content_length_name, transfer_encoding, upgrade_name, match_char,
  match_word, match_letter, field_char, step_header_field_start, step_header_field,
}
use projectmoo.Http.Invariant.{field_fits}
use projectmoo.Http.Recognize.Name.{
  FieldName, header_of, all_spaces, is_named, field_name, to_come, is_named-drop, drop-length,
  to_come_nil, found_iff,
}
use projectmoo.Http.Rounds.{and_then, rounds}
use projectmoo.Http.Tables.{is_field_char, ascii_lower, token_lem}
use projectmoo.Http.Types.{
  s_header_field_start, s_header_field, HeaderState, h_general, h_matching_connection,
  h_matching_proxy_connection, h_matching_content_length, h_matching_transfer_encoding,
  h_matching_upgrade, h_connection, h_content_length, h_transfer_encoding, h_upgrade,
  http_max_header_size, Settings, state_code, parsing_header,
}

module _ {W : Type 0} where
  -- A byte of a word that is looked for: it differs; or it is the last one; or more are to come.
  pub match_word-is_named :
      (word : Bytes) (at_end : HeaderState) (c : ℕ) (r : Bytes) (f : Frame W)
      → length word ≤ 20
      → f.index < length word - 1
      → let i = f.index + 1 in
        let whole = is_named (drop i word) (c ∷ r) in
        ((match_word word at_end c f ≡ next (record f { index = i; header_state = h_general }))
          × (whole ≡ false))
        ⊎ (((match_word word at_end c f ≡ next (record f { index = i; header_state = at_end }))
              × (whole ≡ all_spaces r))
            ⊎ ((match_word word at_end c f ≡ next (record f { index = i }))
                × (i < length word - 1)
                × (whole ≡ is_named (drop (i + 1) word) r)))
  unfolding match_word match_char
  match_word-is_named word at_end c r f short more =
      let i = f.index + 1 in
      let wrap : u64 i ≡ i = omega arith in
      elim (Option-cases (char_at word i)) [
        | inl e ↦ absurd (char_at-ne-none word i (omega arith) e)
        | inr (x, e) ↦
            let step = is_named-drop word i c r e (omega arith) in
            elim (Bool-cases (i == length word - 1)) [
              | inl last ↦
                  let next_one : i + 1 ≡ length word = ground arith in
                  let over : drop (i + 1) word ≡ [] =
                    ap (λ j. drop j word) next_one ∙ drop-length word in
                  let rest : is_named (drop (i + 1) word) r ≡ all_spaces r =
                    ap (λ w. is_named w r) over in
                  ground (arith, wrap, e, step, rest)
              | inr early ↦ ground (arith, wrap, e, step)
            ]
      ]

  -- A step within a name, behind which `want` says whether the rest `r` completes the name of `x`.
  abbrev Goes : FieldName → Bool → Bytes → ℕ → Flow W → Type 0
  Goes x want r n (next g) =
      (g.state ≡ s_header_field)
      × (g.nread ≡ n)
      × (field_fits g.header_state g.index ≡ true)
      × (to_come x g.header_state g.index r ≡ want)
  Goes x want r n (halt o) = ⊥

  field_char-Goes :
      (h : HeaderState) (x : FieldName) (ch : ℕ) (r : Bytes) (f : Frame W)
      → f.state ≡ s_header_field
      → f.header_state ≡ h
      → field_fits h f.index ≡ true
      → Goes x
          (to_come x h f.index (ascii_lower ch ∷ r))
          r
          f.nread
          (field_char h ch (ascii_lower ch) f)
  unfolding field_char match_letter
  field_char-Goes h_matching_connection x ch r f at e fits =
      ground (arith, match_word-is_named connection h_connection (ascii_lower ch) r f)
  field_char-Goes h_matching_proxy_connection x ch r f at e fits =
      ground (arith, match_word-is_named proxy_connection h_connection (ascii_lower ch) r f)
  field_char-Goes h_matching_content_length x ch r f at e fits =
      ground (arith, match_word-is_named content_length_name h_content_length (ascii_lower ch) r f)
  field_char-Goes h_matching_transfer_encoding x ch r f at e fits =
      ground (arith, match_word-is_named transfer_encoding h_transfer_encoding (ascii_lower ch) r f)
  field_char-Goes h_matching_upgrade x ch r f at e fits =
      ground (arith, match_word-is_named upgrade_name h_upgrade (ascii_lower ch) r f)
  field_char-Goes _ x ch r f at e fits = ground arith

abbrev pub all_field_chars : Bytes → Bool
all_field_chars [] = true
all_field_chars (c ∷ cs) = is_field_char c && all_field_chars cs

module _ {W : Type 0} where
  -- The variables are within a name, and in the header state of `x` exactly if `want`.
  abbrev pub InName : FieldName → Bool → Flow W → Type 0
  InName x want (next g) =
      (g.state ≡ s_header_field) × ((g.header_state ≡ header_of x) ↔ (want ≡ true))
  InName x want (halt o) = ⊥

module _ {W : Type 0} (settings : Settings W) (input : Bytes) where
  field_char_token : (ch : ℕ) → is_field_char ch ≡ true → token ch ≡ ascii_lower ch
  field_char_token ch h = ground (arith, token_lem ch)

  field_round :
      (ch : ℕ) (f : Frame W)
      → f.state ≡ s_header_field
      → f.nread < http_max_header_size
      → is_field_char ch ≡ true
      → round settings input ch f
        ≡ field_char f.header_state ch (ascii_lower ch) (record f { nread = f.nread + 1 })
  unfolding round step_in step_header_field parsing_header state_code
  field_round ch f at few printable = ground (arith, field_char_token ch printable)

  start_round-Goes :
      (x : FieldName) (ch : ℕ) (r : Bytes) (f : Frame W)
      → f.state ≡ s_header_field_start
      → f.nread < http_max_header_size
      → is_field_char ch ≡ true
      → Goes x (field_name x (ascii_lower ch ∷ r)) r (f.nread + 1) (round settings input ch f)
  unfolding round step_in step_header_field_start parsing_header state_code
  start_round-Goes x ch r f at few printable = ground (arith, field_char_token ch printable)

  and_then-InName :
      (x : FieldName) (want : Bool) (r : Bytes) (n : ℕ) (fl : Flow W) (rest : Frame W → Flow W)
      → Goes x want r n fl
      → ((g : Frame W)
          → g.state ≡ s_header_field
          → g.nread ≡ n
          → field_fits g.header_state g.index ≡ true
          → InName x (to_come x g.header_state g.index r) (rest g))
      → InName x want (and_then settings input fl rest)
  and_then-InName x want r n (next g) rest (at, count, fits, same) then_on =
      subst (λ b. InName x b (rest (record g { p = g.p + 1 }))) same
        (then_on (record g { p = g.p + 1 }) at count fits)
  and_then-InName x want r n (halt o) rest h then_on = absurd h

  rounds-InName :
      (x : FieldName) (cs : Bytes) (f : Frame W)
      → f.state ≡ s_header_field
      → field_fits f.header_state f.index ≡ true
      → f.nread + length cs ≤ http_max_header_size
      → all_field_chars cs ≡ true
      → InName x
          (to_come x f.header_state f.index (map ascii_lower cs))
          (rounds settings input cs f)
  unfolding rounds
  rounds-InName x [] f at fits few printable =
      ground (arith, to_come_nil x f.header_state f.index fits, found_iff x f.header_state)
  rounds-InName x (c ∷ cs) f at fits few printable =
      let r = map ascii_lower cs in
      let g = record f { nread = f.nread + 1 } in
      rw (field_round c f at (omega arith) (ground arith)) (
        and_then-InName x (to_come x f.header_state f.index (ascii_lower c ∷ r)) r (f.nread + 1) _ _
          (field_char-Goes f.header_state x c r g at refl fits)
          (λ g' at' count fits'. rounds-InName x cs g' at' fits' (omega arith) (ground arith)))

  -- For any callbacks, at the start of a header, and within the limit on header bytes: bytes that are
  -- field characters do not end the call, the variables are within a name behind them, and the
  -- header state is that of a header exactly if the bytes, in lower case, are one of its names with
  -- any number of spaces behind it: connection or proxy-connection, content-length,
  -- transfer-encoding, upgrade.
  pub field_name_iff :
      (x : FieldName) (c : ℕ) (cs : Bytes) (f : Frame W)
      → f.state ≡ s_header_field_start
      → f.nread + length (c ∷ cs) ≤ http_max_header_size
      → all_field_chars (c ∷ cs) ≡ true
      → InName x (field_name x (map ascii_lower (c ∷ cs))) (rounds settings input (c ∷ cs) f)
  unfolding rounds
  field_name_iff x c cs f at few printable =
      let r = map ascii_lower cs in
      and_then-InName x (field_name x (ascii_lower c ∷ r)) r (f.nread + 1) _ _
        (start_round-Goes x c r f at (omega arith) (ground arith))
        (λ g at' count fits. rounds-InName x cs g at' fits (omega arith) (ground arith))

-- ===== src/Http/Header.antt =====
-- http_parser.c: the states of `http_parser_execute` that read header fields and values.
-- CONNECTION
use projectmoo.Base.{
  ℕ, ◌+◌, ◌-◌, ◌*◌, Bool, true, not, ◌||◌, Option, none, some, Bytes, codes, length, ltb, ◌==◌,
  if◌then◌else◌,
}
use projectmoo.Http.Chars.{cr, lf, char_at, token, lower, is_num}
use projectmoo.Http.Complete.{step_headers_almost_done}
use projectmoo.Http.Frame.{
  Frame, fault, Flow, next, halt, u64, goto, fail, strict_check, callback_header_field,
  callback_header_value,
}
use projectmoo.Http.Types.{
  hpe_invalid_header_token, hpe_invalid_content_length, s_header_field_start, s_header_field,
  s_header_value_start, s_header_value, s_header_value_lws, s_header_almost_done,
  s_headers_almost_done, HeaderState, h_general, h_c, h_co, h_con, h_matching_connection,
  h_matching_proxy_connection, h_matching_content_length, h_matching_transfer_encoding,
  h_matching_upgrade, h_connection, h_content_length, h_transfer_encoding, h_upgrade,
  h_matching_transfer_encoding_chunked, h_matching_connection_keep_alive,
  h_matching_connection_close, h_transfer_encoding_chunked, h_connection_keep_alive,
  h_connection_close, Flags, Settings,
}

abbrev pub connection : Bytes
connection = codes "connection"

-- PROXY_CONNECTION
abbrev pub proxy_connection : Bytes
proxy_connection = codes "proxy-connection"

-- CONTENT_LENGTH
abbrev pub content_length_name : Bytes
content_length_name = codes "content-length"

-- TRANSFER_ENCODING
abbrev pub transfer_encoding : Bytes
transfer_encoding = codes "transfer-encoding"

-- UPGRADE
abbrev pub upgrade_name : Bytes
upgrade_name = codes "upgrade"

-- CHUNKED
abbrev pub chunked_value : Bytes
chunked_value = codes "chunked"

-- KEEP_ALIVE
abbrev pub keep_alive : Bytes
keep_alive = codes "keep-alive"

-- CLOSE
abbrev pub close : Bytes
close = codes "close"

-- The flags that a header sets, in case s_header_almost_done.
unfoldable pub header_flags : HeaderState → Flags → Flags
header_flags h_connection_keep_alive fl = record fl { connection_keep_alive = true }
header_flags h_connection_close fl = record fl { connection_close = true }
header_flags h_transfer_encoding_chunked fl = record fl { chunked = true }
header_flags _ fl = fl

module _ {W : Type 0} where
  -- `header_state = h; break;`
  abbrev pub header_goto : HeaderState → Frame W → Flow W
  header_goto h f = next (record f { header_state = h })

  -- `c != WORD[index]` and the tests behind it, on what `WORD[index]` reads
  unfoldable pub match_char : Option ℕ → ℕ → Bool → HeaderState → Frame W → Flow W
  match_char none c last found f = halt fault
  match_char (some expected) c last found f =
      if not (c == expected)
      then header_goto h_general f
      else if last
      then header_goto found f
      else next f

  -- One byte `c` of a word that is looked for: a case h_matching_… of either header switch.
  unfoldable pub match_word : Bytes → HeaderState → ℕ → Frame W → Flow W
  unfolding match_char
  match_word word found c f =
      let i = u64 (f.index + 1) in
      let g = record f { index = i } in
      if ltb (length word) i
      then header_goto h_general g
      else match_char (char_at word i) c (i == length word - 1) found g

  -- `index++; header_state = (c == expected ? then_state : h_general);`
  unfoldable pub match_letter : ℕ → HeaderState → ℕ → Frame W → Flow W
  match_letter expected then_state c f = next (record f {
    index = u64 (f.index + 1);
    header_state = if c == expected then then_state else h_general;
  })

  -- `switch (header_state)` in case s_header_field, for a token byte `c` read from `ch`
  unfoldable pub field_char : HeaderState → ℕ → ℕ → Frame W → Flow W
  unfolding match_letter
  field_char h_general ch c f = next f
  field_char h_c ch c f = match_letter b'o' h_co c f
  field_char h_co ch c f = match_letter b'n' h_con c f
  field_char h_con ch c f = next (record f {
    index = u64 (f.index + 1);
    header_state =
        if c == b'n'
        then h_matching_connection
        else if c == b't'
        then h_matching_content_length
        else h_general;
  })
  field_char h_matching_connection ch c f = match_word connection h_connection c f
  field_char h_matching_proxy_connection ch c f = match_word proxy_connection h_connection c f
  field_char h_matching_content_length ch c f = match_word content_length_name h_content_length c f
  field_char h_matching_transfer_encoding ch c f =
      match_word transfer_encoding h_transfer_encoding c f
  field_char h_matching_upgrade ch c f = match_word upgrade_name h_upgrade c f
  field_char h_connection ch c f = if not (ch == b' ') then header_goto h_general f else next f
  field_char h_content_length ch c f = if not (ch == b' ') then header_goto h_general f else next f
  field_char h_transfer_encoding ch c f =
      if not (ch == b' ') then header_goto h_general f else next f
  field_char h_upgrade ch c f = if not (ch == b' ') then header_goto h_general f else next f
  field_char _ ch c f = halt fault

  -- `switch (header_state)` in case s_header_value, with `c = LOWER(ch)`
  unfoldable pub value_char : HeaderState → ℕ → ℕ → Frame W → Flow W
  unfolding is_num
  value_char h_general ch c f = next f
  value_char h_connection ch c f = halt fault
  value_char h_transfer_encoding ch c f = halt fault
  value_char h_content_length ch c f =
      let q = f.parser in
      if ch == b' '
      then next f
      else if not (is_num ch)
      then fail hpe_invalid_content_length f
      else next (record f {
        parser = record q { content_length = u64 (u64 (q.content_length * 10) + (ch - b'0')) };
      })
  value_char h_matching_transfer_encoding_chunked ch c f =
      match_word chunked_value h_transfer_encoding_chunked c f
  value_char h_matching_connection_keep_alive ch c f =
      match_word keep_alive h_connection_keep_alive c f
  value_char h_matching_connection_close ch c f = match_word close h_connection_close c f
  value_char h_transfer_encoding_chunked ch c f =
      if not (ch == b' ') then header_goto h_general f else next f
  value_char h_connection_keep_alive ch c f =
      if not (ch == b' ') then header_goto h_general f else next f
  value_char h_connection_close ch c f =
      if not (ch == b' ') then header_goto h_general f else next f
  value_char _ ch c f = next (record f { state = s_header_value; header_state = h_general })

  -- `switch (header_state)` in case s_header_value_start, with `c = LOWER(ch)`
  unfoldable pub first_value_char : HeaderState → ℕ → ℕ → Frame W → Flow W
  unfolding is_num
  first_value_char h_upgrade ch c f =
      let q = f.parser in
      let fl = q.flags in
      next (record f {
        parser = record q { flags = record fl { upgrading = true } };
        header_state = h_general;
      })
  first_value_char h_transfer_encoding ch c f =
      header_goto (if c == b'c' then h_matching_transfer_encoding_chunked else h_general) f
  first_value_char h_content_length ch c f =
      let q = f.parser in
      if not (is_num ch)
      then fail hpe_invalid_content_length f
      else next (record f { parser = record q { content_length = ch - b'0' } })
  first_value_char h_connection ch c f =
      if c == b'k'
      then header_goto h_matching_connection_keep_alive f
      else if c == b'c'
      then header_goto h_matching_connection_close f
      else header_goto h_general f
  first_value_char _ ch c f = header_goto h_general f

  -- case s_header_almost_done, and label header_almost_done
  unfoldable pub step_header_almost_done : ℕ → Frame W → Flow W
  unfolding header_flags
  step_header_almost_done ch f =
      let q = f.parser in
      strict_check (not (ch == lf)) f (
        next (record f {
          state = s_header_value_lws;
          parser = record q { flags = header_flags f.header_state q.flags };
        }))

module _ {W : Type 0} (settings : Settings W) (input : Bytes) where
  -- case s_header_field_start, and label header_field_start
  unfoldable pub step_header_field_start : ℕ → Frame W → Flow W
  step_header_field_start ch f =
      let c = token ch in
      if ch == cr
      then goto s_headers_almost_done f
      else if ch == lf
      then step_headers_almost_done settings ch (record f { state = s_headers_almost_done })
      else if c == 0
      then fail hpe_invalid_header_token f
      else next (record f {
        header_field_mark = some f.p;
        index = 0;
        state = s_header_field;
        header_state =
            if c == b'c'
            then h_c
            else if c == b'p'
            then h_matching_proxy_connection
            else if c == b't'
            then h_matching_transfer_encoding
            else if c == b'u'
            then h_matching_upgrade
            else h_general;
      })

  -- case s_header_field
  unfoldable pub step_header_field : ℕ → Frame W → Flow W
  step_header_field ch f =
      let c = token ch in
      if not (c == 0)
      then field_char f.header_state ch c f
      else if ch == b':'
      then callback_header_field settings input f (goto s_header_value_start)
      else if ch == cr
      then callback_header_field settings input (record f { state = s_header_almost_done }) next
      else if ch == lf
      then callback_header_field settings input f (goto s_header_field_start)
      else fail hpe_invalid_header_token f

  -- case s_header_value_start
  unfoldable pub step_header_value_start : ℕ → Frame W → Flow W
  step_header_value_start ch f =
      let g = record f { header_value_mark = some f.p; state = s_header_value; index = 0 } in
      if ch == b' ' || ch == b'\t'
      then next f
      else if ch == cr
      then callback_header_value settings input g
          (λ h. next (record h { header_state = h_general; state = s_header_almost_done }))
      else if ch == lf
      then callback_header_value settings input g (goto s_header_field_start)
      else first_value_char f.header_state ch (lower ch) g

  -- case s_header_value
  unfoldable pub step_header_value : ℕ → Frame W → Flow W
  step_header_value ch f =
      if ch == cr
      then callback_header_value settings input f (goto s_header_almost_done)
      else if ch == lf
      then callback_header_value settings input f (step_header_almost_done ch)
      else value_char f.header_state ch (lower ch) f

  -- case s_header_value_lws
  unfoldable pub step_header_value_lws : ℕ → Frame W → Flow W
  step_header_value_lws ch f =
      if ch == b' ' || ch == b'\t'
      then goto s_header_value_start f
      else step_header_field_start ch (record f { state = s_header_field_start })

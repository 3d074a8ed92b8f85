-- ===== src/Http/Frame.antt =====
-- The variables of `http_parser_execute` in http_parser.c, and the macros that its states use:
-- SET_ERRNO, CALLBACK2, MARK, CALLBACK, STRICT_CHECK, NEW_MESSAGE, the label `error`, and
-- `http_should_keep_alive`.
use projectmoo.Base.{
  ℕ, ◌-◌, ◌%◌, Bool, true, false, not, ◌&&◌, Option, none, some, Bytes, take, drop, ltb, ◌==◌,
  if◌then◌else◌,
}
use projectmoo.Http.Types.{
  ParserType, http_request, Errno, hpe_ok, hpe_cb_url, hpe_cb_header_field, hpe_cb_header_value,
  hpe_strict, hpe_unknown, State, s_dead, s_start_res, s_start_req, HeaderState, Parser, Settings,
}

-- The locals, the parser that the pointer leads to, and the client's world. `p` and the marks are
-- offsets into the input; a null mark is `none`.
pub record Frame (W : Type 0) : Type 0 where
  pub parser : Parser
  pub world : W
  pub state : State
  pub header_state : HeaderState
  pub index : ℕ  -- uint64_t
  pub nread : ℕ  -- uint64_t
  pub header_field_mark : Option ℕ
  pub header_value_mark : Option ℕ
  pub url_mark : Option ℕ
  pub p : ℕ

-- How a call ends: with a number of bytes, with a failed `assert` or a read behind the end of a
-- string, or not within the fuel.
pub data Outcome (W : Type 0) : Type 0 where
  returned : Parser → W → ℕ → Outcome W
  fault : Outcome W
  exhausted : Outcome W

-- What one round of the loop does: `break` out of the switch, or end the call.
pub data Flow (W : Type 0) : Type 0 where
  next : Frame W → Flow W
  halt : Outcome W → Flow W

-- Arithmetic of fixed width wraps.
abbrev pub u8 : ℕ → ℕ
u8 n = n % 256

abbrev pub u16 : ℕ → ℕ
u16 n = n % 65536

abbrev pub u32 : ℕ → ℕ
u32 n = n % 4294967296

abbrev pub u64 : ℕ → ℕ
u64 n = n % 18446744073709551616

-- The sign bit of an int64_t.
abbrev pub is_negative : ℕ → Bool
is_negative n = not (ltb n 9223372036854775808)

-- -1 as an int64_t
abbrev pub minus_one : ℕ
minus_one = 18446744073709551615

abbrev pub is_ok : Errno → Bool
is_ok hpe_ok = true
is_ok _ = false

abbrev pub is_request : ParserType → Bool
is_request http_request = true
is_request _ = false

-- `http_should_keep_alive`
unfoldable pub http_should_keep_alive : Parser → Bool
http_should_keep_alive q =
    if ltb 0 q.http_major && ltb 0 q.http_minor
    then not q.flags.connection_close
    else q.flags.connection_keep_alive

-- `start_state`
abbrev pub start_state : Parser → State
start_state q = if is_request q.type then s_start_req else s_start_res

-- `NEW_MESSAGE()`
unfoldable pub new_message : Parser → State
unfolding http_should_keep_alive
new_message q = if http_should_keep_alive q then start_state q else s_dead

module _ {W : Type 0} where
  -- `state = s; break;`
  abbrev pub goto : State → Frame W → Flow W
  goto s f = next (record f { state = s })

  -- `SET_ERRNO`
  abbrev pub set_errno : Errno → Frame W → Frame W
  set_errno e f = let q = f.parser in record f { parser = record q { http_errno = e } }

  -- the label `error`
  abbrev pub error : Frame W → Flow W
  error f =
      let q = f.parser in
      halt (
        returned (if is_ok q.http_errno then record q { http_errno = hpe_unknown } else q) f.world
          f.p)

  -- `SET_ERRNO(e); goto error;`
  abbrev pub fail : Errno → Frame W → Flow W
  fail e f = error (set_errno e f)

  -- `STRICT_CHECK`
  abbrev pub strict_check : Bool → Frame W → Flow W → Flow W
  strict_check bad f rest = if bad then fail hpe_strict f else rest

  -- A callback's result: any but 0 ends the call at `p`.
  abbrev pub answered : ℕ × W → Errno → Frame W → (Frame W → Flow W) → Flow W
  answered (rc, w) e f rest =
      let q = f.parser in
      if rc == 0
      then rest (record f { world = w })
      else halt (returned (record q { http_errno = e }) w f.p)

  -- `CALLBACK2`
  unfoldable pub notify :
      Option (Parser → W → ℕ × W) → Errno → Frame W → (Frame W → Flow W) → Flow W
  notify none e f rest = rest f
  notify (some cb) e f rest = answered (cb f.parser f.world) e f rest

  -- The callback of `CALLBACK`, on the bytes between a mark and `p`.
  unfoldable pub report :
      Option (Parser → Bytes → W → ℕ × W)
      → Bytes
      → Option ℕ
      → Errno
      → Frame W
      → (Frame W → Flow W)
      → Flow W
  report cb input none e f rest = rest f
  report none input (some m) e f rest = rest f
  report (some cb) input (some m) e f rest =
      answered (cb f.parser (take (f.p - m) (drop m input)) f.world) e f rest

  module _ (settings : Settings W) (input : Bytes) where
    -- `CALLBACK(url)`
    unfoldable pub callback_url : Frame W → (Frame W → Flow W) → Flow W
    unfolding report
    callback_url f rest =
        report settings.on_url input f.url_mark hpe_cb_url f
          (λ g. rest (record g { url_mark = none }))

    -- `CALLBACK(header_field)`
    unfoldable pub callback_header_field : Frame W → (Frame W → Flow W) → Flow W
    unfolding report
    callback_header_field f rest =
        report settings.on_header_field input f.header_field_mark hpe_cb_header_field f
          (λ g. rest (record g { header_field_mark = none }))

    -- `CALLBACK(header_value)`
    unfoldable pub callback_header_value : Frame W → (Frame W → Flow W) → Flow W
    unfolding report
    callback_header_value f rest =
        report settings.on_header_value input f.header_value_mark hpe_cb_header_value f
          (λ g. rest (record g { header_value_mark = none }))

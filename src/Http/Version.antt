-- ===== src/Http/Version.antt =====
-- http_parser.c: the digits of an HTTP version, which its request states and its response states
-- read by the same code.
use projectmoo.Base.{ℕ, ◌+◌, ◌-◌, ◌*◌, not, ◌||◌, ltb, if◌then◌else◌}
use projectmoo.Http.Chars.{is_num}
use projectmoo.Http.Frame.{Frame, Flow, next, u16, fail}
use projectmoo.Http.Types.{hpe_invalid_version, State}

module _ {W : Type 0} where
  -- the first digit of the major version
  unfoldable pub first_major : State → ℕ → Frame W → Flow W
  first_major then_state ch f =
      let q = f.parser in
      if ltb ch b'1' || ltb b'9' ch
      then fail hpe_invalid_version f
      else next (record f { parser = record q { http_major = ch - b'0' }; state = then_state })

  -- a further digit of the major version
  unfoldable pub next_major : ℕ → Frame W → Flow W
  unfolding is_num
  next_major ch f =
      let q = f.parser in
      let n = u16 (u16 (q.http_major * 10) + (ch - b'0')) in
      let g = record f { parser = record q { http_major = n } } in
      if not (is_num ch)
      then fail hpe_invalid_version f
      else if ltb 999 n
      then fail hpe_invalid_version g
      else next g

  -- the first digit of the minor version
  unfoldable pub first_minor : State → ℕ → Frame W → Flow W
  unfolding is_num
  first_minor then_state ch f =
      let q = f.parser in
      if not (is_num ch)
      then fail hpe_invalid_version f
      else next (record f { parser = record q { http_minor = ch - b'0' }; state = then_state })

  -- a further digit of the minor version
  unfoldable pub next_minor : ℕ → Frame W → Flow W
  unfolding is_num
  next_minor ch f =
      let q = f.parser in
      let n = u16 (u16 (q.http_minor * 10) + (ch - b'0')) in
      let g = record f { parser = record q { http_minor = n } } in
      if not (is_num ch)
      then fail hpe_invalid_version f
      else if ltb 999 n
      then fail hpe_invalid_version g
      else next g

-- ===== src/Http/Request.antt =====
-- http_parser.c: the states of `http_parser_execute` that read a request's method and version.
use projectmoo.Base.{
  ℕ, ◌+◌, Bool, true, false, not, ◌&&◌, ◌||◌, Option, none, some, ◌==◌, if◌then◌else◌,
}
use projectmoo.Http.Chars.{cr, lf, char_at, is_alpha}
use projectmoo.Http.Frame.{Frame, fault, Flow, next, halt, u64, goto, error, fail, strict_check}
use projectmoo.Http.Methods.{method_strings}
use projectmoo.Http.Response.{begin_message, start_req_method_assign}
use projectmoo.Http.Types.{
  Method, http_post, http_put, http_connect, http_copy, http_mkcol, http_move, http_propfind,
  http_proppatch, http_unlock, http_mkactivity, http_checkout, http_merge, http_msearch,
  http_unsubscribe, http_patch, hpe_invalid_method, hpe_lf_expected, hpe_invalid_constant,
  s_req_spaces_before_url, s_req_http_h, s_req_http_ht, s_req_http_htt, s_req_http_http,
  s_req_first_http_major, s_req_http_major, s_req_first_http_minor, s_req_http_minor,
  s_req_line_almost_done, s_header_field_start, Settings,
}
use projectmoo.Http.Version.{first_major, next_major, first_minor, next_minor}

abbrev pub is_connect : Method → Bool
is_connect http_connect = true
is_connect _ = false

module _ {W : Type 0} where
  -- case s_start_req, and label start_req_method_assign
  unfoldable pub step_start_req : Settings W → ℕ → Frame W → Flow W
  step_start_req settings ch f =
      if ch == cr || ch == lf
      then next f
      else begin_message settings f (λ g.
        if not (is_alpha ch)
        then fail hpe_invalid_method g
        else start_req_method_assign settings ch g)

  -- `parser->method = m; … ++index; break;`
  abbrev switch_method : Method → Frame W → Flow W
  switch_method m f =
      let q = f.parser in
      next (record f { parser = record q { method = m }; index = u64 (f.index + 1) })

  -- The branches of case s_req_method where the byte is not that of the name tried so far.
  unfoldable pub other_method : Method → ℕ → Frame W → Flow W
  other_method http_connect ch f =
      if f.index == 1 && ch == b'H'
      then switch_method http_checkout f
      else if f.index == 2 && ch == b'P'
      then switch_method http_copy f
      else error f
  other_method http_mkcol ch f =
      if f.index == 1 && ch == b'O'
      then switch_method http_move f
      else if f.index == 1 && ch == b'E'
      then switch_method http_merge f
      else if f.index == 1 && ch == b'-'
      then switch_method http_msearch f
      else if f.index == 2 && ch == b'A'
      then switch_method http_mkactivity f
      else error f
  other_method http_post ch f =
      if f.index == 1
      then (if ch == b'R'
          then switch_method http_propfind f
          else if ch == b'U'
          then switch_method http_put f
          else if ch == b'A'
          then switch_method http_patch f
          else error f)
      else fail hpe_invalid_method f
  other_method http_unlock ch f =
      if f.index == 2 && ch == b'S'
      then switch_method http_unsubscribe f
      else fail hpe_invalid_method f
  other_method http_propfind ch f =
      if f.index == 4 && ch == b'P'
      then switch_method http_proppatch f
      else fail hpe_invalid_method f
  other_method _ ch f = fail hpe_invalid_method f

  -- case s_req_method, on what `matcher[index]` reads
  unfoldable pub match_method : Option ℕ → ℕ → Frame W → Flow W
  unfolding other_method
  match_method none ch f = halt fault
  match_method (some expected) ch f =
      if ch == b' ' && expected == 0
      then next (record f { state = s_req_spaces_before_url; index = u64 (f.index + 1) })
      else if ch == expected
      then next (record f { index = u64 (f.index + 1) })
      else other_method f.parser.method ch f

  -- case s_req_method
  unfoldable pub step_req_method : ℕ → Frame W → Flow W
  step_req_method ch f =
      if ch == 0
      then fail hpe_invalid_method f
      else match_method (char_at (method_strings f.parser.method) f.index) ch f

  -- case s_req_http_start
  unfoldable pub step_req_http_start : ℕ → Frame W → Flow W
  step_req_http_start ch f =
      if ch == b'H'
      then goto s_req_http_h f
      else if ch == b' '
      then next f
      else fail hpe_invalid_constant f

  -- case s_req_http_H
  unfoldable pub step_req_http_h : ℕ → Frame W → Flow W
  step_req_http_h ch f = strict_check (not (ch == b'T')) f (goto s_req_http_ht f)

  -- case s_req_http_HT
  unfoldable pub step_req_http_ht : ℕ → Frame W → Flow W
  step_req_http_ht ch f = strict_check (not (ch == b'T')) f (goto s_req_http_htt f)

  -- case s_req_http_HTT
  unfoldable pub step_req_http_htt : ℕ → Frame W → Flow W
  step_req_http_htt ch f = strict_check (not (ch == b'P')) f (goto s_req_http_http f)

  -- case s_req_http_HTTP
  unfoldable pub step_req_http_http : ℕ → Frame W → Flow W
  step_req_http_http ch f = strict_check (not (ch == b'/')) f (goto s_req_first_http_major f)

  -- case s_req_first_http_major
  unfoldable pub step_req_first_http_major : ℕ → Frame W → Flow W
  unfolding first_major
  step_req_first_http_major ch f = first_major s_req_http_major ch f

  -- case s_req_http_major
  unfoldable pub step_req_http_major : ℕ → Frame W → Flow W
  unfolding next_major
  step_req_http_major ch f = if ch == b'.' then goto s_req_first_http_minor f else next_major ch f

  -- case s_req_first_http_minor
  unfoldable pub step_req_first_http_minor : ℕ → Frame W → Flow W
  unfolding first_minor
  step_req_first_http_minor ch f = first_minor s_req_http_minor ch f

  -- case s_req_http_minor
  unfoldable pub step_req_http_minor : ℕ → Frame W → Flow W
  unfolding next_minor
  step_req_http_minor ch f =
      if ch == cr
      then goto s_req_line_almost_done f
      else if ch == lf
      then goto s_header_field_start f
      else next_minor ch f

  -- case s_req_line_almost_done
  unfoldable pub step_req_line_almost_done : ℕ → Frame W → Flow W
  step_req_line_almost_done ch f =
      if not (ch == lf) then fail hpe_lf_expected f else goto s_header_field_start f

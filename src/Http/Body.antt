-- ===== src/Http/Body.antt =====
-- http_parser.c: the states of `http_parser_execute` that read a body: by its length, up to the
-- end of the stream, or in chunks. `remaining` is `pe - p`.
use projectmoo.Base.{
  ℕ, ◌+◌, ◌-◌, ◌*◌, Bool, true, not, ◌&&◌, ◌||◌, Option, none, some, Bytes, length, take, drop, ltb,
  ◌==◌, if◌then◌else◌,
}
use projectmoo.Http.Chars.{cr, lf, unhex_value}
use projectmoo.Http.Complete.{end_message}
use projectmoo.Http.Frame.{
  Frame, fault, Flow, next, halt, u64, is_negative, goto, fail, strict_check,
}
use projectmoo.Http.Types.{
  hpe_invalid_chunk_size, s_header_field_start, s_chunk_size_start, s_chunk_size,
  s_chunk_parameters, s_chunk_size_almost_done, s_chunk_data, s_chunk_data_almost_done,
  s_chunk_data_done, Parser, Settings,
}

module _ {W : Type 0} (settings : Settings W) (input : Bytes) where
  abbrev pub remaining : Frame W → ℕ
  remaining f = length input - f.p

  -- `MIN(pe - p, (int64_t) parser->content_length)`; a negative length is the smaller one
  unfoldable pub to_read : Frame W → ℕ
  to_read f =
      let n = f.parser.content_length in
      if is_negative n || not (ltb (remaining f) n) then n else remaining f

  -- The client's world after `if (settings->on_body) settings->on_body(parser, p, to_read);`. The
  -- callback's result is not looked at.
  unfoldable pub told : Option (Parser → Bytes → W → ℕ × W) → ℕ → Frame W → W
  told none n f = f.world
  told (some cb) n f = (cb f.parser (take n (drop f.p input)) f.world).1

  -- That call, and `p += to_read - 1;`
  unfoldable pub deliver : ℕ → Frame W → Frame W
  deliver n f = record f { p = f.p + (n - 1); world = told settings.on_body n f }

  -- `to_read > 0`
  abbrev pub is_positive : ℕ → Bool
  is_positive n = ltb 0 n && not (is_negative n)

  -- `parser->content_length -= n`
  unfoldable pub shorten : ℕ → Frame W → Frame W
  shorten n f =
      let q = f.parser in
      record f {
        parser = record q { content_length = u64 (q.content_length + 18446744073709551616 - n) };
      }

  -- case s_body_identity
  unfoldable pub step_body_identity : ℕ → Frame W → Flow W
  unfolding deliver shorten
  step_body_identity ch f =
      let n = to_read f in
      let g = shorten n (deliver n f) in
      if is_positive n
      then (if g.parser.content_length == 0 then end_message settings g else next g)
      else next f

  -- case s_body_identity_eof
  unfoldable pub step_body_identity_eof : ℕ → Frame W → Flow W
  unfolding deliver
  step_body_identity_eof ch f =
      let n = remaining f in if is_positive n then next (deliver n f) else next f

  -- case s_chunk_size_start, with its two assertions
  unfoldable pub step_chunk_size_start : ℕ → Frame W → Flow W
  unfolding unhex_value
  step_chunk_size_start ch f =
      let q = f.parser in
      let v = unhex_value ch in
      if not (f.nread == 1) || not q.flags.chunked
      then halt fault
      else if v == 255
      then fail hpe_invalid_chunk_size f
      else next (record f { parser = record q { content_length = v }; state = s_chunk_size })

  -- case s_chunk_size
  unfoldable pub step_chunk_size : ℕ → Frame W → Flow W
  unfolding unhex_value
  step_chunk_size ch f =
      let q = f.parser in
      let v = unhex_value ch in
      if not q.flags.chunked
      then halt fault
      else if ch == cr
      then goto s_chunk_size_almost_done f
      else if v == 255
      then (if ch == b';' || ch == b' '
          then goto s_chunk_parameters f
          else fail hpe_invalid_chunk_size f)
      else next (record f {
        parser = record q { content_length = u64 (u64 (q.content_length * 16) + v) };
      })

  -- case s_chunk_parameters
  unfoldable pub step_chunk_parameters : ℕ → Frame W → Flow W
  step_chunk_parameters ch f =
      if not f.parser.flags.chunked
      then halt fault
      else if ch == cr
      then goto s_chunk_size_almost_done f
      else next f

  -- case s_chunk_size_almost_done
  unfoldable pub step_chunk_size_almost_done : ℕ → Frame W → Flow W
  step_chunk_size_almost_done ch f =
      let q = f.parser in
      let fl = q.flags in
      let g = record f { nread = 0 } in
      if not fl.chunked
      then halt fault
      else strict_check (not (ch == lf)) f (
          if q.content_length == 0
          then next (record g {
            parser = record q { flags = record fl { trailing = true } };
            state = s_header_field_start;
          })
          else goto s_chunk_data g)

  -- case s_chunk_data
  unfoldable pub step_chunk_data : ℕ → Frame W → Flow W
  unfolding deliver shorten
  step_chunk_data ch f =
      let n = to_read f in
      let g = if is_positive n then deliver n f else f in
      let h =
        if n == f.parser.content_length then record g { state = s_chunk_data_almost_done } else g in
      if not f.parser.flags.chunked then halt fault else next (shorten n h)

  -- case s_chunk_data_almost_done
  unfoldable pub step_chunk_data_almost_done : ℕ → Frame W → Flow W
  step_chunk_data_almost_done ch f =
      if not f.parser.flags.chunked
      then halt fault
      else strict_check (not (ch == cr)) f (goto s_chunk_data_done f)

  -- case s_chunk_data_done
  unfoldable pub step_chunk_data_done : ℕ → Frame W → Flow W
  step_chunk_data_done ch f =
      if not f.parser.flags.chunked
      then halt fault
      else strict_check (not (ch == lf)) f (goto s_chunk_size_start f)

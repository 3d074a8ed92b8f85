-- ===== src/Http/Split/Byte.antt =====
-- A call of `http_parser_execute` (http_parser.c) on one byte.
use native.Mathlib.Numerals.{add-one}
use projectmoo.Base.{ℕ, ◌+◌, ◌≡◌, refl, ◌∙◌, [], ◌∷◌, arith, Bytes, length}
use projectmoo.Http.Execute.{
  initial_frame, stored, continue, round, store, finish, loop, loop_end, loop_step,
  http_parser_execute, execute_loop,
}
use projectmoo.Http.Frame.{
  Frame, Outcome, returned, Flow, next, halt, callback_url, callback_header_field,
  callback_header_value,
}
use projectmoo.Http.Invariant.{Sound}
use projectmoo.Http.Invariant.Execute.{Ready, round-Sound}
use projectmoo.Http.Split.{IsQuiet, report-none}
use projectmoo.Http.Types.{hpe_cb_header_field, Parser, Settings}

module _ {W : Type 0} where
  -- What becomes of the only round of a call.
  abbrev pub closed : Flow W → Outcome W
  closed (next g) = returned (stored g) g.world 1
  closed (halt o) = o

module _ {W : Type 0} (settings : Settings W) (quiet : IsQuiet settings) where
  -- With no callback left to call, the parser is stored.
  pub finish_quiet :
      (input : Bytes) (f : Frame W)
      → finish settings input f ≡ returned (stored f) f.world (length input)
  unfolding finish store callback_header_field callback_header_value callback_url
  finish_quiet input f = ground (
    arith,
    report-none settings.on_header_field input f.header_field_mark hpe_cb_header_field f,
    quiet.no_field,
    quiet.no_value,
    quiet.no_url,
  )

  continue_byte :
      (c : ℕ) (fl : Flow W) → Sound 1 0 fl → continue (loop settings (c ∷ []) 1) fl ≡ closed fl
  continue_byte c (next g) h =
      loop_end settings (c ∷ []) 0 (record g { p = g.p + 1 }) (ground (arith, add-one g.p))
      ∙ finish_quiet (c ∷ []) (record g { p = g.p + 1 })
  continue_byte c (halt o) h = refl

  pub execute_byte :
      (c : ℕ) (q : Parser) (w : W)
      → Ready q
      → http_parser_execute settings (c ∷ []) q w
        ≡ closed (round settings (c ∷ []) c (initial_frame q w))
  execute_byte c q w h =
      execute_loop settings (c ∷ []) q w h.no_error (omega arith)
      ∙ loop_step settings (c ∷ []) 1 (initial_frame q w) refl
      ∙ continue_byte c (round settings (c ∷ []) c (initial_frame q w))
          (round-Sound settings (c ∷ []) c (initial_frame q w) (ground arith) (ground arith))

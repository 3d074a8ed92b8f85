-- ===== src/Http/Invariant/Calls.antt =====
-- `http_parser_execute` of http_parser.c as a whole, and sequences of its calls on one parser.
use native.Mathlib.Nat.{le_refl}
use mathlib.Core.Path.{subst}
use projectmoo.Base.{
  ℕ, zero, suc, ◌+◌, ◌-◌, ◌≤◌, ◌<◌, ◌≡◌, refl, sym, ◌∙◌, ◌≢◌, inl, inr, Bool, true, false, Option,
  none, some, [], ◌∷◌, arith, Bytes, length, get_elem?, take, drop, get_elem?_lt, Option-cases,
}
use projectmoo.Http.Execute.{
  http_parser_init, initial_frame, stored, continue, execute_eof, round, store, finish, loop,
  loop_end, loop_step, http_parser_execute, execute_nil,
}
use projectmoo.Http.Frame.{
  Frame, Outcome, returned, fault, exhausted, Flow, next, halt, is_ok, notify, report,
}
use projectmoo.Http.Invariant.{Inv, Sound}
use projectmoo.Http.Invariant.Execute.{
  Ready, Settled, initial_url_mark_marked, initial_url_mark_before,
  initial_header_field_mark_before, initial_header_value_mark_before, round-Sound,
}
use projectmoo.Http.Types.{
  ParserType, Errno, hpe_ok, hpe_cb_url, hpe_cb_header_field, hpe_cb_header_value, State, s_dead,
  s_start_req_or_res, s_start_res, s_start_req, s_body_identity_eof, Parser, Settings,
}

-- What the callbacks behind the loop may come to: a parser to store, or an error.
abbrev Final : {W : Type 0} → ℕ → Flow W → Type 0
Final len (next g) = Ready (stored g)
Final len (halt (returned q w n)) = (n ≤ len) × (q.http_errno ≢ hpe_ok)
Final len (halt fault) = ⊥
Final len (halt exhausted) = ⊥

module _ {W : Type 0} (settings : Settings W) (input : Bytes) where
  report-Final :
      (cb : Option (Parser → Bytes → W → ℕ × W)) (mark : Option ℕ) (e : Errno) (f : Frame W)
      (rest : Frame W → Flow W)
      → is_ok e ≡ false
      → f.p ≤ length input
      → ((w : W) → Final (length input) (rest (record f { world = w })))
      → Final (length input) (report cb input mark e f rest)
  unfolding report
  report-Final cb none e f rest bad within h = h f.world
  report-Final none (some m) e f rest bad within h = h f.world
  report-Final (some cb) (some m) e f rest bad within h =
      ground (arith, h (cb f.parser (take (f.p - m) (drop m input)) f.world).1)

  store-Settled :
      (fl : Flow W) → Final (length input) fl → Settled (length input) (store settings input fl)
  unfolding store
  store-Settled (next g) h = (le_refl (length input), inr (refl, h))
  store-Settled (halt (returned q w n)) h = ground arith
  store-Settled (halt fault) h = h
  store-Settled (halt exhausted) h = h

  pub stored-Ready : (f : Frame W) → Inv 0 f → Ready (stored f)
  stored-Ready f h = ground (
    arith,
    initial_url_mark_marked f.state,
    initial_url_mark_before f.state,
    initial_header_field_mark_before f.state,
    initial_header_value_mark_before f.state,
  )

  finish-Settled :
      (f : Frame W)
      → Inv 0 f
      → f.p ≤ length input
      → Settled (length input) (finish settings input f)
  unfolding finish
  finish-Settled f h within =
      let ready = stored-Ready f h in
      store-Settled _ (
        report-Final settings.on_header_field f.header_field_mark hpe_cb_header_field f _ refl
          within
          (λ w.
            report-Final settings.on_header_value f.header_value_mark hpe_cb_header_value _ _ refl
              within
              (λ w'.
                report-Final settings.on_url f.url_mark hpe_cb_url _ _ refl within (λ w''. ready))))

  continue-Settled :
      (p : ℕ) (fl : Flow W) (rest : Frame W → Outcome W)
      → Sound (length input) p fl
      → ((g : Frame W) → Inv 0 g → p < g.p → g.p ≤ length input → Settled (length input) (rest g))
      → Settled (length input) (continue rest fl)
  continue-Settled p (next g) rest h then_on =
      then_on (record g { p = g.p + 1 }) (ground arith) (omega arith) (omega arith)
  continue-Settled p (halt (returned q w n)) rest h then_on = ground arith
  continue-Settled p (halt fault) rest h then_on = h
  continue-Settled p (halt exhausted) rest h then_on = h

  loop-Settled :
      (fuel : ℕ) (f : Frame W)
      → Inv 0 f
      → f.p ≤ length input
      → length input - f.p < fuel
      → Settled (length input) (loop settings input fuel f)
  unfolding loop
  loop-Settled zero f h within enough = absurd (omega arith)
  loop-Settled (suc fuel) f h within enough = elim (Option-cases (get_elem? input f.p)) [
    | inl e ↦ rw (loop_end settings input fuel f e) (finish-Settled f h within)
    | inr (ch, e) ↦ rw (loop_step settings input fuel f e) (
        continue-Settled f.p (round settings input ch f) (loop settings input fuel)
          (round-Sound settings input ch f h (get_elem?_lt input f.p e))
          (λ g h' after within'. loop-Settled fuel g h' within' (omega arith)))
  ]

  -- One call of `http_parser_execute` on a parser that meets the invariant, with at least one byte
  -- and any callbacks: no assertion fails, no string is read behind its end, the fuel that the
  -- model gives to the loop is enough, and the result is at most the number of bytes. If it leaves
  -- no error and no upgrade, all bytes were read and the parser meets the invariant again.
  pub execute-Settled :
      (q : Parser) (w : W)
      → Ready q
      → 0 < length input
      → Settled (length input) (http_parser_execute settings input q w)
  unfolding http_parser_execute
  execute-Settled q w h some_input =
      ground (arith, loop-Settled (suc (length input)) (initial_frame q w) (ground arith))

-- `http_parser_init` makes a parser ready, whatever the memory held; `index` and `content_length`
-- have their widths.
pub init-Ready :
    (q : Parser) (t : ParserType)
    → q.index < 256
    → q.content_length < 18446744073709551616
    → Ready (http_parser_init q t)
unfolding http_parser_init
init-Ready q t i c = ground arith

abbrev pub at_boundary : State → Bool
at_boundary s_dead = true
at_boundary s_start_req_or_res = true
at_boundary s_start_res = true
at_boundary s_start_req = true
at_boundary _ = false

module _ {W : Type 0} (settings : Settings W) where
  -- The end of the stream changes nothing but the error.
  execute_eof-eq :
      (s : State) (q : Parser) (w : W) {q' : Parser} {w' : W} {n : ℕ}
      → execute_eof settings s q w ≡ returned q' w' n
      → q'.http_errno ≡ hpe_ok
      → q' ≡ q
  unfolding execute_eof notify
  execute_eof-eq s_body_identity_eof q w e ok = elim (Option-cases settings.on_message_complete) [
    | inl e' ↦ ground arith
    | inr (cb, e') ↦ ground arith
  ]
  execute_eof-eq _ q w e ok = ground arith

  -- The parsers that a client may have: initialised, and then given to any number of calls, each
  -- of which left neither an error nor an upgrade.
  pub data Reach : Parser → W → Type 0 where
    initialised :
        (memory : Parser) (t : ParserType) (w : W)
        → memory.index < 256
        → memory.content_length < 18446744073709551616
        → Reach (http_parser_init memory t) w
    called :
        {q q' : Parser} {w w' : W} {n : ℕ} (input : Bytes)
        → Reach q w
        → http_parser_execute settings input q w ≡ returned q' w' n
        → q'.http_errno ≡ hpe_ok
        → q'.upgrade ≡ false
        → Reach q' w'

  pub execute-Ready :
      (input : Bytes) (q : Parser) (w : W) {q' : Parser} {w' : W} {n : ℕ}
      → Ready q
      → http_parser_execute settings input q w ≡ returned q' w' n
      → q'.http_errno ≡ hpe_ok
      → q'.upgrade ≡ false
      → Ready q'
  execute-Ready [] q w h e ok up =
      subst Ready
        (sym (execute_eof-eq q.state q w (sym (execute_nil settings q w h.no_error) ∙ e) ok)) h
  execute-Ready (c ∷ cs) q w h e ok up = ground (
    arith,
    subst (Settled (length (c ∷ cs))) e (execute-Settled settings (c ∷ cs) q w h (omega arith)),
  )

  -- Every parser that a client may have meets the invariant.
  pub Reach-Ready : {q : Parser} {w : W} → Reach q w → Ready q
  Reach-Ready (initialised memory t w i c) = init-Ready memory t i c
  Reach-Ready (called input r e ok up) = execute-Ready input _ _ (Reach-Ready r) e ok up

-- ===== src/Http/Split/Calls.antt =====
-- A call of `http_parser_execute` (http_parser.c) on several bytes, and calls on each of them.
use mathlib.Core.Path.{subst}
use projectmoo.Base.{
  ℕ, zero, suc, ◌+◌, ◌-◌, ◌≤◌, ◌<◌, ◌≡◌, refl, sym, ap, ◌∙◌, inl, inr, true, false, some, [], ◌∷◌,
  arith, Bytes, length, get_elem?, drop, get_elem?_lt, drop_cons, drop_nil, length-drop, Bool-cases,
}
use projectmoo.Http.Execute.{
  initial_frame, stored, continue, round, loop, loop_end, loop_step, http_parser_execute,
  execute_loop,
}
use projectmoo.Http.Frame.{Frame, Outcome, returned, fault, exhausted, Flow, next, halt}
use projectmoo.Http.Invariant.{Inv, Sound}
use projectmoo.Http.Invariant.Calls.{stored-Ready}
use projectmoo.Http.Invariant.Execute.{Ready, round-Sound}
use projectmoo.Http.Split.{forget, IsQuiet, Alike, SameFlow}
use projectmoo.Http.Split.Byte.{closed, finish_quiet, execute_byte}
use projectmoo.Http.Split.Feed.{
  read_before, go_on, feed, SameEnd, read_before-SameEnd, go_on_more, go_on_stop,
}
use projectmoo.Http.Split.Round.{is_wide, round-SameFlow}
use projectmoo.Http.Split.Shrink.{
  wide_left, shrunk-Ready, shrunk-Alike, shrunk-Inv, ahead-Inv, execute_shrunk,
}
use projectmoo.Http.Split.Wide.{shrunk, one_on, round_wide}
use projectmoo.Http.Types.{Parser, Settings}

module _ {W : Type 0} (settings : Settings W) (cs : Bytes) where
  -- From one round on the same byte, if the rest of the bytes agree.
  round-SameEnd :
      (len k p : ℕ) (fl fl' : Flow W) (rest : Frame W → Outcome W)
      → SameFlow k fl fl'
      → Sound len p fl
      → Sound 1 0 fl'
      → ((g g' : Frame W)
          → Inv 0 g
          → Inv 0 g'
          → Alike k g g'
          → g'.p ≡ 0
          → SameEnd
              (k + 1)
              (rest (record g { p = g.p + 1 }))
              (feed settings cs (stored g') g'.world))
      → SameEnd k (continue rest fl) (go_on (feed settings cs) (closed fl'))
  round-SameEnd len k p (next g) (next g') rest same h h' then_on =
      rw (go_on_more (feed settings cs) (stored g') g'.world 1 (ground arith) (ground arith))
        (read_before-SameEnd k _ _ (then_on g g' (ground arith) (ground arith) same (ground arith)))
  round-SameEnd len k p (halt (returned q w n)) (halt (returned r v m)) rest same h h' then_on =
      rw (go_on_stop (feed settings cs) r v m (ground arith)) (ground arith)
  round-SameEnd len k p (next g) (halt o) rest same h h' then_on = ground arith
  round-SameEnd len k p (halt (returned q w n)) (next g) rest same h h' then_on = ground arith
  round-SameEnd len k p (halt (returned q w n)) (halt fault) rest same h h' then_on = ground arith
  round-SameEnd len k p (halt (returned q w n)) (halt exhausted) rest same h h' then_on =
      ground arith
  round-SameEnd len k p (halt fault) fl' rest same h h' then_on = absurd h
  round-SameEnd len k p (halt exhausted) fl' rest same h h' then_on = absurd h

module _ {W : Type 0} (settings : Settings W) (quiet : IsQuiet settings) (input : Bytes)
    (small : length input < 9223372036854775808) where
  -- A round that reads several bytes is the same round after one of them.
  loop_wide :
      (fuel c : ℕ) (cs : Bytes) (f : Frame W)
      → drop f.p input ≡ c ∷ cs
      → is_wide f.state f.parser.content_length (length input - f.p) ≡ true
      → f.parser.content_length < 18446744073709551616
      → loop settings input (suc fuel) f ≡ loop settings input (suc fuel) (one_on f)
  loop_wide fuel c [] f behind wide word =
      let left = length-drop input f.p in
      absurd (
        omega (
          arith,
          wide_left f.state f.parser.content_length (length input - f.p) wide,
          ap length behind,
        ))
  loop_wide fuel c (d ∷ ds) f behind wide word =
      let (at, behind') = drop_cons input f.p behind in
      let (at', behind'') = drop_cons input (f.p + 1) behind' in
      loop_step settings input fuel f at
      ∙ ap (continue (loop settings input fuel))
          (round_wide settings quiet input c d f wide word small)
      ∙ sym (loop_step settings input fuel (one_on f) at')

  feed_wide :
      (c : ℕ) (cs : Bytes) (q : Parser) (w : W) (r : ℕ)
      → Ready q
      → is_wide q.state q.content_length r ≡ true
      → feed settings (c ∷ cs) q w ≡ read_before 1 (feed settings cs (shrunk q.state q) w)
  unfolding feed
  feed_wide c cs q w r ready wide =
      let after = shrunk-Ready r q ready wide in
      ap (go_on (feed settings cs)) (execute_shrunk settings quiet c r q w ready wide)
      ∙ go_on_more (feed settings cs) (shrunk q.state q) w 1 after.no_error after.no_upgrade

  stored_same :
      (f : Frame W) (q : Parser) → Inv 0 f → Alike f.p f (initial_frame q f.world) → stored f ≡ q
  stored_same f q h a = ground arith

  stored-Alike :
      {k : ℕ} (g g' : Frame W)
      → Alike k g g'
      → Inv 0 g'
      → g'.p ≡ 0
      → Alike (g.p + 1) (record g { p = g.p + 1 }) (initial_frame (stored g') g.world)
  stored-Alike g g' a h at_start = ground arith

  moved-SameEnd :
      {j k : ℕ} {w v : W} (o : Outcome W) (rest : W → Outcome W)
      → j ≡ k
      → w ≡ v
      → SameEnd j o (rest w)
      → SameEnd k o (rest v)
  moved-SameEnd {k} {w} o rest e e' h =
      subst (λ u. SameEnd k o (rest u)) e' (subst (λ i. SameEnd i o (rest w)) e h)

  -- A round that reads one byte, and a call on it.
  narrow-SameEnd :
      (fuel c : ℕ) (cs : Bytes) (f : Frame W) (q : Parser)
      → Inv 0 f
      → Ready q
      → Alike f.p f (initial_frame q f.world)
      → get_elem? input f.p ≡ some c
      → is_wide f.state f.parser.content_length (length input - f.p) ≡ false
      → ((g : Frame W) (r : Parser)
          → Inv 0 g
          → Ready r
          → Alike g.p g (initial_frame r g.world)
          → g.p ≡ f.p + 1
          → SameEnd g.p (loop settings input fuel g) (feed settings cs r g.world))
      → SameEnd f.p (loop settings input (suc fuel) f) (feed settings (c ∷ cs) q f.world)
  unfolding feed
  narrow-SameEnd fuel c cs f q h ready a at narrow then_on =
      let within = get_elem?_lt input f.p at in
      let g0 = initial_frame q f.world in
      let one = c ∷ [] in
      rw (loop_step settings input fuel f at, execute_byte settings quiet c q f.world ready)
        (round-SameEnd settings cs (length input) f.p f.p (round settings input c f)
          (round settings one c g0) (loop settings input fuel)
          (round-SameFlow settings quiet input c c f g0 a within refl narrow)
          (round-Sound settings input c f h within)
          (round-Sound settings one c g0 (ground arith) (ground arith))
          (λ g g' h' h'' b at_start.
            let same : g.p + 1 ≡ f.p + 1 = ground (arith, b.offset) in
            moved-SameEnd _ (feed settings cs (stored g')) same b.world (
              then_on (record g { p = g.p + 1 }) (stored g') (ahead-Inv g h')
                (stored-Ready settings input g' h'') (stored-Alike g g' b h'' at_start) same)))

  loop-feed :
      (fuel : ℕ) (cs : Bytes) (f : Frame W) (q : Parser)
      → Inv 0 f
      → Ready q
      → Alike f.p f (initial_frame q f.world)
      → drop f.p input ≡ cs
      → f.p ≤ length input
      → length cs < fuel
      → SameEnd f.p (loop settings input fuel f) (feed settings cs q f.world)
  unfolding feed
  loop-feed zero cs f q h ready a behind within enough = absurd (omega arith)
  loop-feed (suc fuel) [] f q h ready a behind within enough =
      let left = length-drop input f.p in
      let same = stored_same f q h a in
      rw
        (
          loop_end settings input fuel f (drop_nil input f.p behind),
          finish_quiet settings quiet input f,
        )
        (refl, omega (arith, left, ap length behind), ap forget same, inr same)
  loop-feed (suc fuel) (c ∷ cs) f q h ready a behind within enough =
      let (at, behind') = drop_cons input f.p behind in
      let inside = get_elem?_lt input f.p at in
      elim (Bool-cases (is_wide f.state f.parser.content_length (length input - f.p))) [
        | inl wide ↦
            let left = length input - f.p in
            let here : is_wide q.state q.content_length left ≡ true = ground arith in
            rw (loop_wide fuel c cs f behind wide h.word, feed_wide c cs q f.world left ready here)
              (read_before-SameEnd f.p _ _ (
                loop-feed (suc fuel) cs (one_on f) (shrunk q.state q)
                  (ahead-Inv _ (shrunk-Inv left f h wide)) (shrunk-Ready left q ready here)
                  (shrunk-Alike f q a) behind' (omega arith) (omega arith)))
        | inr narrow ↦ narrow-SameEnd fuel c cs f q h ready a at narrow (λ g r h' ready' b on.
            loop-feed fuel cs g r h' ready' b (rw on behind') (omega arith) (omega arith))
      ]

  -- One call on all bytes, and a call on each.
  pub execute-feed :
      (q : Parser) (w : W)
      → Ready q
      → 0 < length input
      → SameEnd 0 (http_parser_execute settings input q w) (feed settings input q w)
  execute-feed q w h some_input = rw (execute_loop settings input q w h.no_error some_input) (
      loop-feed (suc (length input)) input (initial_frame q w) q (ground arith) h (ground arith)
        refl (omega arith) (omega arith))

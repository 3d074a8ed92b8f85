-- ===== src/Http/Rounds.antt =====
-- Rounds of the loop of `http_parser_execute` (http_parser.c) over given bytes, in states that read one
-- byte a round, and what the loop makes of them.
use native.Mathlib.Numerals.{add-one}
use projectmoo.Base.{
  ℕ, suc, ◌+◌, ◌≡◌, ◌∙◌, none, some, [], ◌∷◌, arith, Bytes, length, get_elem?, get_elem?-length,
}
use projectmoo.Http.Execute.{stored, round, store, finish, loop, loop_end, loop_step}
use projectmoo.Http.Frame.{Frame, returned, Flow, next, halt}
use projectmoo.Http.Types.{Settings}

module _ {W : Type 0} (settings : Settings W) (input : Bytes) where
  abbrev pub and_then : Flow W → (Frame W → Flow W) → Flow W
  and_then (next g) rest = rest (record g { p = g.p + 1 })
  and_then (halt o) rest = halt o

  -- The rounds on these bytes, one after the other.
  unfoldable pub rounds : Bytes → Frame W → Flow W
  rounds [] f = next f
  rounds (c ∷ cs) f = and_then (round settings input c f) (rounds cs)

  -- A round that reads a byte and goes on is a round of the loop.
  pub loop_next :
      (fuel : ℕ) (f : Frame W) {ch : ℕ} {g : Frame W}
      → get_elem? input f.p ≡ some ch
      → round settings input ch f ≡ next g
      → loop settings input (suc fuel) f ≡ loop settings input fuel (record g { p = g.p + 1 })
  loop_next fuel f e r = rw (loop_step settings input fuel f e) (rw r)

  -- Nothing is marked: no callback follows the loop.
  pub finish_unmarked :
      (f : Frame W)
      → f.header_field_mark ≡ none
      → f.header_value_mark ≡ none
      → f.url_mark ≡ none
      → finish settings input f ≡ returned (stored f) f.world (length input)
  unfolding finish store
  finish_unmarked f a b c = ground arith

module _ {W : Type 0} (settings : Settings W) where
  -- All bytes are read in one round that leaves `g`: the call ends behind them.
  pub loop_read_all :
      (c : ℕ) (cs : Bytes) (f g : Frame W)
      → f.p ≡ 0
      → round settings (c ∷ cs) c f ≡ next g
      → g.p ≡ length cs
      → g.header_field_mark ≡ none
      → g.header_value_mark ≡ none
      → g.url_mark ≡ none
      → loop settings (c ∷ cs) (suc (suc (length cs))) f
        ≡ returned (stored g) g.world (length (c ∷ cs))
  loop_read_all c cs f g at_start r at_end a b d =
      loop_next settings (c ∷ cs) (suc (length cs)) f (ground arith) r
      ∙ loop_end settings (c ∷ cs) (length cs) (record g { p = g.p + 1 })
          (ground (arith, add-one g.p, get_elem?-length cs))
      ∙ finish_unmarked settings (c ∷ cs) (record g { p = g.p + 1 }) a b d

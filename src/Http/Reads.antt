-- ===== src/Http/Reads.antt =====
-- Runs of the loop of `http_parser_execute` (http_parser.c) over bytes of which a round may read many,
-- one run after another.
use mathlib.Core.List.{append-nil, append_assoc}
use projectmoo.Base.{
  ℕ, suc, ◌+◌, ◌≡◌, sym, ap, ◌∙◌, none, [], ◌∷◌, ◌++◌, arith, Bytes, length, drop, length-append,
  drop_nil,
}
use projectmoo.Http.Execute.{stored, round, loop, loop_end}
use projectmoo.Http.Frame.{Frame, returned, next}
use projectmoo.Http.Rounds.{finish_unmarked}
use projectmoo.Http.Runs.{Runs, Runs-one}
use projectmoo.Http.Types.{Settings}

module _ {W : Type 0} (settings : Settings W) (input : Bytes) where
  -- Wherever these bytes come next, the loop reads them on the variables `f` and goes on with `g`, on
  -- at least the fuel that is left.
  abbrev pub Reads : Bytes → Frame W → Frame W → Type 0
  Reads cs f g =
      (rest : Bytes) (fuel : ℕ)
      → drop f.p input ≡ cs ++ rest
      → (more : ℕ) × (loop settings input (length cs + fuel) f
          ≡ loop settings input (more + fuel) g)
        × (drop g.p input ≡ rest)

  pub Reads-Runs : (cs : Bytes) (f g : Frame W) → Runs settings input cs f g → Reads cs f g
  Reads-Runs cs f g r rest fuel behind =
      let (e, behind') = r rest fuel behind in
      (0, e ∙ ap (λ k. loop settings input k g) (omega arith), behind')

  pub Reads-append :
      (xs ys : Bytes) (f g h : Frame W) → Reads xs f g → Reads ys g h → Reads (xs ++ ys) f h
  Reads-append xs ys f g h first second rest fuel behind =
      let (more, e, behind') =
        first (ys ++ rest) (length ys + fuel) (behind ∙ append_assoc xs ys rest) in
      let (more', e', behind'') = second rest (more + fuel) behind' in
      (
        more' + more,
        ap (λ k. loop settings input k f) (omega (arith, length-append xs ys))
            ∙ e
            ∙ ap (λ k. loop settings input k g) (omega arith)
            ∙ e'
            ∙ ap (λ k. loop settings input k h) (omega arith),
        behind'',
      )

  pub Reads-one :
      (c : ℕ) (f g : Frame W)
      → round settings input c f ≡ next g
      → g.p ≡ f.p
      → Reads (c ∷ []) f (record g { p = f.p + 1 })
  Reads-one c f g e same =
      Reads-Runs (c ∷ []) f (record g { p = f.p + 1 }) (Runs-one settings input c f g e same)

module _ {W : Type 0} (settings : Settings W) where
  -- The end of a call that reads all of its bytes in such rounds.
  pub loop-Reads :
      (input : Bytes) (f g : Frame W)
      → f.p ≡ 0
      → Reads settings input input f g
      → g.header_field_mark ≡ none
      → g.header_value_mark ≡ none
      → g.url_mark ≡ none
      → loop settings input (suc (length input)) f ≡ returned (stored g) g.world (length input)
  loop-Reads input f g at_start reads a b d =
      let (more, e, behind) =
        reads [] 1 (ap (λ k. drop k input) at_start ∙ sym (append-nil input)) in
      ap (λ k. loop settings input k f) (omega arith)
      ∙ e
      ∙ ap (λ k. loop settings input k g) (omega arith)
      ∙ loop_end settings input more g (drop_nil input g.p behind)
      ∙ finish_unmarked settings input g a b d

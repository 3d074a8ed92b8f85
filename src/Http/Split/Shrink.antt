-- ===== src/Http/Split/Shrink.antt =====
-- http_parser.c: a byte of a body that is not its last one.
use projectmoo.Base.{ℕ, ◌+◌, ◌<◌, ◌≡◌, refl, ◌∙◌, ◌⊎◌, inl, inr, true, [], ◌∷◌, arith, Bytes}
use projectmoo.Http.Behaviour.Bodies.{body_told, execute_body_part, execute_body_eof}
use projectmoo.Http.Execute.{initial_frame, http_parser_execute}
use projectmoo.Http.Frame.{Frame, returned}
use projectmoo.Http.Invariant.{Inv}
use projectmoo.Http.Invariant.Execute.{Ready}
use projectmoo.Http.Split.{forget, IsQuiet, Alike}
use projectmoo.Http.Split.Round.{is_wide}
use projectmoo.Http.Split.Wide.{shrunk, one_on}
use projectmoo.Http.Types.{
  State, s_chunk_data, s_body_identity, s_body_identity_eof, Parser, Settings,
}

-- A state in which a byte may be one of several.
wide_states :
    (s : State) (n r : ℕ)
    → is_wide s n r ≡ true
    → (((s ≡ s_body_identity) ⊎ (s ≡ s_chunk_data)) × (1 < n) × (n < 9223372036854775808))
      ⊎ (s ≡ s_body_identity_eof)
wide_states s_body_identity n r h = ground arith
wide_states s_chunk_data n r h = ground arith
wide_states s_body_identity_eof n r h = ground arith
wide_states _ n r h = ground arith

pub wide_left : (s : State) (n r : ℕ) → is_wide s n r ≡ true → 1 < r
wide_left s_body_identity n r h = ground arith
wide_left s_chunk_data n r h = ground arith
wide_left s_body_identity_eof n r h = ground arith
wide_left _ n r h = ground arith

pub shrunk-Ready :
    (r : ℕ) (q : Parser)
    → Ready q
    → is_wide q.state q.content_length r ≡ true
    → Ready (shrunk q.state q)
shrunk-Ready r q h wide = ground (arith, wide_states q.state q.content_length r wide)

shrunk_same :
    (s : State) (q r : Parser)
    → forget q ≡ forget r
    → (forget (shrunk s q) ≡ forget (shrunk s r))
      × ((shrunk s r).state ≡ r.state)
      × ((shrunk s r).header_state ≡ r.header_state)
      × ((shrunk s r).index ≡ r.index)
      × ((shrunk s r).nread ≡ r.nread)
shrunk_same s_body_identity_eof q r h = ground arith
shrunk_same _ q r h = ground arith

module _ {W : Type 0} where
  pub shrunk-Alike :
      (f : Frame W) (q : Parser)
      → Alike f.p f (initial_frame q f.world)
      → Alike (f.p + 1) (one_on f) (initial_frame (shrunk q.state q) f.world)
  shrunk-Alike f q a = ground (arith, shrunk_same q.state f.parser q a.parser)

  pub shrunk-Inv :
      (r : ℕ) (f : Frame W)
      → Inv 0 f
      → is_wide f.state f.parser.content_length r ≡ true
      → Inv 0 (record f { parser = shrunk f.state f.parser })
  shrunk-Inv r f h wide = ground (arith, wide_states f.state f.parser.content_length r wide)

  pub ahead-Inv : (f : Frame W) → Inv 0 f → Inv 0 (record f { p = f.p + 1 })
  ahead-Inv f h = ground arith

module _ {W : Type 0} (settings : Settings W) (quiet : IsQuiet settings) where
  told_nothing : (q : Parser) (bytes : Bytes) (w : W) → body_told settings.on_body q bytes w ≡ w
  told_nothing q bytes w = rw quiet.no_body refl

  pub execute_shrunk :
      (c r : ℕ) (q : Parser) (w : W)
      → Ready q
      → is_wide q.state q.content_length r ≡ true
      → http_parser_execute settings (c ∷ []) q w ≡ returned (shrunk q.state q) w 1
  execute_shrunk c r q w h wide = elim (wide_states q.state q.content_length r wide) [
    | inl (inl at, more, small) ↦
        execute_body_part settings (c ∷ []) q w h (ground arith) (ground arith) (ground arith) small
        ∙ ground (arith, told_nothing q (c ∷ []) w)
    | inl (inr at, more, small) ↦
        execute_body_part settings (c ∷ []) q w h (ground (arith, h.chunks)) (ground arith)
          (ground arith) small
        ∙ ground (arith, told_nothing q (c ∷ []) w)
    | inr at ↦
        execute_body_eof settings (c ∷ []) q w h at (ground arith) (ground arith)
        ∙ ground (arith, told_nothing q (c ∷ []) w)
  ]

-- ===== src/EchoServer/Owners.antt =====
-- example/webserver1.c: whose the blocks are behind each callback.
use mathlib.Core.Path.{subst}
use projectmoo.Base.{
  ℕ, ◌≡◌, sym, ap, ◌∙◌, inl, inr, Bool, true, false, ◌&&◌, Option, some, List, [], ◌∷◌, arith,
  Bytes, ◌==◌, if◌then◌else◌, Bool-cases,
}
use projectmoo.EchoServer.Callbacks.{starts_with_s, close_peer, close_server, scan}
use projectmoo.EchoServer.Memory.{Holding, Holding-free}
use projectmoo.EchoServer.Requests.{Holding-close_reading, Holding-close_server}
use projectmoo.EchoServer.World.{Uv, World, has, free}

-- Does the loop of `after_read` close the stream at this letter?
abbrev pub stops : ℕ → Bytes → Bool
stops c cs = c == b'Q' && starts_with_s cs

module _ {L : Type 0} (uv : Uv L) where
  -- What is held behind the loop of `after_read` on the stream `s`.
  abbrev pub Left : ℕ → ℕ → List ℕ → Bool × World L → Type 0
  Left s base held (true, w) = Holding held w
  Left s base held (false, w) = Holding (base ∷ held) w × (has s w.reading ≡ true)

  pub scan_stop :
      (s : ℕ) (base : Option ℕ) (c : ℕ) (cs : Bytes) (w : World L)
      → stops c cs ≡ true
      → scan uv s base (c ∷ cs) w ≡ (true, close_peer uv s (free base w))
  unfolding scan
  scan_stop s base c cs w e = ground (arith, e)

  abbrev pub quit_on : ℕ → World L → World L
  quit_on c w = if c == b'Q' then close_server uv w else w

  pub scan_on :
      (s : ℕ) (base : Option ℕ) (c : ℕ) (cs : Bytes) (w : World L)
      → stops c cs ≡ false
      → scan uv s base (c ∷ cs) w ≡ scan uv s base cs (quit_on c w)
  unfolding scan
  scan_on s base c cs w e = ground (arith, e)

  quit_on_lem :
      {held : List ℕ} {w : World L} (s c : ℕ)
      → Holding held w
      → has s w.reading ≡ true
      → Holding held (quit_on c w) × (has s (quit_on c w).reading ≡ true)
  unfolding close_server
  quit_on_lem {held} {w} s c h e =
      elim (c == b'Q')
        as (λ b.
          let v = if b then close_server uv w else w in Holding held v × (has s v.reading ≡ true)) [
            | true ↦ (Holding-close_server uv h, ground (arith, e))
            | false ↦ (h, e)
          ]

  pub free-reading : (base : ℕ) (w : World L) → (free (some base) w).reading ≡ w.reading
  unfolding free
  free-reading base w = ground arith

  pub Left-scan :
      (s base : ℕ) {held : List ℕ} (cs : Bytes) (w : World L)
      → Holding (base ∷ held) w
      → has s w.reading ≡ true
      → Left s base held (scan uv s (some base) cs w)
  unfolding scan
  Left-scan s base [] w h e = (h, e)
  Left-scan s base {held} (c ∷ cs) w h e = elim (Bool-cases (stops c cs)) [
    | inl stop ↦
        subst (Left s base held) (sym (scan_stop s (some base) c cs w stop))
          (Holding-close_reading uv s (Holding-free h) (ap (has s) (free-reading base w) ∙ e))
    | inr on ↦
        let (h', e') = quit_on_lem s c h e in
        subst (Left s base held) (sym (scan_on s (some base) c cs w on))
          (Left-scan s base cs (quit_on c w) h' e')
  ]

-- ===== src/EchoServer/Reads.antt =====
-- example/webserver1.c: whose the blocks are behind `after_read`, of bytes that were read.
use mathlib.Core.Path.{subst}
use projectmoo.Base.{
  ℕ, ◌≡◌, refl, sym, ap, ◌∙◌, Bool, true, false, some, List, ◌∷◌, Bytes, take, ◌==◌, if◌then◌else◌,
}
use projectmoo.EchoServer.Callbacks.{write_peer, scan, after_read}
use projectmoo.EchoServer.Memory.{Holding, held_live, follow_live, Holding-malloc, Holding-free}
use projectmoo.EchoServer.Owners.{Left, Left-scan}
use projectmoo.EchoServer.Requests.{Holding-write_peer}
use projectmoo.EchoServer.World.{Uv, World, has, follow, malloc, free}

module _ {L : Type 0} (uv : Uv L) where
  -- A block is written back to its stream.
  abbrev pub echo : ℕ → ℕ → ℕ → Bytes → World L → World L
  echo s base n text w =
      let (p, v) = malloc w in
      write_peer uv (record { address = p; base = some base; len = n }) s text v

  -- The end of `after_read`, behind its loop.
  abbrev pub behind_scan : ℕ → ℕ → ℕ → Bytes → Bool × World L → World L
  behind_scan s base n text (true, w) = w
  behind_scan s base n text (false, w) = echo s base n text w

  Holding-behind_scan :
      (s base n : ℕ) {held : List ℕ} (text : Bytes) (r : Bool × World L)
      → Left uv s base held r
      → Holding held (behind_scan s base n text r)
  unfolding malloc
  Holding-behind_scan s base n text (true, w) h = h
  Holding-behind_scan s base n text (false, w) (h, e) =
      Holding-write_peer uv _ s text refl (Holding-malloc h) e

  -- The bytes that `after_read` goes through, and what its loop leaves.
  abbrev pub scanned : ℕ → ℕ → Bytes → World L → Bool × World L
  scanned s base text w = if w.server_closed then (false, w) else scan uv s (some base) text w

  Left-scanned :
      (s base : ℕ) {held : List ℕ} (text : Bytes) (w : World L)
      → Holding (base ∷ held) w
      → has s w.reading ≡ true
      → Left uv s base held (scanned s base text w)
  Left-scanned s base {held} text w h e =
      elim w.server_closed
        as (λ b. Left uv s base held (if b then (false, w) else scan uv s (some base) text w)) [
          | true ↦ (h, e)
          | false ↦ Left-scan uv s base text w h e
        ]

  -- `after_read` of a block, whose pointer is followed.
  abbrev echo_read : ℕ → ℕ → ℕ → Bytes → World L → World L → World L
  echo_read s base n text w followed =
      if n == 0
      then free (some base) w
      else behind_scan s base n text
          (if w.server_closed then (false, w) else scan uv s (some base) text followed)

  behind_scan_if :
      (s base n : ℕ) (text : Bytes) (r : Bool × World L)
      → (if r.0
          then r.1
          else write_peer uv
              (record { address = (malloc r.1).0; base = some base; len = n })
              s
              text
              (malloc r.1).1)
        ≡ behind_scan s base n text r
  behind_scan_if s base n text (true, w) = refl
  behind_scan_if s base n text (false, w) = refl

  pub after_read_lem :
      (s base n : ℕ) (bytes : Bytes) (w : World L)
      → has base w.live ≡ true
      → let text = take n bytes in
        after_read uv s (some n) (record { base = some base; bytes = bytes }) w
        ≡ (if n == 0 then free (some base) w else behind_scan s base n text (scanned s base text w))
  unfolding after_read
  after_read_lem s base n bytes w e =
      let text = take n bytes in
      ap (λ r. if n == 0 then free (some base) w else r)
        (behind_scan_if s base n text (
          if w.server_closed
          then (false, w)
          else scan uv s (some base) text (follow (some base) w)))
      ∙ ap (echo_read s base n text w) (follow_live base w e)

  pub Holding-after_read :
      (s base n : ℕ) {held : List ℕ} (bytes : Bytes) (w : World L)
      → Holding (base ∷ held) w
      → has s w.reading ≡ true
      → Holding held (after_read uv s (some n) (record { base = some base; bytes = bytes }) w)
  Holding-after_read s base n {held} bytes w h e =
      let text = take n bytes in
      let echoed =
        Holding-behind_scan s base n text (scanned s base text w)
          (Left-scanned s base text w h e) in
      subst (Holding held) (sym (after_read_lem s base n bytes w (held_live h)))
        (elim (n == 0)
          as (λ b.
            Holding held (
              if b
              then free (some base) w
              else behind_scan s base n text (scanned s base text w))) [
                | true ↦ Holding-free h
                | false ↦ echoed
              ])

-- ===== src/EchoServer/Requests.antt =====
-- example/webserver1.c: the calls of libuv, and whose the blocks are behind them.
use mathlib.Core.Path.{subst}
use projectmoo.Base.{ℕ, ◌≡◌, sym, true, false, some, List, ◌∷◌, arith, Bytes}
use projectmoo.EchoServer.Callbacks.{close_peer, close_server, shutdown_peer, write_peer}
use projectmoo.EchoServer.Memory.{
  awaited, lost, Holding, occurrences-remove, occurrences-absent, held_live,
}
use projectmoo.EchoServer.World.{peer, WriteReq, ShutdownReq, Uv, World, has, remove, follow}

module _ {L : Type 0} (uv : Uv L) where
  -- What `close_peer` does to a stream that is not being closed.
  abbrev closed_peer : ℕ → World L → World L
  closed_peer p w = record w {
    loop = uv.close (peer p) w.loop;
    reading = remove p w.reading;
    closing = p ∷ w.closing;
  }

  close_peer_lem :
      (p : ℕ) (w : World L)
      → has p w.live ≡ true
      → has p w.closing ≡ false
      → close_peer uv p w ≡ closed_peer p w
  unfolding close_peer follow
  close_peer_lem p w e e' = ground (arith, e, e')

  -- A stream that libuv reads from is closed.
  pub Holding-close_reading :
      (p : ℕ) {held : List ℕ} {w : World L}
      → Holding held w
      → has p w.reading ≡ true
      → Holding held (close_peer uv p w)
  unfolding awaited lost
  Holding-close_reading p {held} {w} h e =
      let alive : has p w.live ≡ true = ground (arith, h.owned p) in
      let once : has p w.closing ≡ false = ground (arith, h.owned p, h.single p) in
      subst (Holding held) (sym (close_peer_lem p w alive once)) record {
        owned = λ a. ground (arith, h.owned a, occurrences-remove a p w.reading e);
        single = h.single;
        unused = h.unused;
        harmless = h.harmless;
      }

  -- A stream that is held is closed.
  pub Holding-close_held :
      {held : List ℕ} {p : ℕ} {w : World L}
      → Holding (p ∷ held) w
      → Holding held (close_peer uv p w)
  unfolding awaited lost
  Holding-close_held {held} {p} {w} h =
      let once : has p w.closing ≡ false = ground (arith, h.owned p, h.single p) in
      let unread : has p w.reading ≡ false = ground (arith, h.owned p, h.single p) in
      subst (Holding held) (sym (close_peer_lem p w (held_live h) once)) record {
        owned = λ a. ground (arith, h.owned a, occurrences-absent a p w.reading unread);
        single = h.single;
        unused = h.unused;
        harmless = h.harmless;
      }

  pub Holding-close_server :
      {held : List ℕ} {w : World L} → Holding held w → Holding held (close_server uv w)
  unfolding close_server awaited lost
  Holding-close_server {held} {w} h = record {
    owned = λ a. ground (arith, h.owned a);
    single = λ a. ground (arith, h.single a);
    unused = λ a le. ground (arith, h.unused a);
    harmless = ground (arith, h.harmless);
  }

  -- libuv takes a request to shut down, or does not.
  pub Holding-shutdown_peer :
      {held : List ℕ} {req : ShutdownReq} {w : World L}
      → Holding (req.address ∷ req.handle ∷ held) w
      → Holding held (shutdown_peer uv req w)
  unfolding shutdown_peer follow awaited lost
  Holding-shutdown_peer {held} {req} {w} h =
      let mine : has req.address w.live ≡ true = held_live h in
      let its : has req.handle w.live ≡ true = ground (arith, h.owned req.handle) in
      record {
        owned = λ a. ground (arith, h.owned a);
        single = λ a. ground (arith, h.single a);
        unused = λ a le. ground (arith, h.unused a);
        harmless = ground (arith, h.harmless);
      }

  -- libuv takes a request to write, or does not.
  pub Holding-write_peer :
      {base : ℕ} {held : List ℕ} {w : World L} (wr : WriteReq) (s : ℕ) (text : Bytes)
      → wr.base ≡ some base
      → Holding (wr.address ∷ base ∷ held) w
      → has s w.reading ≡ true
      → Holding held (write_peer uv wr s text w)
  unfolding write_peer follow awaited lost
  Holding-write_peer {base} {held} {w} wr s text b h e =
      let mine : has wr.address w.live ≡ true = held_live h in
      let its : has base w.live ≡ true = ground (arith, h.owned base) in
      let alive : has s w.live ≡ true = ground (arith, h.owned s) in
      record {
        owned = λ a. ground (arith, h.owned a);
        single = λ a. ground (arith, h.single a);
        unused = λ a le. ground (arith, h.unused a);
        harmless = ground (arith, h.harmless);
      }

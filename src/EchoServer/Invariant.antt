-- ===== src/EchoServer/Invariant.antt =====
-- example/webserver1.c: the heap of the server, at every step.
use projectmoo.Base.{
  ℕ, ◌+◌, ◌≤◌, ◌≡◌, refl, ap, ◌∙◌, true, Option, none, some, List, [], ◌∷◌, ◌++◌, arith, Bytes,
}
use projectmoo.EchoServer.Callbacks.{
  after_write, after_shutdown, after_read, on_close, echo_alloc, on_connection,
}
use projectmoo.EchoServer.Memory.{
  one, of_base, of_writes, of_shutdowns, awaited, lost, unharmed, Holding, occurrences-remove,
  of_writes-middle, of_shutdowns-middle, Holding-malloc, Holding-free,
}
use projectmoo.EchoServer.Reads.{Holding-after_read}
use projectmoo.EchoServer.Requests.{Holding-close_held, Holding-shutdown_peer}
use projectmoo.EchoServer.Steps.{
  started, receive, end_stream, Ending, end_read, end_write, end_shutdown, end_close, Step, connect,
  read, ending, turn, Reach, start, later,
}
use projectmoo.EchoServer.World.{
  StreamType, WriteReq, ShutdownReq, Uv, World, occurrences, has, remove, malloc, free,
}

module _ {L : Type 0} (uv : Uv L) where
  Holding-swap :
      {p q : ℕ} {held : List ℕ} {w : World L} → Holding (p ∷ q ∷ held) w → Holding (q ∷ p ∷ held) w
  Holding-swap {p} {q} {held} h = record {
    owned = λ a. ground (arith, h.owned a);
    single = h.single;
    unused = h.unused;
    harmless = h.harmless;
  }

  -- What a request holds: its buffer and itself.
  abbrev held_by : WriteReq → List ℕ
  held_by wr = elim wr.base [ none ↦ wr.address ∷ [] | some base ↦ base ∷ wr.address ∷ [] ]

  occurrences-held_by :
      (a : ℕ) (wr : WriteReq) → occurrences a (held_by wr) ≡ of_base a wr.base + one a wr.address
  occurrences-held_by a wr = ground arith

  Holding-after_write :
      (wr : WriteReq) {w : World L} → Holding (held_by wr) w → Holding [] (after_write uv wr w)
  unfolding after_write free
  Holding-after_write wr {w} h =
      (elim wr.base
          as (λ o.
            Holding (elim o [ none ↦ wr.address ∷ [] | some base ↦ base ∷ wr.address ∷ [] ]) w
            → Holding [] (free (some wr.address) (free o w))) [
              | none ↦ λ g. Holding-free g
              | some base ↦ λ g. Holding-free (Holding-free g)
            ])
        h

  Holding-end_write :
      {w : World L} (xs : List WriteReq) (wr : WriteReq) (ys : List WriteReq)
      → Holding [] w
      → w.writing ≡ xs ++ wr ∷ ys
      → Holding [] (after_write uv wr (record w { writing = xs ++ ys }))
  unfolding awaited lost
  Holding-end_write {w} xs wr ys h e = Holding-after_write wr record {
    owned = λ a. ground (
      arith,
      h.owned a,
      ap (of_writes a) e ∙ of_writes-middle a xs wr ys,
      occurrences-held_by a wr,
    );
    single = h.single;
    unused = h.unused;
    harmless = h.harmless;
  }

  pub unshut :
      {w : World L} (xs : List ShutdownReq) (req : ShutdownReq) (ys : List ShutdownReq)
      → Holding [] w
      → w.shutting ≡ xs ++ req ∷ ys
      → Holding (req.handle ∷ req.address ∷ []) (record w { shutting = xs ++ ys })
  unfolding awaited lost
  unshut {w} xs req ys h e = record {
    owned = λ a. ground (arith, h.owned a, ap (of_shutdowns a) e ∙ of_shutdowns-middle a xs req ys);
    single = h.single;
    unused = h.unused;
    harmless = h.harmless;
  }

  unclose :
      (s : ℕ) {w : World L}
      → Holding [] w
      → has s w.closing ≡ true
      → Holding (s ∷ []) (record w { closing = remove s w.closing })
  unfolding awaited lost
  unclose s {w} h e = record {
    owned = λ a. ground (arith, h.owned a, occurrences-remove a s w.closing e);
    single = h.single;
    unused = h.unused;
    harmless = h.harmless;
  }

  Holding-end_shutdown :
      {w : World L} (xs : List ShutdownReq) (req : ShutdownReq) (ys : List ShutdownReq)
      → Holding [] w
      → w.shutting ≡ xs ++ req ∷ ys
      → Holding [] (after_shutdown uv req (record w { shutting = xs ++ ys }))
  unfolding after_shutdown
  Holding-end_shutdown {w} xs req ys h e =
      let part : Holding (req.handle ∷ req.address ∷ []) (record w { shutting = xs ++ ys }) =
        unshut xs req ys h e in
      Holding-free (Holding-close_held uv part)

  Holding-end_close :
      (s : ℕ) {w : World L}
      → Holding [] w
      → has s w.closing ≡ true
      → Holding [] (on_close uv s (record w { closing = remove s w.closing }))
  unfolding on_close
  Holding-end_close s h e = Holding-free (unclose s h e)

  -- libuv no longer reads from a stream.
  Holding-unread :
      (s : ℕ) {held : List ℕ} {w : World L}
      → Holding held w
      → has s w.reading ≡ true
      → Holding (s ∷ held) (record w { reading = remove s w.reading })
  unfolding awaited lost
  Holding-unread s {held} {w} h e = record {
    owned = λ a. ground (arith, h.owned a, occurrences-remove a s w.reading e);
    single = h.single;
    unused = h.unused;
    harmless = h.harmless;
  }

  Holding-connection : {w : World L} → Holding [] w → Holding [] (on_connection uv w)
  unfolding on_connection malloc awaited lost
  Holding-connection {w} h =
      let g = Holding-malloc h in
      record {
        owned = λ a. ground (arith, g.owned a);
        single = λ a. ground (arith, g.single a);
        unused = λ a le. ground (arith, g.unused a);
        harmless = ground (arith, h.harmless);
      }

  Holding-end :
      (s : ℕ) (bytes : Option Bytes) {w : World L}
      → Holding [] w
      → has s w.reading ≡ true
      → Holding [] (end_stream uv s bytes w)
  unfolding after_read echo_alloc
  Holding-end s none h e = Holding-shutdown_peer uv (Holding-malloc (Holding-unread s h e))
  Holding-end s (some bytes) h e =
      Holding-shutdown_peer uv
        (Holding-malloc (Holding-free (Holding-swap (Holding-unread s (Holding-malloc h) e))))

  Holding-receive :
      (s n : ℕ) (bytes : Bytes) {w : World L}
      → Holding [] w
      → has s w.reading ≡ true
      → Holding [] (receive uv s n bytes w)
  unfolding echo_alloc
  Holding-receive s n bytes {w} h e =
      Holding-after_read uv s w.fresh n bytes (malloc w).1 (Holding-malloc h) e

  Holding-turn : (l : L) {w : World L} → Holding [] w → Holding [] (record w { loop = l })
  unfolding awaited lost
  Holding-turn l h = record {
    owned = h.owned;
    single = h.single;
    unused = h.unused;
    harmless = h.harmless;
  }

  Holding-Ending : {w v : World L} → Holding [] w → Ending uv w v → Holding [] v
  Holding-Ending h (end_read s bytes e) = Holding-end s bytes h e
  Holding-Ending h (end_write xs ys wr e) = Holding-end_write xs wr ys h e
  Holding-Ending h (end_shutdown xs ys req e) = Holding-end_shutdown xs req ys h e
  Holding-Ending h (end_close s e) = Holding-end_close s h e

  Holding-Step : {w v : World L} → Holding [] w → Step uv w v → Holding [] v
  Holding-Step h connect = Holding-connection h
  Holding-Step h (read s n bytes e) = Holding-receive s n bytes h e
  Holding-Step h (ending e) = Holding-Ending h e
  Holding-Step h (turn l) = Holding-turn l h

  Holding-started : (type : StreamType) (l : L) → Holding [] (started type l)
  unfolding awaited lost
  Holding-started type l = record {
    owned = λ a. refl;
    single = λ a. omega arith;
    unused = λ a le. refl;
    harmless = refl;
  }

  pub Reach-Holding : {w : World L} → Reach uv w → Holding [] w
  Reach-Holding (start type l) = Holding-started type l
  Reach-Holding (later r s) = Holding-Step (Reach-Holding r) s

  -- At every step of a server: each block of the heap is that of exactly one callback that is still
  -- to come, or of one request or stream that libuv did not take, and so is freed once at most; no
  -- block is used that is not allocated, and no stream of a peer is closed twice.
  pub heap_owned :
      {w : World L}
      → Reach uv w
      → ((a : ℕ) → occurrences a w.live ≡ awaited a w + lost a w)
        × ((a : ℕ) → occurrences a w.live ≤ 1)
        × (unharmed w.trouble ≡ true)
  heap_owned r = let h = Reach-Holding r in (λ a. ground (arith, h.owned a), h.single, h.harmless)

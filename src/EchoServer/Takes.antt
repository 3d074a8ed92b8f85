-- ===== src/EchoServer/Takes.antt =====
-- example/webserver1.c: the heap of the server where libuv takes every request.
use projectmoo.Base.{
  ℕ, zero, suc, ◌+◌, ◌≡◌, refl, ap, ◌∙◌, true, Option, none, some, List, [], ◌∷◌, ◌++◌, arith,
  Bytes, length, take,
}
use projectmoo.EchoServer.Callbacks.{
  static_server, close_peer, close_server, shutdown_peer, write_peer, after_write, after_shutdown,
  after_read, on_close, echo_alloc, init_stream, on_connection,
}
use projectmoo.EchoServer.Draining.{no_length, owed, Reach-Endings, owed_none-lost, server_drains}
use projectmoo.EchoServer.Letters.{quits, close_server_times, after_read-letters}
use projectmoo.EchoServer.Memory.{lost, malloc_live}
use projectmoo.EchoServer.Reads.{echo, after_read_lem}
use projectmoo.EchoServer.Steps.{
  receive, end_stream, Ending, end_read, end_write, end_shutdown, end_close, Step, connect, read,
  ending, turn, Reach, start, later, Endings,
}
use projectmoo.EchoServer.World.{
  peer, ShutdownReq, Uv, World, occurrences, has, remove, follow, malloc, free,
}

-- libuv takes every request.
pub record Takes {L : Type 0} (uv : Uv L) : Type 0 where
  pub write : (s : ℕ) (text : Bytes) (l : L) → (uv.write (peer s) text l).0 ≡ 0
  pub shutdown : (s : ℕ) (l : L) → (uv.shutdown (peer s) l).0 ≡ 0
  pub read_start : (s : ℕ) (l : L) → (uv.read_start (peer s) l).0 ≡ 0

no_block : (xs : List ℕ) → ((a : ℕ) → occurrences a xs ≡ 0) → xs ≡ []
no_block [] h = refl
no_block (x ∷ xs) h = ground (arith, h x)

module _ {L : Type 0} where
  -- How many requests and streams were not taken.
  unfoldable losses : World L → ℕ
  losses w = length w.lost_streams + length w.lost_writes + length w.lost_shutdowns

  losses-free : (p : Option ℕ) (w : World L) → losses (free p w) ≡ losses w
  unfolding free losses
  losses-free none w = refl
  losses-free (some p) w = ground arith

  losses-follow : (p : Option ℕ) (w : World L) → losses (follow p w) ≡ losses w
  unfolding follow losses
  losses-follow none w = refl
  losses-follow (some p) w = ground arith

  lost-losses : (a : ℕ) (w : World L) → losses w ≡ 0 → lost a w ≡ 0
  unfolding losses lost
  lost-losses a w e =
      let e1 : w.lost_streams ≡ [] = no_length w.lost_streams (omega arith) in
      let e2 : w.lost_writes ≡ [] = no_length w.lost_writes (omega arith) in
      let e3 : w.lost_shutdowns ≡ [] = no_length w.lost_shutdowns (omega arith) in
      ground (arith, e1, e2, e3)

module _ {L : Type 0} (uv : Uv L) (takes : Takes uv) where
  losses-close_peer : (s : ℕ) (w : World L) → losses (close_peer uv s w) ≡ losses w
  unfolding close_peer follow losses
  losses-close_peer s w = ground arith

  losses-close_server : (w : World L) → losses (close_server uv w) ≡ losses w
  unfolding close_server losses
  losses-close_server w = ground arith

  losses-times : (n : ℕ) (w : World L) → losses (close_server_times uv n w) ≡ losses w
  losses-times zero w = refl
  losses-times (suc n) w = losses-times n (close_server uv w) ∙ losses-close_server w

  losses-shutdown_peer :
      (req : ShutdownReq) (w : World L) → losses (shutdown_peer uv req w) ≡ losses w
  unfolding shutdown_peer losses follow
  losses-shutdown_peer req w = ground (arith, takes.shutdown req.handle w.loop)

  losses-echo :
      (s base n : ℕ) (text : Bytes) (w : World L) → losses (echo uv s base n text w) ≡ losses w
  unfolding write_peer losses follow malloc
  losses-echo s base n text w = ground (arith, takes.write s text w.loop)

  losses-connection : (w : World L) → losses (on_connection uv w) ≡ losses w
  unfolding on_connection malloc losses
  losses-connection w =
      let stream = peer w.fresh in
      let l1 = (init_stream uv w.server_type stream w.loop).1 in
      let l2 = (uv.accept (static_server w.server_type) stream l1).1 in
      ground (arith, takes.read_start w.fresh l2)

  losses-end :
      (s : ℕ) (bytes : Option Bytes) (w : World L) → losses (end_stream uv s bytes w) ≡ losses w
  unfolding after_read echo_alloc malloc losses
  losses-end s none w =
      let v = record w { reading = remove s w.reading } in
      losses-shutdown_peer (record { address = v.fresh; handle = s }) (malloc v).1
  losses-end s (some bytes) w =
      let v = record (malloc w).1 { reading = remove s w.reading } in
      let u = free (some w.fresh) v in
      losses-shutdown_peer (record { address = u.fresh; handle = s }) (malloc u).1
      ∙ losses-free (some w.fresh) v

  losses-after_read :
      (s base n : ℕ) (bytes : Bytes) (w : World L)
      → has base w.live ≡ true
      → losses (after_read uv s (some n) (record { base = some base; bytes = bytes }) w) ≡ losses w
  losses-after_read s base zero bytes w e =
      ap losses (after_read_lem uv s base 0 bytes w e) ∙ losses-free (some base) w
  losses-after_read s base (suc n) bytes w e =
      let text = take (suc n) bytes in
      let v = close_server_times uv (quits text) w in
      let u = free (some base) v in
      ap losses (after_read-letters uv s base (suc n) bytes w e (omega arith))
      ∙ ground (
        arith,
        losses-echo s base (suc n) text w,
        losses-echo s base (suc n) text v,
        losses-times (quits text) w,
        losses-free (some base) v,
        losses-close_peer s u,
      )

  losses-receive :
      (s n : ℕ) (bytes : Bytes) (w : World L) → losses (receive uv s n bytes w) ≡ losses w
  unfolding echo_alloc malloc losses
  losses-receive s n bytes w = losses-after_read s w.fresh n bytes (malloc w).1 (malloc_live w)

  losses-Ending : {w v : World L} → Ending uv w v → losses v ≡ losses w
  unfolding after_write after_shutdown on_close losses
  losses-Ending {w} (end_read s bytes e) = losses-end s bytes w
  losses-Ending {w} (end_write xs ys wr e) =
      let v = record w { writing = xs ++ ys } in
      losses-free (some wr.address) (free wr.base v) ∙ losses-free wr.base v
  losses-Ending {w} (end_shutdown xs ys req e) =
      let v = record w { shutting = xs ++ ys } in
      losses-free (some req.address) (close_peer uv req.handle v) ∙ losses-close_peer req.handle v
  losses-Ending {w} (end_close s e) =
      losses-free (some s) (record w { closing = remove s w.closing })

  losses-Step : {w v : World L} → Step uv w v → losses v ≡ losses w
  unfolding losses
  losses-Step {w} connect = losses-connection w
  losses-Step {w} (read s n bytes e) = losses-receive s n bytes w
  losses-Step (ending e) = losses-Ending e
  losses-Step (turn l) = refl

  losses-Reach : {w : World L} → Reach uv w → losses w ≡ 0
  unfolding losses
  losses-Reach (start type l) = refl
  losses-Reach (later r s) = losses-Step s ∙ losses-Reach r

  empty_at_rest : {w : World L} → Reach uv w → owed uv w ≡ 0 → w.live ≡ []
  empty_at_rest {w} r e =
      no_block w.live (λ a. owed_none-lost uv r e a ∙ lost-losses a w (losses-Reach r))

  -- Where libuv takes every request, a server at any step can come to rest when its peers leave, and
  -- wherever it is at rest, with no callback owed, nothing is left on the heap.
  pub frees_all :
      {w : World L}
      → Reach uv w
      → ((n : ℕ) × (v : World L) × Endings uv n w v × (v.live ≡ [])) × (owed uv w ≡ 0 → w.live ≡ [])
  frees_all {w} r =
      let (n, v, es, e) = (server_drains uv r).1 in
      ((n, v, es, empty_at_rest (Reach-Endings uv r es) e), empty_at_rest r)

-- ===== src/EchoServer/Echo.antt =====
-- example/webserver1.c: what is read is written back.
use projectmoo.Base.{
  ℕ, ◌+◌, ◌*◌, ◌<◌, ◌≡◌, refl, ap, ◌∙◌, Bool, true, false, not, ◌&&◌, some, List, [], ◌∷◌, arith,
  Bytes, length, take-length, ltb, if◌then◌else◌,
}
use projectmoo.EchoServer.Callbacks.{close_peer, write_peer, after_write, echo_alloc}
use projectmoo.EchoServer.Letters.{has_stop, quits, close_server_times, after_read-letters}
use projectmoo.EchoServer.Memory.{malloc_live}
use projectmoo.EchoServer.Reads.{echo}
use projectmoo.EchoServer.Steps.{receive}
use projectmoo.EchoServer.World.{peer, WriteReq, Uv, World, has, follow, malloc, free}

has_stop-plain : (text : Bytes) → has b'Q' text ≡ false → has_stop text ≡ false
has_stop-plain [] h = refl
has_stop-plain (c ∷ cs) h = ground (arith, has_stop-plain cs)

quits-plain : (text : Bytes) → has b'Q' text ≡ false → quits text ≡ 0
quits-plain [] h = refl
quits-plain (c ∷ cs) h = ground (arith, quits-plain cs)

-- No chunk is empty, and none has a Q.
abbrev pub plain_chunks : List Bytes → Bool
plain_chunks [] = true
plain_chunks (chunk ∷ chunks) = ltb 0 (length chunk) && not (has b'Q' chunk) && plain_chunks chunks

module _ {L : Type 0} (uv : Uv L) where
  -- The request to write a block back that is the heap's next, and the world behind it.
  abbrev write_back : Bytes → World L → WriteReq
  write_back chunk w = record { address = w.fresh + 1; base = some w.fresh; len = length chunk }

  abbrev written_back : ℕ → Bytes → World L → World L
  written_back s chunk w = record w {
    loop = (uv.write (peer s) chunk w.loop).1;
    fresh = w.fresh + 1 + 1;
    live = (w.fresh + 1) ∷ w.fresh ∷ w.live;
    writing = write_back chunk w ∷ w.writing;
  }

  -- libuv takes every write to a stream.
  abbrev pub Accepts : ℕ → Type 0
  Accepts s = (text : Bytes) (l : L) → (uv.write (peer s) text l).0 ≡ 0

  write_peer_lem :
      (s : ℕ) (chunk : Bytes) (w : World L)
      → Accepts s
      → has s w.live ≡ true
      → echo uv s w.fresh (length chunk) chunk (malloc w).1 ≡ written_back s chunk w
  unfolding malloc write_peer follow
  write_peer_lem s chunk w ok e = ground (arith, ok chunk w.loop, e)

  -- What `after_read-letters` says of a text.
  abbrev answer_to : ℕ → ℕ → ℕ → World L → Bool → Bytes → World L
  answer_to s base n w was_closed text =
      let v = close_server_times uv (quits text) w in
      if was_closed
      then echo uv s base n text w
      else if has_stop text
      then close_peer uv s (free (some base) v)
      else echo uv s base n text v

  answer_to-plain :
      (s base n : ℕ) (w : World L) (was_closed : Bool) (text : Bytes)
      → has b'Q' text ≡ false
      → answer_to s base n w was_closed text ≡ echo uv s base n text w
  answer_to-plain s base n w true text h = refl
  answer_to-plain s base n w false text h =
      let v = close_server_times uv (quits text) w in
      ap (λ b. if b then close_peer uv s (free (some base) v) else echo uv s base n text v)
        (has_stop-plain text h)
      ∙ ap (λ k. echo uv s base n text (close_server_times uv k w)) (quits-plain text h)

  receive_lem :
      (s : ℕ) (chunk : Bytes) (w : World L)
      → Accepts s
      → has s w.live ≡ true
      → has b'Q' chunk ≡ false
      → 0 < length chunk
      → receive uv s (length chunk) chunk w ≡ written_back s chunk w
  unfolding echo_alloc
  receive_lem s chunk w ok e plain pos =
      let v = (malloc w).1 in
      let n = length chunk in
      after_read-letters uv s w.fresh n chunk v (malloc_live w) pos
      ∙ ap (answer_to s w.fresh n v v.server_closed) (take-length chunk)
      ∙ answer_to-plain s w.fresh n v v.server_closed chunk plain
      ∙ write_peer_lem s chunk w ok e

  -- The world behind the end of this write.
  abbrev echoed : ℕ → Bytes → World L → World L
  echoed s chunk w = record w { loop = (uv.write (peer s) chunk w.loop).1; fresh = w.fresh + 1 + 1 }

  after_write_lem :
      (s : ℕ) (chunk : Bytes) (w : World L)
      → after_write uv
          (write_back chunk w)
          (record (written_back s chunk w) { writing = w.writing })
        ≡ echoed s chunk w
  unfolding after_write free
  after_write_lem s chunk w = ground arith

  -- `echo_alloc` and `after_read` of a chunk, and `after_write`, if the write was taken.
  unfoldable pub serve_chunk : ℕ → Bytes → World L → World L
  serve_chunk s chunk w =
      let v = receive uv s (length chunk) chunk w in
      elim v.writing [ [] ↦ v | wr ∷ rest ↦ after_write uv wr (record v { writing = rest }) ]

  abbrev pub serve : ℕ → List Bytes → World L → World L
  serve s [] w = w
  serve s (chunk ∷ chunks) w = serve s chunks (serve_chunk s chunk w)

  -- The loop behind writes of these chunks to a stream, in this order.
  abbrev pub written : ℕ → List Bytes → L → L
  written s [] l = l
  written s (chunk ∷ chunks) l = written s chunks (uv.write (peer s) chunk l).1

  serve_chunk_lem :
      (s : ℕ) (chunk : Bytes) (w : World L)
      → Accepts s
      → has s w.live ≡ true
      → has b'Q' chunk ≡ false
      → 0 < length chunk
      → serve_chunk s chunk w ≡ echoed s chunk w
  unfolding serve_chunk
  serve_chunk_lem s chunk w ok e plain pos =
      let run : World L → World L = λ v. elim v.writing [
        | [] ↦ v
        | wr ∷ rest ↦ after_write uv wr (record v { writing = rest })
      ] in
      ap run (receive_lem s chunk w ok e plain pos) ∙ after_write_lem s chunk w

  -- A peer sends chunks that are not empty and have no Q, and libuv takes every write to it: each
  -- chunk is written back to the peer, the bytes unchanged and the chunks in their order, and
  -- nothing else is changed but the address of the heap's next block: all blocks are freed again.
  pub serve_lem :
      (s : ℕ) (chunks : List Bytes) (w : World L)
      → Accepts s
      → has s w.live ≡ true
      → plain_chunks chunks ≡ true
      → serve s chunks w
        ≡ record w { loop = written s chunks w.loop; fresh = w.fresh + 2 * length chunks }
  serve_lem s [] w ok e plain = ground arith
  serve_lem s (chunk ∷ chunks) w ok e plain =
      let v = echoed s chunk w in
      let no_q : has b'Q' chunk ≡ false = ground arith in
      let pos : 0 < length chunk = ground arith in
      let rest : plain_chunks chunks ≡ true = ground arith in
      let counted : v.fresh + 2 * length chunks ≡ w.fresh + 2 * (length (chunk ∷ chunks)) =
        ground arith in
      ap (serve s chunks) (serve_chunk_lem s chunk w ok e no_q pos)
      ∙ serve_lem s chunks v ok e rest
      ∙ ap (λ n. record w { loop = written s chunks v.loop; fresh = n }) counted

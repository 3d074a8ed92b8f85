-- ===== src/EchoServer/Steps.antt =====
-- example/webserver1.c: what the event loop does with a server that has been started. It calls back
-- on the end or an error of a stream once and reads no more from it, and once on each request and
-- each stream that it was given to close.
use projectmoo.Base.{ℕ, suc, ◌≡◌, true, false, Option, none, some, List, [], ◌∷◌, ◌++◌, Bytes}
use projectmoo.EchoServer.Callbacks.{
  after_write, after_shutdown, after_read, on_close, echo_alloc, on_connection,
}
use projectmoo.EchoServer.World.{StreamType, WriteReq, ShutdownReq, Uv, World, has, remove}

-- A server that has been started, before its first connection.
abbrev pub started : {L : Type 0} → StreamType → L → World L
started type l = record {
  loop = l;
  server_closed = false;
  server_type = type;
  fresh = 0;
  live = [];
  reading = [];
  writing = [];
  shutting = [];
  closing = [];
  lost_streams = [];
  lost_writes = [];
  lost_shutdowns = [];
  server_closings = 0;
  trouble = [];
}

-- The calls that the event loop makes, one after the other.
module _ {L : Type 0} (uv : Uv L) where
  -- `echo_alloc` and `after_read` of as many bytes as the block then holds, or fewer
  abbrev pub receive : ℕ → ℕ → Bytes → World L → World L
  receive s n bytes w = let (buf, v) = echo_alloc uv bytes w in after_read uv s (some n) buf v

  -- `after_read` at the end or on an error, with a block that was allocated for it or with none
  abbrev pub end_stream : ℕ → Option Bytes → World L → World L
  end_stream s none w =
      after_read uv s none (record { base = none; bytes = [] })
        (record w { reading = remove s w.reading })
  end_stream s (some bytes) w =
      let (buf, v) = echo_alloc uv bytes w in
      after_read uv s none buf (record v { reading = remove s v.reading })

-- The callbacks on the end of a stream, and on what libuv was given: a request, or a stream to close.
pub data Ending {L : Type 0} (uv : Uv L) (w : World L) : World L → Type 0 where
  end_read :
      (s : ℕ) (bytes : Option Bytes)
      → has s w.reading ≡ true
      → Ending uv w (end_stream uv s bytes w)
  end_write :
      (xs ys : List WriteReq) (wr : WriteReq)
      → w.writing ≡ xs ++ wr ∷ ys
      → Ending uv w (after_write uv wr (record w { writing = xs ++ ys }))
  end_shutdown :
      (xs ys : List ShutdownReq) (req : ShutdownReq)
      → w.shutting ≡ xs ++ req ∷ ys
      → Ending uv w (after_shutdown uv req (record w { shutting = xs ++ ys }))
  end_close :
      (s : ℕ)
      → has s w.closing ≡ true
      → Ending uv w (on_close uv s (record w { closing = remove s w.closing }))

pub data Step {L : Type 0} (uv : Uv L) (w : World L) : World L → Type 0 where
  connect : Step uv w (on_connection uv w)
  read : (s n : ℕ) (bytes : Bytes) → has s w.reading ≡ true → Step uv w (receive uv s n bytes w)
  ending : {v : World L} → Ending uv w v → Step uv w v
  -- the loop itself changes
  turn : (l : L) → Step uv w (record w { loop = l })

-- What a server that was started comes to.
pub data Reach {L : Type 0} (uv : Uv L) : World L → Type 0 where
  start : (type : StreamType) (l : L) → Reach uv (started type l)
  later : {w v : World L} → Reach uv w → Step uv w v → Reach uv v

-- So many endings, one after the other.
pub data Endings {L : Type 0} (uv : Uv L) : ℕ → World L → World L → Type 0 where
  at_rest : {w : World L} → Endings uv 0 w w
  first : {n : ℕ} {w v u : World L} → Ending uv w v → Endings uv n v u → Endings uv (suc n) w u

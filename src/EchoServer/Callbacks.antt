-- ===== src/EchoServer/Callbacks.antt =====
-- example/webserver1.c: the callbacks of the event loop, but for the messages that they print and
-- for `on_server_close`, which does nothing.
use projectmoo.Base.{
  ℕ, ◌+◌, Bool, true, false, ◌&&◌, Option, none, some, [], ◌∷◌, Bytes, take, leb, ◌==◌,
  if◌then◌else◌,
}
use projectmoo.EchoServer.World.{
  StreamType, tcp, pipe, Handle, tcp_server, pipe_server, peer, Buf, WriteReq, ShutdownReq,
  closed_twice, server_closed_twice, Uv, World, has, remove, trouble_if, follow, malloc, free,
}

abbrev pub static_server : StreamType → Handle
static_server tcp = tcp_server
static_server pipe = pipe_server

-- Behind the letter Q: does S follow?
abbrev pub starts_with_s : Bytes → Bool
starts_with_s [] = false
starts_with_s (c ∷ cs) = c == b'S'

module _ {L : Type 0} (uv : Uv L) where
  -- `uv_close((uv_handle_t*)handle, on_close)`; libuv stops to read from the stream.
  unfoldable pub close_peer : ℕ → World L → World L
  unfolding follow
  close_peer handle w =
      let v = trouble_if (has handle w.closing) closed_twice (follow (some handle) w) in
      record v {
        loop = uv.close (peer handle) v.loop;
        reading = remove handle v.reading;
        closing = handle ∷ v.closing;
      }

  -- `uv_close(server, on_server_close)` and the line behind it
  unfoldable pub close_server : World L → World L
  close_server w =
      let v = trouble_if (leb 1 w.server_closings) server_closed_twice w in
      record v {
        loop = uv.close (static_server v.server_type) v.loop;
        server_closings = v.server_closings + 1;
        server_closed = true;
      }

  -- `uv_shutdown(req, handle, after_shutdown)`, whose result is ignored
  unfoldable pub shutdown_peer : ShutdownReq → World L → World L
  unfolding follow
  shutdown_peer req w =
      let v = follow (some req.address) (follow (some req.handle) w) in
      let (r, l) = uv.shutdown (peer req.handle) v.loop in
      if r == 0
      then record v { loop = l; shutting = req ∷ v.shutting }
      else record v { loop = l; lost_shutdowns = req ∷ v.lost_shutdowns }

  -- `uv_write(&wr->req, handle, &wr->buf, 1, after_write)`, whose result is ignored; `text` is what
  -- the buffer holds.
  unfoldable pub write_peer : WriteReq → ℕ → Bytes → World L → World L
  unfolding follow
  write_peer wr handle text w =
      let v = follow wr.base (follow (some wr.address) (follow (some handle) w)) in
      let (r, l) = uv.write (peer handle) text v.loop in
      if r == 0
      then record v { loop = l; writing = wr ∷ v.writing }
      else record v { loop = l; lost_writes = wr ∷ v.lost_writes }

  -- `after_write`
  unfoldable pub after_write : WriteReq → World L → World L
  unfolding free
  after_write wr w = free (some wr.address) (free wr.base w)

  -- `after_shutdown`
  unfoldable pub after_shutdown : ShutdownReq → World L → World L
  unfolding close_peer free
  after_shutdown req w = free (some req.address) (close_peer req.handle w)

  -- The loop of `after_read` over the bytes that are left: whether the stream was closed, on which
  -- the handler returns. After a Q alone the loop goes on.
  unfoldable pub scan : ℕ → Option ℕ → Bytes → World L → Bool × World L
  unfolding free close_peer close_server
  scan handle base [] w = (false, w)
  scan handle base (c ∷ cs) w = elim (c == b'Q' && starts_with_s cs) [
    | true ↦ (true, close_peer handle (free base w))
    | false ↦ scan handle base cs (if c == b'Q' then close_server w else w)
  ]

  -- `after_read`; none is a negative `nread`, an error or the end.
  unfoldable pub after_read : ℕ → Option ℕ → Buf → World L → World L
  unfolding malloc free follow scan shutdown_peer write_peer
  after_read handle none buf w =
      let (req, v) = malloc (free buf.base w) in
      shutdown_peer (record { address = req; handle = handle }) v
  after_read handle (some nread) buf w =
      let text = take nread buf.bytes in
      let (closed, v) =
        if w.server_closed then (false, w) else scan handle buf.base text (follow buf.base w) in
      let (wr, v') = malloc v in
      if nread == 0
      then free buf.base w
      else if closed
      then v
      else write_peer (record { address = wr; base = buf.base; len = nread }) handle text v'

  -- `on_close`
  unfoldable pub on_close : ℕ → World L → World L
  unfolding free
  on_close handle w = free (some handle) w

  -- `echo_alloc`; `bytes` is what the block holds when it is read.
  unfoldable pub echo_alloc : Bytes → World L → Buf × World L
  unfolding malloc
  echo_alloc bytes w = let (p, v) = malloc w in (record { base = some p; bytes = bytes }, v)

  -- The `switch` of `on_connection`; the type is one of the two.
  abbrev pub init_stream : StreamType → Handle → L → ℕ × L
  init_stream tcp stream l = uv.tcp_init stream l
  init_stream pipe stream l = uv.pipe_init stream l

  -- `on_connection`, which ignores what the calls give, and an error of its own. Where reading does
  -- not start, libuv never calls back about the stream.
  unfoldable pub on_connection : World L → World L
  unfolding malloc
  on_connection w =
      let (p, v) = malloc w in
      let (_, l1) = init_stream v.server_type (peer p) v.loop in
      let (_, l2) = uv.accept (static_server v.server_type) (peer p) l1 in
      let (r, l3) = uv.read_start (peer p) l2 in
      if r == 0
      then record v { loop = l3; reading = p ∷ v.reading }
      else record v { loop = l3; lost_streams = p ∷ v.lost_streams }

-- ===== src/EchoServer/World.antt =====
-- example/webserver1.c: its structs and static variables, the heap, and the calls of libuv, whose
-- event loop is a parameter.
use projectmoo.Base.{
  ℕ, suc, ◌+◌, Bool, true, not, Option, none, some, List, [], ◌∷◌, Bytes, leb, ◌==◌, if◌then◌else◌,
}

-- `stream_type`
pub data StreamType : Type 0 where
  tcp : StreamType
  pipe : StreamType

-- A handle by its address: one of the static handles of the server, or that of a peer.
pub data Handle : Type 0 where
  tcp_server : Handle
  pipe_server : Handle
  peer : ℕ → Handle

-- `uv_buf_t`; none is the null pointer. `bytes` is what the memory at `base` holds.
pub record Buf : Type 0 where
  pub base : Option ℕ
  pub bytes : Bytes

-- `write_req_t`, with its own address
pub record WriteReq : Type 0 where
  pub address : ℕ
  pub base : Option ℕ
  pub len : ℕ

-- `uv_shutdown_t`, with its own address; `uv_shutdown` sets its handle.
pub record ShutdownReq : Type 0 where
  pub address : ℕ
  pub handle : ℕ

-- What the C language, or libuv, leaves undefined.
pub data Trouble : Type 0 where
  -- a pointer to no block of the heap is freed or followed
  dead_pointer : Trouble
  -- `uv_close` on a peer that is being closed
  closed_twice : Trouble
  -- `uv_close` on the server when it was called on it before
  server_closed_twice : Trouble

-- The calls of libuv, on a loop of type `L`. A result of 0 is success.
pub record Uv (L : Type 0) : Type 0 where
  pub write : Handle → Bytes → L → ℕ × L
  pub shutdown : Handle → L → ℕ × L
  pub close : Handle → L → L
  pub tcp_init : Handle → L → ℕ × L
  pub pipe_init : Handle → L → ℕ × L
  pub accept : Handle → Handle → L → ℕ × L
  pub read_start : Handle → L → ℕ × L
  pub tcp_bind : ℕ → L → ℕ × L
  pub tcp_bind6 : ℕ → L → ℕ × L
  pub pipe_bind : Bytes → L → ℕ × L
  pub listen : Handle → L → ℕ × L
  pub run : L → L

-- The static variables, where `server` is the static handle of type `server_type`; the heap, by the
-- addresses of its blocks, and the address of the next block. The other fields only watch: the
-- streams that libuv reads from, its requests and the streams it closes, of which it has not called
-- back, what it refused to take and so never calls back, the calls of `uv_close` on the server, and
-- what has gone wrong, the latest first.
pub record World (L : Type 0) : Type 0 where
  pub loop : L
  pub server_closed : Bool
  pub server_type : StreamType
  pub fresh : ℕ
  pub live : List ℕ
  pub reading : List ℕ
  pub writing : List WriteReq
  pub shutting : List ShutdownReq
  pub closing : List ℕ
  pub lost_streams : List ℕ
  pub lost_writes : List WriteReq
  pub lost_shutdowns : List ShutdownReq
  pub server_closings : ℕ
  pub trouble : List Trouble

-- How often an address is in a list.
abbrev pub occurrences : ℕ → List ℕ → ℕ
occurrences a [] = 0
occurrences a (x ∷ xs) = if x == a then suc (occurrences a xs) else occurrences a xs

abbrev pub has : ℕ → List ℕ → Bool
has a xs = leb 1 (occurrences a xs)

abbrev pub remove : ℕ → List ℕ → List ℕ
remove a [] = []
remove a (x ∷ xs) = if x == a then xs else x ∷ remove a xs

-- A trouble, if `b`.
abbrev pub trouble_if : {L : Type 0} → Bool → Trouble → World L → World L
trouble_if b t w = if b then record w { trouble = t ∷ w.trouble } else w

-- A pointer is followed.
unfoldable pub follow : {L : Type 0} → Option ℕ → World L → World L
follow none w = trouble_if true dead_pointer w
follow (some p) w = trouble_if (not (has p w.live)) dead_pointer w

-- `malloc`, which is taken to succeed.
unfoldable pub malloc : {L : Type 0} → World L → ℕ × World L
malloc w = (w.fresh, record w { fresh = w.fresh + 1; live = w.fresh ∷ w.live })

-- `free`
unfoldable pub free : {L : Type 0} → Option ℕ → World L → World L
free none w = w
free (some p) w =
    if has p w.live then record w { live = remove p w.live } else trouble_if true dead_pointer w

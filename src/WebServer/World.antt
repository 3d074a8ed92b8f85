-- ===== src/WebServer/World.antt =====
-- example/webserver.cc: `client_t`, and what the callbacks change. The event loop is a parameter.
use projectmoo.Base.{ℕ, Bool, Option, List, ◌∷◌, Bytes, if◌then◌else◌}

-- `client_t::file_name`. `on_connect` leaves the pointer as `malloc` found it.
pub data FileName : Type 0 where
  unset : FileName
  named : Bytes → FileName

-- `client_t`, but for its handle and its parser; `response` is what `wr.buf` refers to.
pub record Client : Type 0 where
  pub file_name : FileName
  pub response : Option Bytes

-- What the C++ language leaves undefined, or what leaks.
pub data Trouble : Type 0 where
  -- a pointer is followed, or deleted, that was never set
  wild_file_name : Trouble
  -- `strcpy` writes behind its block
  response_overrun : Trouble
  -- a block of `new[]` is given to `free`
  mismatched_free : Trouble
  -- `malloc(sizeof(req))` for a request, where the size is that of a pointer
  undersized_request : Trouble
  -- the text of a buffer with no NUL is read behind its block
  unterminated_buffer : Trouble
  -- `uv_write` with the `uv_write_t` of a write that has not ended
  request_in_use : Trouble
  -- `uv_close` on a handle that is being closed
  closed_twice : Trouble

-- The calls of libuv on a client's handle, and those that start the server, on a loop of type `L`. A
-- result of 0 is success.
pub record Uv (L : Type 0) : Type 0 where
  pub write : Bytes → L → ℕ × L
  pub close : L → L
  pub shutdown : L → L
  pub last_error_is_eof : L → Bool
  pub accept : L → L
  pub read_start : L → L
  pub tcp_init : L → ℕ × L
  pub tcp_bind : ℕ → L → ℕ × L
  pub listen : L → ℕ × L
  pub run : L → L

-- What the server runs on: the calls, the files by their names, and what fresh memory holds.
pub record Platform (L : Type 0) : Type 0 where
  pub uv : Uv L
  pub files : Bytes → Option Bytes
  pub junk : ℕ → Bytes

-- What a client's callbacks read and write: its `client_t`, `served`, and the loop. The other three
-- only watch: whether the client's write has not ended, whether its handle is being closed, and
-- what has gone wrong so far, the latest first.
pub record World (L : Type 0) : Type 0 where
  pub client : Client
  pub served : ℕ
  pub loop : L
  pub writing : Bool
  pub closing : Bool
  pub trouble : List Trouble

abbrev pub add_trouble : {L : Type 0} → Trouble → World L → World L
add_trouble t w = record w { trouble = t ∷ w.trouble }

-- A trouble, if `b`.
abbrev pub trouble_if : {L : Type 0} → Bool → Trouble → World L → World L
trouble_if b t w = if b then add_trouble t w else w

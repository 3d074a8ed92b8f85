-- ===== src/EchoServer/Tests.antt =====
-- example/webserver1.c: runs of the echo server on a libuv that takes every request.
use projectmoo.Base.{ℕ, ◌+◌, ◌≤◌, ◌≡◌, refl, ◌⊎◌, true, some, List, [], ◌∷◌, arith, Bytes, codes}
use projectmoo.EchoServer.Callbacks.{
  close_peer, close_server, after_read, echo_alloc, on_connection,
}
use projectmoo.EchoServer.Draining.{owed, server_drains}
use projectmoo.EchoServer.Echo.{serve, serve_lem}
use projectmoo.EchoServer.Events.{Event-Step}
use projectmoo.EchoServer.Invariant.{heap_owned}
use projectmoo.EchoServer.Letters.{after_read-letters}
use projectmoo.EchoServer.Lifecycle.{Event, peers}
use projectmoo.EchoServer.Memory.{awaited, lost, unharmed}
use projectmoo.EchoServer.Steps.{started, Ending, connect, read, Reach, start, later, Endings}
use projectmoo.EchoServer.Takes.{Takes, frees_all}
use projectmoo.EchoServer.World.{tcp, WriteReq, Uv, World, occurrences, free}

-- The loop is what was written, the latest first.
abbrev calm : Uv (List Bytes)
calm = record {
  write = λ h text l. (0, text ∷ l);
  shutdown = λ h l. (0, l);
  close = λ h l. l;
  tcp_init = λ h l. (0, l);
  pipe_init = λ h l. (0, l);
  accept = λ server h l. (0, l);
  read_start = λ h l. (0, l);
  tcp_bind = λ port l. (0, l);
  tcp_bind6 = λ port l. (1, l);
  pipe_bind = λ name l. (0, l);
  listen = λ h l. (0, l);
  run = λ l. l;
}

-- A peer was connected.
abbrev connected : World (List Bytes)
connected = record (started tcp []) { fresh = 1; live = 0 ∷ []; reading = 0 ∷ [] }

connected-Reach : Reach calm connected
unfolding on_connection
connected-Reach = later (start tcp []) connect

abbrev hi_request : WriteReq
hi_request = record { address = 2; base = some 1; len = 2 }

-- It has sent two letters, which are being written back.
abbrev spoken : World (List Bytes)
spoken = record connected {
  loop = codes "hi" ∷ [];
  fresh = 3;
  live = 2 ∷ 1 ∷ 0 ∷ [];
  writing = hi_request ∷ [];
}

spoken-Reach : Reach calm spoken
unfolding after_read echo_alloc
spoken-Reach = later connected-Reach (read 0 2 (codes "hi") refl)

heap_owned_example :
    ((a : ℕ) → occurrences a (2 ∷ 1 ∷ 0 ∷ []) ≡ awaited a spoken + lost a spoken)
    × ((a : ℕ) → occurrences a (2 ∷ 1 ∷ 0 ∷ []) ≤ 1)
    × (unharmed [] ≡ true)
heap_owned_example = heap_owned calm spoken-Reach

server_drains_example :
    ((n : ℕ) (v : World (List Bytes))
      → Endings calm n spoken v
      → (n + owed calm v ≤ owed calm spoken)
        × (((owed calm v ≡ 0) × ((a : ℕ) → occurrences a v.live ≡ lost a v))
            ⊎ ((u : World (List Bytes)) × Ending calm v u)))
    × ((n : ℕ) × (v : World (List Bytes)) × Endings calm n spoken v × (owed calm v ≡ 0))
server_drains_example = server_drains calm spoken-Reach

calm-Takes : Takes calm
calm-Takes = record { write = λ s text l. refl; shutdown = λ s l. refl; read_start = λ s l. refl }

frees_all_example :
    ((n : ℕ) × (v : World (List Bytes)) × Endings calm n spoken v × (v.live ≡ []))
    × (owed calm spoken ≡ 0 → spoken.live ≡ [])
frees_all_example = frees_all calm calm-Takes spoken-Reach

Event-Step_example :
    Event
      (record { opened = 1; echoing = 0; leaving = 0; ending = 0 })
      (record { opened = 1; echoing = 1; leaving = 0; ending = 0 })
unfolding peers after_read echo_alloc
Event-Step_example = Event-Step calm connected-Reach (read 0 2 (codes "hi") refl)

-- A block was allocated for the peer.
abbrev block_ready : World (List Bytes)
block_ready = record connected { fresh = 2; live = 1 ∷ 0 ∷ [] }

-- "QaQS": the server and the stream are closed.
after_read-letters_example :
    after_read calm 0 (some 4) (record { base = some 1; bytes = codes "QaQSb" }) block_ready
    ≡ record block_ready {
      server_closed = true;
      server_closings = 1;
      live = 0 ∷ [];
      reading = [];
      closing = 0 ∷ [];
    }
unfolding close_server close_peer free
after_read-letters_example =
    after_read-letters calm 0 1 4 (codes "QaQSb") block_ready refl (omega arith)

serve_lem_example :
    serve calm 0 (codes "one" ∷ codes "two" ∷ []) connected
    ≡ record connected { loop = codes "two" ∷ codes "one" ∷ []; fresh = 5 }
serve_lem_example =
    serve_lem calm 0 (codes "one" ∷ codes "two" ∷ []) connected (λ text l. refl) refl refl

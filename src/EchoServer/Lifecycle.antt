-- ===== src/EchoServer/Lifecycle.antt =====
-- example/webserver1.c: the server as its peers see it: how many streams are open, how many writes are
-- under way, and how many streams are on their way to be closed.
use projectmoo.Base.{
  ℕ, zero, suc, ◌+◌, ◌≡◌, refl, ◌∙◌, ◌⊎◌, Option, none, some, arith, Bytes, length,
}
use projectmoo.EchoServer.Callbacks.{
  close_peer, close_server, shutdown_peer, write_peer, on_connection,
}
use projectmoo.EchoServer.Letters.{close_server_times}
use projectmoo.EchoServer.Reads.{echo}
use projectmoo.EchoServer.World.{ShutdownReq, Uv, World, remove, follow, malloc, free}

-- `leaving` streams are being shut down, `closing` ones being closed.
pub record Peers : Type 0 where
  pub opened : ℕ
  pub echoing : ℕ
  pub leaving : ℕ
  pub ending : ℕ

-- What may happen to them.
pub data Event (s : Peers) : Peers → Type 0 where
  nothing : Event s s
  arrive : Event s (record s { opened = s.opened + 1 })
  echo_begins : Event s (record s { echoing = s.echoing + 1 })
  echo_ends : (n : ℕ) → s.echoing ≡ n + 1 → Event s (record s { echoing = n })
  -- a stream that is open is shut down, which may fail, or is closed at once
  leave : (n : ℕ) → s.opened ≡ n + 1 → Event s (record s { opened = n; leaving = s.leaving + 1 })
  fail_to_leave : (n : ℕ) → s.opened ≡ n + 1 → Event s (record s { opened = n })
  break_off : (n : ℕ) → s.opened ≡ n + 1 → Event s (record s { opened = n; ending = s.ending + 1 })
  shut : (n : ℕ) → s.leaving ≡ n + 1 → Event s (record s { leaving = n; ending = s.ending + 1 })
  part : (n : ℕ) → s.ending ≡ n + 1 → Event s (record s { ending = n })

module _ {L : Type 0} where
  -- The peers of a server.
  unfoldable pub peers : World L → Peers
  peers w = record {
    opened = length w.reading;
    echoing = length w.writing;
    leaving = length w.shutting;
    ending = length w.closing;
  }

  pub peers-free : (p : Option ℕ) (w : World L) → peers (free p w) ≡ peers w
  unfolding free peers
  peers-free none w = refl
  peers-free (some p) w = ground arith

  pub peers-follow : (p : Option ℕ) (w : World L) → peers (follow p w) ≡ peers w
  unfolding follow peers
  peers-follow none w = refl
  peers-follow (some p) w = ground arith

module _ {L : Type 0} (uv : Uv L) where
  pub peers-close_peer :
      (s : ℕ) (w : World L)
      → peers (close_peer uv s w)
        ≡ record (peers w) { opened = length (remove s w.reading); ending = length w.closing + 1 }
  unfolding close_peer follow peers
  peers-close_peer s w = ground arith

  pub peers-close_server : (w : World L) → peers (close_server uv w) ≡ peers w
  unfolding close_server peers
  peers-close_server w = ground arith

  pub reading-close_server : (w : World L) → (close_server uv w).reading ≡ w.reading
  unfolding close_server
  reading-close_server w = ground arith

  pub peers-times : (n : ℕ) (w : World L) → peers (close_server_times uv n w) ≡ peers w
  peers-times zero w = refl
  peers-times (suc n) w = peers-times n (close_server uv w) ∙ peers-close_server w

  pub reading-times : (n : ℕ) (w : World L) → (close_server_times uv n w).reading ≡ w.reading
  reading-times zero w = refl
  reading-times (suc n) w = reading-times n (close_server uv w) ∙ reading-close_server w

  -- A request is taken, or not.
  pub peers-shutdown_peer :
      (req : ShutdownReq) (w : World L)
      → let s = peers w in
        (peers (shutdown_peer uv req w) ≡ s)
        ⊎ (peers (shutdown_peer uv req w) ≡ record s { leaving = s.leaving + 1 })
  unfolding shutdown_peer peers follow
  peers-shutdown_peer req w = ground arith

  pub peers-echo :
      (s base n : ℕ) (text : Bytes) (w : World L)
      → let p = peers w in
        (peers (echo uv s base n text w) ≡ p)
        ⊎ (peers (echo uv s base n text w) ≡ record p { echoing = p.echoing + 1 })
  unfolding write_peer peers follow malloc
  peers-echo s base n text w = ground arith

  pub peers-connection :
      (w : World L)
      → let p = peers w in
        (peers (on_connection uv w) ≡ p)
        ⊎ (peers (on_connection uv w) ≡ record p { opened = p.opened + 1 })
  unfolding on_connection peers malloc
  peers-connection w = ground arith

-- ===== src/EchoServer/Events.antt =====
-- example/webserver1.c: every step of the server is one that its peers may see.
use mathlib.Core.Path.{subst}
use projectmoo.Base.{
  ℕ, zero, suc, ◌+◌, ◌≡◌, refl, sym, ap, ◌∙◌, inl, inr, Bool, true, false, Option, none, some, List,
  [], ◌∷◌, ◌++◌, arith, Bytes, length, take, if◌then◌else◌,
}
use projectmoo.EchoServer.Callbacks.{
  close_peer, shutdown_peer, after_write, after_shutdown, after_read, on_close, echo_alloc,
  on_connection,
}
use projectmoo.EchoServer.Draining.{length-remove, length-middle}
use projectmoo.EchoServer.Invariant.{unshut, Reach-Holding}
use projectmoo.EchoServer.Letters.{has_stop, quits, close_server_times, after_read-letters}
use projectmoo.EchoServer.Lifecycle.{
  Peers, Event, nothing, arrive, echo_begins, echo_ends, leave, fail_to_leave, break_off, shut,
  part, peers, peers-free, peers-close_peer, peers-times, reading-times, peers-shutdown_peer,
  peers-echo, peers-connection,
}
use projectmoo.EchoServer.Memory.{awaited, lost, Holding, malloc_live}
use projectmoo.EchoServer.Owners.{free-reading}
use projectmoo.EchoServer.Reads.{echo, after_read_lem}
use projectmoo.EchoServer.Steps.{
  receive, end_stream, end_read, end_write, end_shutdown, end_close, Step, connect, read, ending,
  turn, Reach,
}
use projectmoo.EchoServer.World.{WriteReq, ShutdownReq, Uv, World, has, remove, malloc, free}

remove-absent : (s : ℕ) (xs : List ℕ) → has s xs ≡ false → remove s xs ≡ xs
remove-absent s [] h = refl
remove-absent s (x ∷ xs) h = ground (arith, remove-absent s xs)

module _ {L : Type 0} (uv : Uv L) where
  Event-echo :
      (s base n : ℕ) (text : Bytes) (w : World L)
      → Event (peers w) (peers (echo uv s base n text w))
  Event-echo s base n text w = elim (peers-echo uv s base n text w) [
    | inl e ↦ subst (Event (peers w)) (sym e) nothing
    | inr e ↦ subst (Event (peers w)) (sym e) echo_begins
  ]

  Event-connection : (w : World L) → Event (peers w) (peers (on_connection uv w))
  Event-connection w = elim (peers-connection uv w) [
    | inl e ↦ subst (Event (peers w)) (sym e) nothing
    | inr e ↦ subst (Event (peers w)) (sym e) arrive
  ]

  Event-shutdown_peer :
      (req : ShutdownReq) (w u : World L) (n : ℕ)
      → (peers w).opened ≡ n + 1
      → peers u ≡ record (peers w) { opened = n }
      → Event (peers w) (peers (shutdown_peer uv req u))
  Event-shutdown_peer req w u n some_open e = elim (peers-shutdown_peer uv req u) [
    | inl e' ↦ subst (Event (peers w)) (sym (e' ∙ e)) (fail_to_leave n some_open)
    | inr e' ↦
        subst (Event (peers w))
          (sym (e' ∙ ap {A = Peers} {B = Peers} (λ p. record p { leaving = p.leaving + 1 }) e))
          (leave n some_open)
  ]

  Event-end :
      (s : ℕ) (bytes : Option Bytes) (w : World L)
      → has s w.reading ≡ true
      → Event (peers w) (peers (end_stream uv s bytes w))
  unfolding after_read echo_alloc malloc peers
  Event-end s none w h =
      let v = record w { reading = remove s w.reading } in
      Event-shutdown_peer (record { address = v.fresh; handle = s }) w (malloc v).1
        (length (remove s w.reading)) (length-remove s w.reading h) refl
  Event-end s (some bytes) w h =
      let v = record (malloc w).1 { reading = remove s w.reading } in
      let u = free (some w.fresh) v in
      Event-shutdown_peer (record { address = u.fresh; handle = s }) w (malloc u).1
        (length (remove s w.reading)) (length-remove s w.reading h) (peers-free (some w.fresh) v)

  Event-closed :
      (s : ℕ) (u : World L)
      → has s u.reading ≡ true
      → Event
          (peers u)
          (record (peers u) { opened = length (remove s u.reading); ending = length u.closing + 1 })
  unfolding peers
  Event-closed s u h = break_off (length (remove s u.reading)) (length-remove s u.reading h)

  -- What `after_read-letters` says of a read.
  abbrev letters : ℕ → ℕ → ℕ → Bytes → World L → Bool → Bool → World L
  letters s base n text w was_closed stop =
      let v = close_server_times uv (quits text) w in
      if was_closed
      then echo uv s base n text w
      else if stop
      then close_peer uv s (free (some base) v)
      else echo uv s base n text v

  Event-letters :
      (s base n : ℕ) (text : Bytes) (w : World L) (was_closed stop : Bool)
      → has s w.reading ≡ true
      → Event (peers w) (peers (letters s base n text w was_closed stop))
  Event-letters s base n text w true stop h = Event-echo s base n text w
  Event-letters s base n text w false false h =
      let v = close_server_times uv (quits text) w in
      subst (λ p. Event p (peers (echo uv s base n text v))) (peers-times uv (quits text) w)
        (Event-echo s base n text v)
  Event-letters s base n text w false true h =
      let v = close_server_times uv (quits text) w in
      let u = free (some base) v in
      let same : peers u ≡ peers w = peers-free (some base) v ∙ peers-times uv (quits text) w in
      let same_reading : u.reading ≡ w.reading =
        free-reading uv base v ∙ reading-times uv (quits text) w in
      subst (λ p. Event p (peers (close_peer uv s u))) same
        (subst (Event (peers u)) (sym (peers-close_peer uv s u))
          (Event-closed s u (ap (has s) same_reading ∙ h)))

  Event-after_read :
      (s base n : ℕ) (bytes : Bytes) (w : World L)
      → has base w.live ≡ true
      → has s w.reading ≡ true
      → Event
          (peers w)
          (peers (after_read uv s (some n) (record { base = some base; bytes = bytes }) w))
  Event-after_read s base zero bytes w e h =
      subst (λ v. Event (peers w) (peers v)) (sym (after_read_lem uv s base 0 bytes w e))
        (subst (Event (peers w)) (sym (peers-free (some base) w)) nothing)
  Event-after_read s base (suc n) bytes w e h =
      let text = take (suc n) bytes in
      subst (λ v. Event (peers w) (peers v))
        (sym (after_read-letters uv s base (suc n) bytes w e (omega arith)))
        (Event-letters s base (suc n) text w w.server_closed (has_stop text) h)

  Event-receive :
      (s n : ℕ) (bytes : Bytes) (w : World L)
      → has s w.reading ≡ true
      → Event (peers w) (peers (receive uv s n bytes w))
  unfolding echo_alloc malloc peers
  Event-receive s n bytes w h = Event-after_read s w.fresh n bytes (malloc w).1 (malloc_live w) h

  Event-write :
      (xs ys : List WriteReq) (wr : WriteReq) (w : World L)
      → w.writing ≡ xs ++ wr ∷ ys
      → Event (peers w) (peers (after_write uv wr (record w { writing = xs ++ ys })))
  unfolding after_write peers
  Event-write xs ys wr w e =
      let v = record w { writing = xs ++ ys } in
      subst (Event (peers w))
        (sym (peers-free (some wr.address) (free wr.base v) ∙ peers-free wr.base v))
        (echo_ends (length (xs ++ ys)) (ap length e ∙ length-middle xs wr ys))

  Event-shutdown :
      (xs ys : List ShutdownReq) (req : ShutdownReq) (w : World L)
      → Holding [] w
      → w.shutting ≡ xs ++ req ∷ ys
      → Event (peers w) (peers (after_shutdown uv req (record w { shutting = xs ++ ys })))
  unfolding after_shutdown peers awaited lost
  Event-shutdown xs ys req w h e =
      let v = record w { shutting = xs ++ ys } in
      let s = req.handle in
      let part = unshut uv xs req ys h e in
      let unread : has s w.reading ≡ false = ground (arith, part.owned s, part.single s) in
      let kept =
        ap (λ zs. record (peers v) { opened = length zs; ending = length w.closing + 1 })
          (remove-absent s w.reading unread) in
      subst (Event (peers w))
        (sym (peers-free (some req.address) (close_peer uv s v) ∙ peers-close_peer uv s v ∙ kept))
        (shut (length (xs ++ ys)) (ap length e ∙ length-middle xs req ys))

  Event-close :
      (s : ℕ) (w : World L)
      → has s w.closing ≡ true
      → Event (peers w) (peers (on_close uv s (record w { closing = remove s w.closing })))
  unfolding on_close peers
  Event-close s w h =
      let v = record w { closing = remove s w.closing } in
      subst (Event (peers w)) (sym (peers-free (some s) v))
        (part (length (remove s w.closing)) (length-remove s w.closing h))

  -- Every step of a server is one event of its peers at most: a stream is opened; a write is begun, or
  -- ended; an open stream is shut down, or this fails, or it is closed at once; a stream that was
  -- shut down is closed; a stream that is being closed is gone.
  pub Event-Step : {w v : World L} → Reach uv w → Step uv w v → Event (peers w) (peers v)
  unfolding peers
  Event-Step {w} r connect = Event-connection w
  Event-Step {w} r (read s n bytes h) = Event-receive s n bytes w h
  Event-Step {w} r (ending (end_read s bytes h)) = Event-end s bytes w h
  Event-Step {w} r (ending (end_write xs ys wr e)) = Event-write xs ys wr w e
  Event-Step {w} r (ending (end_shutdown xs ys req e)) =
      Event-shutdown xs ys req w (Reach-Holding uv r) e
  Event-Step {w} r (ending (end_close s h)) = Event-close s w h
  Event-Step r (turn l) = nothing

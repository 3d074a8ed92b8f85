-- ===== src/EchoServer/Draining.antt =====
-- example/webserver1.c: how a server comes to rest when its peers have left.
use projectmoo.Base.{
  ℕ, zero, suc, ◌+◌, ◌*◌, ◌≤◌, ◌<◌, ◌≡◌, refl, ap, ◌∙◌, ◌⊎◌, inl, inr, true, Option, none, some,
  List, [], ◌∷◌, ◌++◌, arith, Bytes, length, List-cases,
}
use projectmoo.EchoServer.Callbacks.{
  close_peer, shutdown_peer, after_write, after_shutdown, after_read, on_close, echo_alloc,
}
use projectmoo.EchoServer.Invariant.{heap_owned}
use projectmoo.EchoServer.Memory.{awaited, lost}
use projectmoo.EchoServer.Steps.{
  end_stream, Ending, end_read, end_write, end_shutdown, end_close, ending, Reach, later, Endings,
  at_rest, first,
}
use projectmoo.EchoServer.World.{
  WriteReq, ShutdownReq, Uv, World, occurrences, has, remove, follow, malloc, free,
}

pub length-remove : (s : ℕ) (xs : List ℕ) → has s xs ≡ true → length xs ≡ length (remove s xs) + 1
length-remove s [] h = ground arith
length-remove s (x ∷ xs) h = ground (arith, length-remove s xs)

length-remove_le : (s : ℕ) (xs : List ℕ) → length (remove s xs) ≤ length xs
length-remove_le s [] = omega arith
length-remove_le s (x ∷ xs) = ground (arith, length-remove_le s xs)

pub length-middle {ℓ} :
    {A : Type ℓ} (xs : List A) (y : A) (ys : List A) → length (xs ++ y ∷ ys) ≡ length (xs ++ ys) + 1
length-middle [] y ys = ground arith
length-middle (x ∷ xs) y ys = ground (arith, length-middle xs y ys)

pub no_length {ℓ} : {A : Type ℓ} (xs : List A) → length xs ≡ 0 → xs ≡ []
no_length [] e = refl
no_length (x ∷ xs) e = ground arith

module _ {L : Type 0} (uv : Uv L) where
  -- How many callbacks can still come when no stream is opened and nothing more is read: on a stream
  -- that is read from three, the last of them on its close.
  unfoldable pub owed : World L → ℕ
  owed w = 3 * length w.reading + length w.writing + 2 * length w.shutting + length w.closing

  owed-free : (p : Option ℕ) (w : World L) → owed (free p w) ≡ owed w
  unfolding free owed
  owed-free none w = refl
  owed-free (some p) w = ground arith

  owed-follow : (p : Option ℕ) (w : World L) → owed (follow p w) ≡ owed w
  unfolding follow owed
  owed-follow none w = refl
  owed-follow (some p) w = ground arith

  owed-close_peer : (s : ℕ) (w : World L) → owed (close_peer uv s w) ≤ owed w + 1
  unfolding close_peer follow owed
  owed-close_peer s w = ground (arith, length-remove_le s w.reading)

  owed-shutdown_peer :
      (req : ShutdownReq) (w : World L) → owed (shutdown_peer uv req w) ≤ owed w + 2
  unfolding shutdown_peer owed follow
  owed-shutdown_peer req w = ground arith

  owed-unread :
      (s : ℕ) (w : World L)
      → has s w.reading ≡ true
      → owed (record w { reading = remove s w.reading }) + 3 ≡ owed w
  unfolding owed
  owed-unread s w e = ground (arith, length-remove s w.reading)

  owed-unwritten :
      (xs : List WriteReq) (wr : WriteReq) (ys : List WriteReq) (w : World L)
      → w.writing ≡ xs ++ wr ∷ ys
      → owed (record w { writing = xs ++ ys }) + 1 ≡ owed w
  unfolding owed
  owed-unwritten xs wr ys w e = ground (arith, ap length e ∙ length-middle xs wr ys)

  owed-unshut :
      (xs : List ShutdownReq) (req : ShutdownReq) (ys : List ShutdownReq) (w : World L)
      → w.shutting ≡ xs ++ req ∷ ys
      → owed (record w { shutting = xs ++ ys }) + 2 ≡ owed w
  unfolding owed
  owed-unshut xs req ys w e = ground (arith, ap length e ∙ length-middle xs req ys)

  owed-unclosed :
      (s : ℕ) (w : World L)
      → has s w.closing ≡ true
      → owed (record w { closing = remove s w.closing }) + 1 ≡ owed w
  unfolding owed
  owed-unclosed s w e = ground (arith, length-remove s w.closing)

  -- Behind the end of a stream two callbacks are owed at most where three were.
  owed-end_stream :
      (s : ℕ) (bytes : Option Bytes) (w : World L)
      → has s w.reading ≡ true
      → owed (end_stream uv s bytes w) < owed w
  unfolding after_read echo_alloc malloc owed
  owed-end_stream s none w e =
      let v = record w { reading = remove s w.reading } in
      ground (
        arith,
        owed-unread s w e,
        owed-shutdown_peer (record { address = v.fresh; handle = s }) (malloc v).1,
      )
  owed-end_stream s (some bytes) w e =
      let v = record (malloc w).1 { reading = remove s w.reading } in
      let u = free (some w.fresh) v in
      ground (
        arith,
        owed-unread s w e,
        owed-free (some w.fresh) v,
        owed-shutdown_peer (record { address = u.fresh; handle = s }) (malloc u).1,
      )

  owed-Ending : {w v : World L} → Ending uv w v → owed v < owed w
  unfolding after_write after_shutdown on_close
  owed-Ending {w} (end_read s bytes e) = owed-end_stream s bytes w e
  owed-Ending {w} (end_write xs ys wr e) =
      let v = record w { writing = xs ++ ys } in
      ground (
        arith,
        owed-free wr.base v,
        owed-free (some wr.address) (free wr.base v),
        owed-unwritten xs wr ys w e,
      )
  owed-Ending {w} (end_shutdown xs ys req e) =
      let v = record w { shutting = xs ++ ys } in
      ground (
        arith,
        owed-close_peer req.handle v,
        owed-free (some req.address) (close_peer uv req.handle v),
        owed-unshut xs req ys w e,
      )
  owed-Ending {w} (end_close s e) =
      let v = record w { closing = remove s w.closing } in
      ground (arith, owed-free (some s) v, owed-unclosed s w e)

  owed-Endings : {n : ℕ} {w v : World L} → Endings uv n w v → n + owed v ≤ owed w
  owed-Endings at_rest = omega arith
  owed-Endings (first e es) = ground (arith, owed-Ending e, owed-Endings es)

  -- Where a callback is owed, one can come.
  progress : (w : World L) → (owed w ≡ 0) ⊎ ((v : World L) × Ending uv w v)
  unfolding owed
  progress w = elim (List-cases w.reading) [
    | inr (s, xs, e) ↦ inr (_, end_read s none (ground (arith, e)))
    | inl e1 ↦ elim (List-cases w.writing) [
      | inr (wr, ys, e) ↦ inr (_, end_write [] ys wr e)
      | inl e2 ↦ elim (List-cases w.shutting) [
        | inr (req, ys, e) ↦ inr (_, end_shutdown [] ys req e)
        | inl e3 ↦ elim (List-cases w.closing) [
          | inr (s, xs, e) ↦ inr (_, end_close s (ground (arith, e)))
          | inl e4 ↦ inl (ground (arith, e1, e2, e3, e4))
        ]
      ]
    ]
  ]

  -- All that is owed has come.
  abbrev Drained : World L → Type 0
  Drained w = (n : ℕ) × (v : World L) × Endings uv n w v × (owed v ≡ 0)

  drain : (fuel : ℕ) (w : World L) → owed w ≤ fuel → Drained w
  drain zero w le = (0, w, at_rest, omega arith)
  drain (suc fuel) w le = elim (progress w) [
    | inl e ↦ (0, w, at_rest, e)
    | inr (v, s) ↦
        let (n, u, es, e) = drain fuel v (ground (arith, owed-Ending s)) in
        (suc n, u, first s es, e)
  ]

  pub awaited-owed : (a : ℕ) (w : World L) → owed w ≡ 0 → awaited a w ≡ 0
  unfolding owed awaited
  awaited-owed a w e =
      let e1 : w.reading ≡ [] = no_length w.reading (omega arith) in
      let e2 : w.writing ≡ [] = no_length w.writing (omega arith) in
      let e3 : w.shutting ≡ [] = no_length w.shutting (omega arith) in
      let e4 : w.closing ≡ [] = no_length w.closing (omega arith) in ground (arith, e1, e2, e3, e4)

  pub Reach-Endings : {n : ℕ} {w v : World L} → Reach uv w → Endings uv n w v → Reach uv v
  Reach-Endings r at_rest = r
  Reach-Endings r (first e es) = Reach-Endings (later r (ending e)) es

  -- Where no callback is owed, the heap holds the lost blocks only.
  pub owed_none-lost :
      {v : World L} → Reach uv v → owed v ≡ 0 → (a : ℕ) → occurrences a v.live ≡ lost a v
  owed_none-lost {v} r e a = ground (arith, (heap_owned uv r).0 a, awaited-owed a v e)

  -- From any step of a server on, when its peers end their streams and no others come, for any
  -- callbacks that have followed: they and those that are owed then are no more than were owed at
  -- first; and either none is owed, and no block of the heap is left but those of the requests and
  -- the streams that libuv did not take, or one more can come. And there are callbacks that may
  -- follow, behind which none is owed.
  pub server_drains :
      {w : World L}
      → Reach uv w
      → ((n : ℕ) (v : World L)
          → Endings uv n w v
          → (n + owed v ≤ owed w)
            × (((owed v ≡ 0) × ((a : ℕ) → occurrences a v.live ≡ lost a v))
                ⊎ ((u : World L) × Ending uv v u)))
        × ((n : ℕ) × (v : World L) × Endings uv n w v × (owed v ≡ 0))
  server_drains {w} r = (
    λ n v es. (
      owed-Endings es,
      elim (progress v) [
        | inl e ↦ inl (e, owed_none-lost (Reach-Endings r es) e)
        | inr more ↦ inr more
      ],
    ),
    drain (owed w) w (omega arith),
  )

-- ===== src/EchoServer/Letters.antt =====
-- example/webserver1.c: what the letters Q and QS do.
use projectmoo.Base.{
  ℕ, zero, suc, ◌<◌, ◌≡◌, refl, sym, ap, ◌∙◌, inl, inr, Bool, true, false, ◌||◌, Option, some, [],
  ◌∷◌, arith, Bytes, take, ◌==◌, if◌then◌else◌, Bool-cases,
}
use projectmoo.EchoServer.Callbacks.{close_peer, close_server, scan, after_read}
use projectmoo.EchoServer.Owners.{stops, scan_stop, quit_on, scan_on}
use projectmoo.EchoServer.Reads.{echo, behind_scan, scanned, after_read_lem}
use projectmoo.EchoServer.World.{Uv, World, occurrences, has, free}

-- Is "QS" in the text?
abbrev pub has_stop : Bytes → Bool
has_stop [] = false
has_stop (c ∷ cs) = (stops c cs) || has_stop cs

-- The text before the first "QS", or the whole text.
abbrev pub before_stop : Bytes → Bytes
before_stop [] = []
before_stop (c ∷ cs) = if stops c cs then [] else c ∷ before_stop cs

-- How many letters Q stand before the first "QS".
abbrev pub quits : Bytes → ℕ
quits text = occurrences b'Q' (before_stop text)

module _ {L : Type 0} (uv : Uv L) where
  -- The server is closed so many times.
  abbrev pub close_server_times : ℕ → World L → World L
  close_server_times zero w = w
  close_server_times (suc n) w = close_server_times n (close_server uv w)

  -- What the loop leaves: whether it closes the stream, and how often it closes the server.
  abbrev pub scanned_with : ℕ → Option ℕ → Bool → ℕ → World L → Bool × World L
  scanned_with s base stop n w =
      let v = close_server_times n w in
      if stop then (true, close_peer uv s (free base v)) else (false, v)

  close_server_times-quits :
      (c : ℕ) (cs : Bytes) (w : World L)
      → stops c cs ≡ false
      → close_server_times (quits (c ∷ cs)) w ≡ close_server_times (quits cs) (quit_on uv c w)
  close_server_times-quits c cs w on = elim (Bool-cases (c == b'Q')) [
    | inl e ↦
        let counted : quits (c ∷ cs) ≡ suc (quits cs) = ground (arith, on, e) in
        ap (λ n. close_server_times n w) counted
        ∙ sym (ap (λ b. close_server_times (quits cs) (if b then close_server uv w else w)) e)
    | inr e ↦
        let passed : quits (c ∷ cs) ≡ quits cs = ground (arith, on, e) in
        ap (λ n. close_server_times n w) passed
        ∙ sym (ap (λ b. close_server_times (quits cs) (if b then close_server uv w else w)) e)
  ]

  -- The loop of `after_read` closes the server once for each Q before the first "QS", and at that
  -- the stream.
  pub scan_lem :
      (s : ℕ) (base : Option ℕ) (text : Bytes) (w : World L)
      → scan uv s base text w ≡ scanned_with s base (has_stop text) (quits text) w
  unfolding scan
  scan_lem s base [] w = refl
  scan_lem s base (c ∷ cs) w = elim (Bool-cases (stops c cs)) [
    | inl stop ↦
        let text = c ∷ cs in
        let found : has_stop text ≡ true = ground (arith, stop) in
        let none_before : quits text ≡ 0 = ground (arith, stop) in
        scan_stop uv s base c cs w stop
        ∙ sym (
            ap (λ b. scanned_with s base b (quits text) w) found
            ∙ ap (λ n. scanned_with s base true n w) none_before)
    | inr on ↦
        let text = c ∷ cs in
        let same : has_stop text ≡ has_stop cs = ground (arith, on) in
        let final : Bool → World L → Bool × World L =
          λ b v. if b then (true, close_peer uv s (free base v)) else (false, v) in
        scan_on uv s base c cs w on
        ∙ scan_lem s base cs (quit_on uv c w)
        ∙ sym (
            ap (λ b. final b (close_server_times (quits text) w)) same
            ∙ ap (final (has_stop cs)) (close_server_times-quits c cs w on))
  ]

  read_open :
      (s base n : ℕ) (text : Bytes) (w : World L)
      → behind_scan uv s base n text (scan uv s (some base) text w) ≡ (
          let v = close_server_times (quits text) w in
          if has_stop text then close_peer uv s (free (some base) v) else echo uv s base n text v)
  read_open s base n text w =
      let v = close_server_times (quits text) w in
      ap (behind_scan uv s base n text) (scan_lem s (some base) text w)
      ∙ (elim (has_stop text)
          as (λ b.
            behind_scan uv s base n text
              (if b then (true, close_peer uv s (free (some base) v)) else (false, v))
            ≡ (if b then close_peer uv s (free (some base) v) else echo uv s base n text v)) [
              | true ↦ refl
              | false ↦ refl
            ])

  -- A read of n bytes, at least one, into an allocated block: while the server is open, it is
  -- closed once for each Q before the first "QS"; then the stream is closed and the block freed if
  -- there is a "QS". In all other cases, and always when the server was closed before, the n bytes
  -- are written back to the stream, by a new request for this block.
  pub after_read-letters :
      (s base n : ℕ) (bytes : Bytes) (w : World L)
      → has base w.live ≡ true
      → 0 < n
      → let text = take n bytes in
        let v = close_server_times (quits text) w in
        after_read uv s (some n) (record { base = some base; bytes = bytes }) w ≡ (
          if w.server_closed
          then echo uv s base n text w
          else if has_stop text
          then close_peer uv s (free (some base) v)
          else echo uv s base n text v)
  after_read-letters s base n bytes w e pos =
      let text = take n bytes in
      let some_read : (n == 0) ≡ false = ground arith in
      after_read_lem uv s base n bytes w e
      ∙ ap
          (λ b.
            if b
            then free (some base) w
            else behind_scan uv s base n text (scanned uv s base text w))
          some_read
      ∙ (elim w.server_closed
          as (λ b.
            behind_scan uv s base n text (if b then (false, w) else scan uv s (some base) text w)
            ≡ (if b
                then echo uv s base n text w
                else (let v = close_server_times (quits text) w in
                    if has_stop text
                    then close_peer uv s (free (some base) v)
                    else echo uv s base n text v))) [
                      | true ↦ refl
                      | false ↦ read_open s base n text w
                    ])

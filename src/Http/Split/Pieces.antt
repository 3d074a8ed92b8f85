-- ===== src/Http/Split/Pieces.antt =====
-- Any division of a stream into calls of `http_parser_execute` (http_parser.c).
use projectmoo.Base.{
  ℕ, ◌+◌, ◌<◌, ◌≡◌, refl, sym, ap, ◌∙◌, inl, inr, true, false, not, ◌&&◌, List, [], ◌∷◌, ◌++◌,
  arith, Bytes, length, length-append, Bool-cases,
}
use projectmoo.Http.Execute.{http_parser_execute}
use projectmoo.Http.Frame.{Outcome, returned, fault, exhausted, is_ok}
use projectmoo.Http.Invariant.Calls.{execute-Ready}
use projectmoo.Http.Invariant.Execute.{Ready}
use projectmoo.Http.Split.{IsQuiet}
use projectmoo.Http.Split.Calls.{execute-feed}
use projectmoo.Http.Split.Feed.{
  joined, no_empty, read_before, go_on, feed_pieces, feed, SameEnd, go_on_more, go_on_stop,
}
use projectmoo.Http.Types.{hpe_ok, Parser, Settings}

module _ {W : Type 0} where
  SameEnd-trans : (k : ℕ) (a b c : Outcome W) → SameEnd k a b → SameEnd 0 b c → SameEnd k a c
  SameEnd-trans k (returned q w n) (returned r v m) (returned s u l) h h' = ground arith
  SameEnd-trans k (returned q w n) (returned r v m) fault h h' = h'
  SameEnd-trans k (returned q w n) (returned r v m) exhausted h h' = h'
  SameEnd-trans k (returned q w n) fault c h h' = absurd h
  SameEnd-trans k (returned q w n) exhausted c h h' = absurd h
  SameEnd-trans k fault b c h h' = absurd h
  SameEnd-trans k exhausted b c h h' = absurd h

  SameEnd-sym : (a b : Outcome W) → SameEnd 0 a b → SameEnd 0 b a
  SameEnd-sym (returned q w n) (returned r v m) h = ground arith
  SameEnd-sym (returned q w n) fault h = h
  SameEnd-sym (returned q w n) exhausted h = h
  SameEnd-sym fault b h = absurd h
  SameEnd-sym exhausted b h = absurd h

  read_before_zero : (o : Outcome W) → read_before 0 o ≡ o
  read_before_zero (returned q w n) = ap (returned q w) (omega arith)
  read_before_zero fault = refl
  read_before_zero exhausted = refl

  read_before_twice :
      (k n : ℕ) (o : Outcome W) → read_before (k + n) o ≡ read_before k (read_before n o)
  read_before_twice k n (returned q w m) = ap (returned q w) (omega arith)
  read_before_twice k n fault = refl
  read_before_twice k n exhausted = refl

  read_before_both :
      (k : ℕ) (o o' : Outcome W) → SameEnd 0 o o' → SameEnd 0 (read_before k o) (read_before k o')
  read_before_both k (returned q w n) (returned r v m) h = ground arith
  read_before_both k (returned q w n) fault h = h
  read_before_both k (returned q w n) exhausted h = h
  read_before_both k fault o' h = absurd h
  read_before_both k exhausted o' h = absurd h

  -- The counts add up in any order.
  go_on-read_before :
      (rest : Parser → W → Outcome W) (n : ℕ) (o : Outcome W)
      → go_on rest (read_before n o) ≡ read_before n (go_on rest o)
  go_on-read_before rest n (returned q w m) = ground (arith, read_before_twice n m (rest q w))
  go_on-read_before rest n fault = refl
  go_on-read_before rest n exhausted = refl

  go_on-go_on :
      (first then_on rest : Parser → W → Outcome W) (o : Outcome W)
      → ((q : Parser) (w : W) (n : ℕ)
          → o ≡ returned q w n
          → q.http_errno ≡ hpe_ok
          → q.upgrade ≡ false
          → first q w ≡ go_on rest (then_on q w))
      → go_on first o ≡ go_on rest (go_on then_on o)
  go_on-go_on first then_on rest (returned q w n) h =
      elim (Bool-cases (is_ok q.http_errno && not q.upgrade)) [
        | inl live ↦
            let ok : q.http_errno ≡ hpe_ok = ground arith in
            let up : q.upgrade ≡ false = ground arith in
            go_on_more first q w n ok up
            ∙ ap (read_before n) (h q w n refl ok up)
            ∙ sym (go_on-read_before rest n (then_on q w))
            ∙ sym (ap (go_on rest) (go_on_more then_on q w n ok up))
        | inr stop ↦ ground arith
      ]
  go_on-go_on first then_on rest fault h = refl
  go_on-go_on first then_on rest exhausted h = refl

  go_on-SameEnd :
      (rest rest' : Parser → W → Outcome W) (o o' : Outcome W)
      → SameEnd 0 o o'
      → ((q : Parser) (w : W) (n : ℕ)
          → o ≡ returned q w n
          → q.http_errno ≡ hpe_ok
          → q.upgrade ≡ false
          → SameEnd 0 (rest q w) (rest' q w))
      → SameEnd 0 (go_on rest o) (go_on rest' o')
  go_on-SameEnd rest rest' (returned q w n) (returned r v m) (e, count, same, full) h =
      elim (Bool-cases (is_ok q.http_errno && not q.upgrade)) [
        | inl live ↦
            let ok : q.http_errno ≡ hpe_ok = ground arith in
            let up : q.upgrade ≡ false = ground arith in
            let second : go_on rest' (returned r v m) ≡ read_before n (rest' q w) = ground arith in
            rw (go_on_more rest q w n ok up, second) (read_before_both n _ _ (h q w n refl ok up))
        | inr stop ↦
            rw (go_on_stop rest q w n (ground arith), go_on_stop rest' r v m (ground arith))
              (e, count, same, full)
      ]
  go_on-SameEnd rest rest' (returned q w n) fault e h = absurd e
  go_on-SameEnd rest rest' (returned q w n) exhausted e h = absurd e
  go_on-SameEnd rest rest' fault o' e h = absurd e
  go_on-SameEnd rest rest' exhausted o' e h = absurd e

module _ {W : Type 0} (settings : Settings W) where
  -- Bytes fed up to an error are fed no further.
  feed-append :
      (xs ys : Bytes) (q : Parser) (w : W)
      → Ready q
      → feed settings (xs ++ ys) q w ≡ go_on (feed settings ys) (feed settings xs q w)
  unfolding feed
  feed-append [] ys q w h =
      sym (go_on_more (feed settings ys) q w 0 h.no_error h.no_upgrade ∙ read_before_zero _)
  feed-append (c ∷ cs) ys q w h =
      go_on-go_on (feed settings (cs ++ ys)) (feed settings cs) (feed settings ys)
        (http_parser_execute settings (c ∷ []) q w)
        (λ r v n e ok up. feed-append cs ys r v (execute-Ready settings (c ∷ []) q w h e ok up))

module _ {W : Type 0} (settings : Settings W) (quiet : IsQuiet settings) where
  feed_pieces-feed :
      (pieces : List Bytes) (q : Parser) (w : W)
      → Ready q
      → no_empty pieces ≡ true
      → length (joined pieces) < 9223372036854775808
      → SameEnd 0 (feed_pieces settings pieces q w) (feed settings (joined pieces) q w)
  unfolding feed_pieces feed
  feed_pieces-feed [] q w h some_bytes small = (refl, refl, refl, inr refl)
  feed_pieces-feed (xs ∷ pieces) q w h some_bytes small =
      let sizes = length-append xs (joined pieces) in
      rw (feed-append settings xs (joined pieces) q w h) (
        go_on-SameEnd (feed_pieces settings pieces) (feed settings (joined pieces)) _ _
          (execute-feed settings quiet xs (omega arith) q w h (ground arith))
          (λ r v n e ok up.
            feed_pieces-feed pieces r v (execute-Ready settings xs q w h e ok up) (ground arith)
              (omega arith)))

  -- Callbacks that are told of events only and do not look at the four fields that a call stores at
  -- its end; a ready parser; a stream of at least one byte and fewer than 2^63, divided in any way
  -- into pieces of at least one byte. One call of `http_parser_execute` on the whole stream, and a
  -- call on each piece in turn up to the first that leaves an error or an upgrade: both return,
  -- with the same world and the same number of bytes read, and with the same parser if there is
  -- neither error nor upgrade; otherwise the two parsers differ at most in these four fields.
  pub execute-feed_pieces :
      (pieces : List Bytes) (q : Parser) (w : W)
      → Ready q
      → no_empty pieces ≡ true
      → 0 < length (joined pieces)
      → length (joined pieces) < 9223372036854775808
      → SameEnd 0
          (http_parser_execute settings (joined pieces) q w)
          (feed_pieces settings pieces q w)
  execute-feed_pieces pieces q w h some_bytes some_byte small =
      SameEnd-trans 0 _ _ _ (execute-feed settings quiet (joined pieces) small q w h some_byte)
        (SameEnd-sym _ _ (feed_pieces-feed pieces q w h some_bytes small))

-- ===== src/Http/Split/Feed.antt =====
-- http_parser.c: a call on several bytes, and calls on the same bytes one at a time.
use projectmoo.Base.{
  ℕ, ◌+◌, ◌≡◌, ◌≢◌, ◌⊎◌, Bool, true, false, not, ◌&&◌, List, [], ◌∷◌, ◌++◌, arith, Bytes, length,
  ltb, if◌then◌else◌,
}
use projectmoo.Http.Execute.{http_parser_execute}
use projectmoo.Http.Frame.{Outcome, returned, fault, exhausted, is_ok}
use projectmoo.Http.Split.{forget}
use projectmoo.Http.Types.{hpe_ok, Parser, Settings}

-- A stream in pieces, and whether each has a byte: a call with none would tell the stream's end.
abbrev pub joined : List Bytes → Bytes
joined [] = []
joined (xs ∷ pieces) = xs ++ joined pieces

abbrev pub no_empty : List Bytes → Bool
no_empty [] = true
no_empty (xs ∷ pieces) = ltb 0 (length xs) && no_empty pieces

module _ {W : Type 0} where
  -- `k` bytes more were read before.
  abbrev pub read_before : ℕ → Outcome W → Outcome W
  read_before k (returned q w n) = returned q w (k + n)
  read_before k fault = fault
  read_before k exhausted = exhausted

  -- Further calls, if this one left neither an error nor an upgrade.
  abbrev pub go_on : (Parser → W → Outcome W) → Outcome W → Outcome W
  go_on rest (returned q w n) =
      if is_ok q.http_errno && not q.upgrade then read_before n (rest q w) else returned q w n
  go_on rest fault = fault
  go_on rest exhausted = exhausted

  -- A client that passes each piece of the stream on as it comes, and adds up what the calls return.
  unfoldable pub feed_pieces : Settings W → List Bytes → Parser → W → Outcome W
  feed_pieces settings [] q w = returned q w 0
  feed_pieces settings (xs ∷ pieces) q w =
      go_on (feed_pieces settings pieces) (http_parser_execute settings xs q w)

  -- That client, when it passes each byte on.
  unfoldable pub feed : Settings W → Bytes → Parser → W → Outcome W
  feed settings [] q w = returned q w 0
  feed settings (c ∷ cs) q w = go_on (feed settings cs) (http_parser_execute settings (c ∷ []) q w)

  -- Two ends of a call: the same world, and numbers of bytes that differ by `k`; the same parser
  -- but for the four fields that are stored at the end of a call, and the same in these too unless
  -- there is an error or an upgrade.
  abbrev pub SameEnd : ℕ → Outcome W → Outcome W → Type 0
  SameEnd k (returned q w n) (returned r v m) =
      (w ≡ v)
      × (n ≡ k + m)
      × (forget q ≡ forget r)
      × (((q.http_errno ≢ hpe_ok) ⊎ (q.upgrade ≡ true)) ⊎ (q ≡ r))
  SameEnd k _ _ = ⊥

  pub read_before-SameEnd :
      (k : ℕ) (o o' : Outcome W) → SameEnd (k + 1) o o' → SameEnd k o (read_before 1 o')
  read_before-SameEnd k (returned q w n) (returned r v m) (same_world, read, same, equal) =
      (same_world, omega arith, same, equal)
  read_before-SameEnd k (returned q w n) fault h = h
  read_before-SameEnd k (returned q w n) exhausted h = h
  read_before-SameEnd k fault o' h = absurd h
  read_before-SameEnd k exhausted o' h = absurd h

  pub go_on_more :
      (rest : Parser → W → Outcome W) (q : Parser) (w : W) (n : ℕ)
      → q.http_errno ≡ hpe_ok
      → q.upgrade ≡ false
      → go_on rest (returned q w n) ≡ read_before n (rest q w)
  go_on_more rest q w n ok up = ground arith

  pub go_on_stop :
      (rest : Parser → W → Outcome W) (q : Parser) (w : W) (n : ℕ)
      → (q.http_errno ≢ hpe_ok) ⊎ (q.upgrade ≡ true)
      → go_on rest (returned q w n) ≡ returned q w n
  go_on_stop rest q w n stop = ground arith

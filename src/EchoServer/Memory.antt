-- ===== src/EchoServer/Memory.antt =====
-- example/webserver1.c: whose each block of the heap is, and what the heap's operations keep of it.
use mathlib.Core.Path.{subst}
use projectmoo.Base.{
  ℕ, ◌+◌, ◌≤◌, ◌≡◌, refl, sym, Bool, true, false, Option, none, some, List, [], ◌∷◌, ◌++◌, arith,
  ◌==◌, if◌then◌else◌,
}
use projectmoo.EchoServer.World.{
  WriteReq, ShutdownReq, Trouble, dead_pointer, closed_twice, server_closed_twice, World,
  occurrences, has, remove, follow, malloc, free,
}

-- 1 for the address itself.
abbrev pub one : ℕ → ℕ → ℕ
one a p = if p == a then 1 else 0

abbrev pub of_base : ℕ → Option ℕ → ℕ
of_base a none = 0
of_base a (some p) = one a p

-- How many of these requests have a block: their own, or their buffer's.
abbrev pub of_writes : ℕ → List WriteReq → ℕ
of_writes a [] = 0
of_writes a (r ∷ rs) = of_base a r.base + one a r.address + of_writes a rs

-- How many of these requests have a block: their own, or their stream's.
abbrev pub of_shutdowns : ℕ → List ShutdownReq → ℕ
of_shutdowns a [] = 0
of_shutdowns a (r ∷ rs) = one a r.address + one a r.handle + of_shutdowns a rs

-- How many of the callbacks that libuv still owes have a block.
unfoldable pub awaited : {L : Type 0} → ℕ → World L → ℕ
awaited a w =
    occurrences a w.reading
    + of_writes a w.writing
    + of_shutdowns a w.shutting
    + occurrences a w.closing

-- How many of the streams and requests that libuv did not take have a block.
unfoldable pub lost : {L : Type 0} → ℕ → World L → ℕ
lost a w =
    occurrences a w.lost_streams + of_writes a w.lost_writes + of_shutdowns a w.lost_shutdowns

-- No block was used that is not allocated, and no stream of a peer closed twice.
abbrev pub unharmed : List Trouble → Bool
unharmed [] = true
unharmed (dead_pointer ∷ ts) = false
unharmed (closed_twice ∷ ts) = false
unharmed (server_closed_twice ∷ ts) = unharmed ts

-- Each block that is allocated is that of one callback to come, or one that is lost, or one of
-- `held`, the blocks of the callback that runs; nothing else is, and nothing went wrong with them.
pub record Holding {L : Type 0} (held : List ℕ) (w : World L) : Type 0 where
  pub owned : (a : ℕ) → occurrences a w.live ≡ awaited a w + lost a w + occurrences a held
  pub single : (a : ℕ) → occurrences a w.live ≤ 1
  pub unused : (a : ℕ) → w.fresh ≤ a → occurrences a w.live ≡ 0
  pub harmless : unharmed w.trouble ≡ true

pub occurrences-remove :
    (a p : ℕ) (xs : List ℕ)
    → has p xs ≡ true
    → occurrences a xs ≡ one a p + occurrences a (remove p xs)
occurrences-remove a p [] h = ground arith
occurrences-remove a p (x ∷ xs) h = ground (arith, occurrences-remove a p xs)

pub occurrences-absent :
    (a p : ℕ) (xs : List ℕ) → has p xs ≡ false → occurrences a (remove p xs) ≡ occurrences a xs
occurrences-absent a p [] h = refl
occurrences-absent a p (x ∷ xs) h = ground (arith, occurrences-absent a p xs)

pub of_writes-middle :
    (a : ℕ) (xs : List WriteReq) (r : WriteReq) (ys : List WriteReq)
    → of_writes a (xs ++ r ∷ ys) ≡ of_base a r.base + one a r.address + of_writes a (xs ++ ys)
of_writes-middle a [] r ys = refl
of_writes-middle a (x ∷ xs) r ys = ground (arith, of_writes-middle a xs r ys)

pub of_shutdowns-middle :
    (a : ℕ) (xs : List ShutdownReq) (r : ShutdownReq) (ys : List ShutdownReq)
    → of_shutdowns a (xs ++ r ∷ ys) ≡ one a r.address + one a r.handle + of_shutdowns a (xs ++ ys)
of_shutdowns-middle a [] r ys = refl
of_shutdowns-middle a (x ∷ xs) r ys = ground (arith, of_shutdowns-middle a xs r ys)

module _ {L : Type 0} where
  -- A held block is allocated.
  pub held_live : {p : ℕ} {held : List ℕ} {w : World L} → Holding (p ∷ held) w → has p w.live ≡ true
  held_live {p} h = ground (arith, h.owned p)

  pub follow_live : (p : ℕ) (w : World L) → has p w.live ≡ true → follow (some p) w ≡ w
  unfolding follow
  follow_live p w e = ground (arith, e)

  pub malloc_live : (w : World L) → has w.fresh (malloc w).1.live ≡ true
  unfolding malloc
  malloc_live w = ground arith

  free_live :
      (p : ℕ) (w : World L)
      → has p w.live ≡ true
      → free (some p) w ≡ record w { live = remove p w.live }
  unfolding free
  free_live p w e = ground (arith, e)

  -- A new block is held.
  pub Holding-malloc :
      {held : List ℕ} {w : World L} → Holding held w → Holding (w.fresh ∷ held) (malloc w).1
  unfolding malloc awaited lost
  Holding-malloc {held} {w} h = record {
    owned = λ a. ground (arith, h.owned a);
    single = λ a. ground (arith, h.single a, h.unused w.fresh);
    unused = λ a le. ground (arith, h.unused a);
    harmless = h.harmless;
  }

  -- A held block is freed.
  pub Holding-free :
      {p : ℕ} {held : List ℕ} {w : World L} → Holding (p ∷ held) w → Holding held (free (some p) w)
  unfolding awaited lost
  Holding-free {p} {held} {w} h =
      let split : (a : ℕ) → occurrences a w.live ≡ one a p + occurrences a (remove p w.live) =
        λ a. occurrences-remove a p w.live (held_live h) in
      subst (Holding held) (sym (free_live p w (held_live h))) record {
        owned = λ a. ground (arith, h.owned a, split a);
        single = λ a. ground (arith, h.single a, split a);
        unused = λ a le. ground (arith, h.unused a, split a);
        harmless = h.harmless;
      }

-- ===== src/Buffer/Lru.antt =====
-- The choice of `freebuf` in uzi-nes-port/drivers/devio.c: the buffer that has been unused longest
-- among those that are not busy.
use uzi_build.Prelude.{
  ℕ, zero, suc, ◌+◌, ◌≤◌, ◌<◌, ◌≡◌, refl, ◌≢◌, ◌⊎◌, inl, inr, List, [], ◌∷◌, Option, none, some,
  arith, ap, ◌∙◌, ◌==◌, ◌&&◌, leb, sub16, get_elem?, Bool-cases,
}
use uzi_build.Kernel.{Blkbuf}
use uzi_build.Buffer.{oldest_buf}

-- How long ago the buffer was stamped, on a clock that wraps.
abbrev pub age : ℕ → Blkbuf → ℕ
age clock b = sub16 clock b.bf_time

-- The buffer at place `i` of a pool is not busy, and no such buffer of the pool is older.
pub record IsOldest (clock : ℕ) (pool : List Blkbuf) (i : ℕ) : Type 0 where
  pub buf : Blkbuf
  pub found : get_elem? pool i ≡ some buf
  pub idle : buf.bf_busy ≡ 0
  pub oldest :
      (j : ℕ) (b : Blkbuf) → get_elem? pool j ≡ some b → b.bf_busy ≡ 0 → age clock b ≤ age clock buf

-- What the loop returns from buffer `i` on: the buffer `best` that it had, when every idle buffer left
-- is younger than `time`, or else the oldest of those left.
abbrev Chosen : ℕ → ℕ → Option ℕ → ℕ → List Blkbuf → Option ℕ → Type 0
Chosen clock i best time pool r =
    ((r ≡ best)
      × ((j : ℕ) (b : Blkbuf) → get_elem? pool j ≡ some b → b.bf_busy ≡ 0 → age clock b < time))
    ⊎ ((n : ℕ) × (o : IsOldest clock pool n) × (time ≤ age clock o.buf) × (r ≡ some (i + n)))

-- Looking at one more buffer in front.
Chosen-better :
    (clock i time : ℕ) (best : Option ℕ) (b : Blkbuf) (pool : List Blkbuf) (r : Option ℕ)
    → b.bf_busy ≡ 0
    → time ≤ age clock b
    → Chosen clock (i + 1) (some i) (age clock b) pool r
    → Chosen clock i best time (b ∷ pool) r
Chosen-better clock i time best b pool r idle le (inl (e, young)) = inr (
  0,
  record { buf = b; found = refl; idle = idle; oldest = first },
  le,
  rw e (ap some (omega arith)),
)
  where
    first :
        (j : ℕ) (c : Blkbuf)
        → get_elem? (b ∷ pool) j ≡ some c
        → c.bf_busy ≡ 0
        → age clock c ≤ age clock b
    first zero c h q = ground arith
    first (suc j) c h q = omega (arith, young j c h q)
Chosen-better clock i time best b pool r idle le (inr (n, o, below, e)) = inr (
  suc n,
  record { buf = o.buf; found = o.found; idle = o.idle; oldest = later },
  omega arith,
  rw e (ap some (omega arith)),
)
  where
    later :
        (j : ℕ) (c : Blkbuf)
        → get_elem? (b ∷ pool) j ≡ some c
        → c.bf_busy ≡ 0
        → age clock c ≤ age clock o.buf
    later zero c h q = ground arith
    later (suc j) c h q = o.oldest j c h q

Chosen-worse :
    (clock i time : ℕ) (best : Option ℕ) (b : Blkbuf) (pool : List Blkbuf) (r : Option ℕ)
    → (b.bf_busy ≡ 0 → age clock b < time)
    → Chosen clock (i + 1) best time pool r
    → Chosen clock i best time (b ∷ pool) r
Chosen-worse clock i time best b pool r young (inl (e, younger)) = inl (e, all)
  where
    all :
        (j : ℕ) (c : Blkbuf) → get_elem? (b ∷ pool) j ≡ some c → c.bf_busy ≡ 0 → age clock c < time
    all zero c h q = ground (arith, young)
    all (suc j) c h q = younger j c h q
Chosen-worse clock i time best b pool r young (inr (n, o, above, e)) = inr (
  suc n,
  record { buf = o.buf; found = o.found; idle = o.idle; oldest = later },
  above,
  rw e (ap some (omega arith)),
)
  where
    later :
        (j : ℕ) (c : Blkbuf)
        → get_elem? (b ∷ pool) j ≡ some c
        → c.bf_busy ≡ 0
        → age clock c ≤ age clock o.buf
    later zero c h q = ground (arith, young)
    later (suc j) c h q = o.oldest j c h q

oldest_buf-Chosen :
    (clock i : ℕ) (best : Option ℕ) (time : ℕ) (pool : List Blkbuf)
    → Chosen clock i best time pool (oldest_buf clock i best time pool)
unfolding oldest_buf
oldest_buf-Chosen clock i best time [] = inl (refl, λ j b h. cc)
oldest_buf-Chosen clock i best time (b ∷ pool) =
    elim (Bool-cases (leb time (age clock b) && b.bf_busy == 0)) [
      | inl better ↦ rw better (
          Chosen-better clock i time best b pool _ (ground arith) (ground arith)
            (oldest_buf-Chosen clock (i + 1) (some i) (age clock b) pool))
      | inr worse ↦ rw worse (
          Chosen-worse clock i time best b pool _ (λ q. ground arith)
            (oldest_buf-Chosen clock (i + 1) best time pool))
    ]

-- The search of `freebuf` over a pool, from its start, finds nothing exactly when every buffer is
-- busy; what it finds otherwise is a buffer that is not busy, and no such buffer of the pool is
-- older.
pub oldest_buf-IsOldest :
    (clock : ℕ) (pool : List Blkbuf)
    → ((oldest_buf clock 0 none 0 pool ≡ none)
        × ((j : ℕ) (b : Blkbuf) → get_elem? pool j ≡ some b → b.bf_busy ≢ 0))
      ⊎ ((i : ℕ) × (oldest_buf clock 0 none 0 pool ≡ some i) × IsOldest clock pool i)
oldest_buf-IsOldest clock pool = found (oldest_buf-Chosen clock 0 none 0 pool)
  where
    found :
        Chosen clock 0 none 0 pool (oldest_buf clock 0 none 0 pool)
        → ((oldest_buf clock 0 none 0 pool ≡ none)
            × ((j : ℕ) (b : Blkbuf) → get_elem? pool j ≡ some b → b.bf_busy ≢ 0))
          ⊎ ((i : ℕ) × (oldest_buf clock 0 none 0 pool ≡ some i) × IsOldest clock pool i)
    found (inl (e, young)) = inl (e, λ j b h q. absurd (omega (arith, young j b h q)))
    found (inr (n, o, above, e)) = inr (n, e ∙ ap some (omega arith), o)

-- ===== src/Buffer/Evict.antt =====
-- `freebuf` of uzi-nes-port/drivers/devio.c: the buffer that it hands out is idle and clean, and no
-- block looks different afterwards.
use uzi_build.Prelude.{
  ℕ, zero, suc, ◌<◌, ◌≡◌, refl, ◌≢◌, inl, inr, ◌⊎◌, false, List, [], ◌∷◌, none, some, arith, ◌∙◌,
  ◌==◌, leb, get_elem?, set, get_elem?-set_self, get_elem?-set_ne, Bool-cases,
}
use uzi_build.Kernel.{Kernel, Blkbuf, ok}
use uzi_build.Kernel.Returns
use uzi_build.Kernel.Returns.{Returns}
use uzi_build.Buffer.{ndevs, bfind, put_block, clean, freebuf, bdwrite, oldest_buf}
use uzi_build.Buffer.View.{Disk, view, IsSound, IsCoherent, bfind-set_same, lookup-set_same}
use uzi_build.Buffer.WriteBack.{cleaned, lookup-put_block, write_back-IsCoherent}
use uzi_build.Buffer.Lru.{IsOldest, oldest_buf-IsOldest}

-- The device routines answer no request with -1.
abbrev pub NoFault : Kernel → Type 0
NoFault k = (d n : ℕ) → k.fault d n ≡ false

abbrev pub PoolCoherent : Kernel → Type 0
PoolCoherent k = IsCoherent k.disk k.bufpool

-- Two states that differ at most in the buffer pool, its clock and the contents of the devices.
abbrev pub SameTables : Kernel → Kernel → Type 0
SameTables k k' = k' ≡ record k { bufpool = k'.bufpool; bufclock = k'.bufclock; disk = k'.disk }

pub record Evicted (k : Kernel) (i : ℕ) (b : Blkbuf) (k' : Kernel) : Type 0 where
  pub tables : SameTables k k'
  pub entry : get_elem? k'.bufpool i ≡ some (cleaned b)
  pub coherent : PoolCoherent k'
  pub seen : (d n : ℕ) → view k' d n ≡ view k d n
  pub others : (j : ℕ) → i ≢ j → get_elem? k'.bufpool j ≡ get_elem? k.bufpool j
  pub names : (d n : ℕ) → bfind d n k'.bufpool ≡ bfind d n k.bufpool

-- Every buffer of a coherent pool is sound.
pub IsSound-get_elem? :
    (disk : Disk) (bs : List Blkbuf) (i : ℕ) (b : Blkbuf)
    → IsCoherent disk bs
    → get_elem? bs i ≡ some b
    → IsSound disk b
IsSound-get_elem? disk [] i b c h = cc
IsSound-get_elem? disk (x ∷ bs) zero b c h = let e : x ≡ b = cc in rw e at c.0
IsSound-get_elem? disk (x ∷ bs) (suc i) b c h = IsSound-get_elem? disk bs i b c.2 h

pub bdwrite-ok :
    (k : Kernel) (b : Blkbuf)
    → b.bf_dev < ndevs
    → k.fault b.bf_dev b.bf_blk ≡ false
    → bdwrite b k ≡ ok false (record k { disk = put_block k.disk b.bf_dev b.bf_blk b.bf_data })
unfolding bdwrite
bdwrite-ok k b p e = let small : leb ndevs b.bf_dev ≡ false = ground arith in rw (small, e)

clean-Evicted :
    (k : Kernel) (i : ℕ) (b : Blkbuf)
    → get_elem? k.bufpool i ≡ some b
    → PoolCoherent k
    → NoFault k
    → Returns (clean i k) (λ j k'. (j ≡ i) × Evicted k i b k')
unfolding clean
clean-Evicted k i b h c nf = elim (Bool-cases (b.bf_dirty == 0)) [
  | inl fresh ↦ record {
    value = i;
    state = k;
    result = rw (h, fresh);
    post = (
      refl,
      record {
        tables = refl;
        entry = ground arith;
        coherent = c;
        seen = λ d n. refl;
        others = λ j ne. refl;
        names = λ d n. refl;
      },
    );
  }
  | inr dirty ↦
      let owned : b.bf_dev < ndevs =
        (IsSound-get_elem? k.disk k.bufpool i b c h).owned (ground arith) in
      record {
        value = i;
        state = record k {
          disk = put_block k.disk b.bf_dev b.bf_blk b.bf_data;
          bufpool = set k.bufpool i (cleaned b);
        };
        result = rw (h, dirty, bdwrite-ok k b owned (nf b.bf_dev b.bf_blk));
        post = (
          refl,
          record {
            tables = refl;
            entry = get_elem?-set_self k.bufpool i b (cleaned b) h;
            coherent = write_back-IsCoherent k.disk k.bufpool i b h owned c;
            seen = λ d n.
                lookup-set_same (put_block k.disk b.bf_dev b.bf_blk b.bf_data) k.bufpool i b
                  (cleaned b) d n h refl refl refl
                ∙ lookup-put_block k.disk k.bufpool i d n b h;
            others = λ j ne. get_elem?-set_ne k.bufpool i j (cleaned b) ne;
            names = λ d n. bfind-set_same k.bufpool i b (cleaned b) d n h refl refl;
          },
        );
      }
]

-- With an idle buffer in a coherent pool, and devices that answer, `freebuf` returns the idle buffer
-- that has been unused longest, written to its device if it was dirty: no block looks different.
pub freebuf-Evicted :
    (k : Kernel) (j : ℕ) (idle : Blkbuf)
    → get_elem? k.bufpool j ≡ some idle
    → idle.bf_busy ≡ 0
    → PoolCoherent k
    → NoFault k
    → Returns (freebuf k) (λ i k'. (o : IsOldest k.bufclock k.bufpool i) × Evicted k i o.buf k')
unfolding freebuf
freebuf-Evicted k j idle h q c nf = found (oldest_buf-IsOldest k.bufclock k.bufpool)
  where
    found :
        ((oldest_buf k.bufclock 0 none 0 k.bufpool ≡ none)
            × ((j : ℕ) (b : Blkbuf) → get_elem? k.bufpool j ≡ some b → b.bf_busy ≢ 0))
          ⊎ ((i : ℕ) × (oldest_buf k.bufclock 0 none 0 k.bufpool ≡ some i)
              × IsOldest k.bufclock k.bufpool i)
        → Returns (freebuf k) (λ i k'. (o : IsOldest k.bufclock k.bufpool i) × Evicted k i o.buf k')
    found (inl (e, busy)) = absurd (busy j idle h q)
    found (inr (i, e, o)) =
        rw (e, freebuf)
          (Returns.weaken (clean-Evicted k i o.buf o.found c nf) λ m k' (same, ev). rw same (o, ev))

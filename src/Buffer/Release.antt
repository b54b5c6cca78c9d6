-- ===== src/Buffer/Release.antt =====
-- `bfree` of uzi-nes-port/drivers/devio.c, and with it `brelse` and `bawrite`: a buffer goes back to
-- the pool, marked for writing or written at once, and no block looks different.
use uzi_build.Prelude.{
  ℕ, ◌<◌, ◌≡◌, refl, ◌≢◌, inl, inr, Bool, true, some, arith, ◌∙◌, ◌==◌, get_elem?, set, set-set,
  get_elem?-set_self, get_elem?-set_ne, Bool-cases, bit_or, leb, not, ◌&&◌, ◌||◌, all_below,
  all_below-apply,
}
use uzi_build.Kernel.{Kernel, Blkbuf}
use uzi_build.Kernel.Returns.{Returns}
use uzi_build.Buffer.{ndevs, bfree, put_buf, put_block}
use uzi_build.Buffer.View.{lookup, view, IsSound, IsCoherent, lookup-set_same, set_same-IsCoherent}
use uzi_build.Buffer.WriteBack.{cleaned, lookup-put_block, write_back-IsCoherent}
use uzi_build.Buffer.Evict.{NoFault, PoolCoherent, SameTables, IsSound-get_elem?, bdwrite-ok}

-- `bf_dirty |= dirty` over the values that occur.
flag_test : ℕ → ℕ → Bool
flag_test a d = leb (bit_or a d) 3 && (not (bit_or a d == 0) || (a == 0 && d == 0))

flag_table : all_below 4 (λ a. all_below 3 (flag_test a)) ≡ true
unfolding all_below flag_test
flag_table = refl

bit_or_flag : (a d : ℕ) → a < 4 → d < 3 → (bit_or a d < 4) × (bit_or a d ≡ 0 → (a ≡ 0) × (d ≡ 0))
unfolding flag_test
bit_or_flag a d p q =
    let row = all_below-apply 4 (λ a. all_below 3 (flag_test a)) a flag_table p in
    let entry = all_below-apply 3 (flag_test a) d row q in (ground arith, λ e. ground arith)

-- A buffer as it goes back to the pool.
abbrev pub released : ℕ → Blkbuf → Blkbuf
released dirty b = record b { bf_dirty = bit_or b.bf_dirty dirty; bf_busy = 0 }

pub record Released (k : Kernel) (i dirty : ℕ) (b : Blkbuf) (k' : Kernel) : Type 0 where
  pub tables : SameTables k k'
  pub coherent : PoolCoherent k'
  pub seen : (d n : ℕ) → view k' d n ≡ view k d n
  pub buf : Blkbuf
  pub at : get_elem? k'.bufpool i ≡ some buf
  pub idle : buf.bf_busy ≡ 0
  pub written : dirty ≡ 2 → k'.disk b.bf_dev b.bf_blk ≡ b.bf_data
  pub kept : dirty ≢ 2 → k'.disk ≡ k.disk
  pub others : (j : ℕ) → i ≢ j → get_elem? k'.bufpool j ≡ get_elem? k.bufpool j

-- Back to the pool without a write.
later-Released :
    (k : Kernel) (i dirty : ℕ) (b : Blkbuf)
    → get_elem? k.bufpool i ≡ some b
    → PoolCoherent k
    → IsSound k.disk (released dirty b)
    → dirty ≢ 2
    → Released k i dirty b (put_buf i (released dirty b) k)
later-Released k i dirty b h c s ne = record {
  tables = refl;
  coherent = set_same-IsCoherent k.disk k.bufpool i b (released dirty b) h refl refl s c;
  seen = λ d n. lookup-set_same k.disk k.bufpool i b (released dirty b) d n h refl refl refl;
  buf = released dirty b;
  at = get_elem?-set_self k.bufpool i b (released dirty b) h;
  idle = refl;
  written = λ e. absurd (ne e);
  kept = λ q. refl;
  others = λ j q. get_elem?-set_ne k.bufpool i j (released dirty b) q;
}

-- Back to the pool with a write at once.
now-Released :
    (k : Kernel) (i : ℕ) (b : Blkbuf)
    → get_elem? k.bufpool i ≡ some b
    → PoolCoherent k
    → IsSound k.disk (released 2 b)
    → b.bf_dev < ndevs
    → Released k i 2 b (record k {
      disk = put_block k.disk b.bf_dev b.bf_blk b.bf_data;
      bufpool = set k.bufpool i (cleaned (released 2 b));
    })
now-Released k i b h c s p =
    let r = released 2 b in
    let mid = later in
    record {
      tables = refl;
      coherent = rw set-set at (write_back-IsCoherent k.disk (set k.bufpool i r) i r at_r p mid);
      seen = λ d n. seen d n;
      buf = cleaned r;
      at = get_elem?-set_self k.bufpool i b (cleaned r) h;
      idle = refl;
      written = λ e. ground arith;
      kept = λ q. absurd (q refl);
      others = λ j q. get_elem?-set_ne k.bufpool i j (cleaned r) q;
    }
  where
    later : IsCoherent k.disk (set k.bufpool i (released 2 b))
    later = set_same-IsCoherent k.disk k.bufpool i b (released 2 b) h refl refl s c

    at_r : get_elem? (set k.bufpool i (released 2 b)) i ≡ some (released 2 b)
    at_r = get_elem?-set_self k.bufpool i b (released 2 b) h

    seen :
        (d n : ℕ)
        → lookup
            (put_block k.disk b.bf_dev b.bf_blk b.bf_data)
            (set k.bufpool i (cleaned (released 2 b)))
            d
            n
          ≡ view k d n
    seen d n =
        lookup-set_same (put_block k.disk b.bf_dev b.bf_blk b.bf_data) k.bufpool i b
          (cleaned (released 2 b)) d n h refl refl refl
        ∙ lookup-put_block k.disk k.bufpool i d n b h

-- A buffer of a coherent pool given back by `bfree` with dirty 0, 1 or 2, by a caller who has changed it
-- only if dirty is not 0: the buffer is idle, the pool stays coherent, every block looks as it did
-- with the caller's changes, and with 2 the device holds the buffer's contents, with 0 or 1 the devices
-- are as they were.
pub bfree-Released :
    (k : Kernel) (i dirty : ℕ) (b : Blkbuf)
    → get_elem? k.bufpool i ≡ some b
    → PoolCoherent k
    → NoFault k
    → dirty < 3
    → b.bf_dev < ndevs
    → (dirty ≡ 0 → b.bf_dirty ≡ 0 → b.bf_data ≡ k.disk b.bf_dev b.bf_blk)
    → Returns (bfree i dirty k) (λ r k'. Released k i dirty b k')
unfolding bfree
bfree-Released k i dirty b h c nf q p unchanged = elim (Bool-cases (dirty == 2)) [
  | inr lazy ↦ record {
    value = 0;
    state = put_buf i (released dirty b) k;
    result = rw (h, lazy);
    post = later-Released k i dirty b h c sound (ground arith);
  }
  | inl eager ↦
      let e : dirty ≡ 2 = ground arith in
      rw e (record {
        value = 65535;
        state = record k {
          disk = put_block k.disk b.bf_dev b.bf_blk b.bf_data;
          bufpool = set k.bufpool i (cleaned (released 2 b));
        };
        result = rw (
          h,
          bdwrite-ok (put_buf i (released 2 b) k) (released 2 b) p (nf b.bf_dev b.bf_blk),
          set-set,
        );
        post = now-Released k i b h c (rw e at sound) p;
      })
]
  where
    flag :
        (bit_or b.bf_dirty dirty < 4)
        × (bit_or b.bf_dirty dirty ≡ 0 → (b.bf_dirty ≡ 0) × (dirty ≡ 0))
    flag = bit_or_flag b.bf_dirty dirty (IsSound-get_elem? k.disk k.bufpool i b c h).flag q

    sound : IsSound k.disk (released dirty b)
    sound = record {
      agrees = λ z o r. unchanged (flag.1 z).1 (flag.1 z).0;
      owned = λ z. p;
      flag = flag.0;
    }

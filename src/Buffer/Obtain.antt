-- ===== src/Buffer/Obtain.antt =====
-- The contract of `bread` in uzi-nes-port/drivers/devio.c: the buffer it returns is named after the
-- block and holds its contents, and no other block looks different.
use uzi_build.Prelude.{
  ℕ, ◌<◌, ◌≡◌, refl, ◌≢◌, inl, inr, true, false, none, some, arith, sym, ◌∙◌, ◌==◌, ◌&&◌, add16,
  get_elem?, set, get_elem?-set_self, get_elem?-set_ne, Option-cases,
}
use uzi_build.Kernel.{Kernel, Blkbuf}
use uzi_build.Kernel.Returns
use uzi_build.Kernel.Returns.{Returns}
use uzi_build.Buffer.{ndevs, holds, bfind, fill, bread}
use uzi_build.Buffer.View.{view, lookup_unfound, lookup-set_same, set_same-IsCoherent}
use uzi_build.Buffer.WriteBack.{cleaned, lookup-rename, rename-IsCoherent}
use uzi_build.Buffer.Evict.{
  NoFault, PoolCoherent, SameTables, Evicted, IsSound-get_elem?, freebuf-Evicted,
}
use uzi_build.Buffer.Read.{bfind-found, lookup-bfind, grabbed, grab_lem, filled, fill_lem}

-- What `bread` needs: a coherent pool with an idle buffer, devices that answer, a block of a device of
-- `dev_tab`, and that nobody holds the block's buffer.
pub record Ready (k : Kernel) (dev blk : ℕ) : Type 0 where
  pub coherent : PoolCoherent k
  pub no_fault : NoFault k
  pub device : dev < ndevs
  pub spare : ℕ
  pub spare_buf : Blkbuf
  pub spare_at : get_elem? k.bufpool spare ≡ some spare_buf
  pub spare_idle : spare_buf.bf_busy ≡ 0
  pub released :
      (i : ℕ) (b : Blkbuf) → get_elem? k.bufpool i ≡ some b → holds dev blk b ≡ true → b.bf_busy ≡ 0

-- What else is in the state does not matter.
pub Ready-same :
    {k k' : Kernel}
    → k'.bufpool ≡ k.bufpool
    → k'.disk ≡ k.disk
    → k'.fault ≡ k.fault
    → (d n : ℕ) → Ready k d n
    → Ready k' d n
Ready-same e f g d n r = record {
  coherent = rw (e, f) (r.coherent);
  no_fault = rw g (r.no_fault);
  device = r.device;
  spare = r.spare;
  spare_buf = r.spare_buf;
  spare_at = rw e (r.spare_at);
  spare_idle = r.spare_idle;
  released = rw e (r.released);
}

-- What it achieves: buffer `i` is the caller's, bears the block's name, and for a plain read holds what
-- was seen of the block; every other block and every other buffer's owner sees no change.
pub record Obtained (k : Kernel) (dev blk rewrite i : ℕ) (k' : Kernel) : Type 0 where
  pub tables : SameTables k k'
  pub coherent : PoolCoherent k'
  pub buf : Blkbuf
  pub at : get_elem? k'.bufpool i ≡ some buf
  pub is_named : holds dev blk buf ≡ true
  pub busy : buf.bf_busy ≡ 1
  pub contents : rewrite ≡ 0 → buf.bf_data ≡ view k dev blk
  pub stored : rewrite ≡ 0 → buf.bf_dirty ≡ 0 → buf.bf_data ≡ k'.disk dev blk
  pub seen : view k' dev blk ≡ buf.bf_data
  pub seen_others :
      (d n : ℕ) → d < ndevs → (d == dev && n == blk) ≡ false → view k' d n ≡ view k d n
  pub was_idle : (b : Blkbuf) → get_elem? k.bufpool i ≡ some b → b.bf_busy ≡ 0
  pub others : (j : ℕ) → i ≢ j → get_elem? k'.bufpool j ≡ get_elem? k.bufpool j

-- The block is in a buffer already.
hit-Obtained :
    (k : Kernel) (dev blk rewrite i : ℕ) (b : Blkbuf)
    → PoolCoherent k
    → bfind dev blk k.bufpool ≡ some i
    → get_elem? k.bufpool i ≡ some b
    → holds dev blk b ≡ true
    → b.bf_busy ≡ 0
    → dev < ndevs
    → Obtained k dev blk rewrite i (record k {
      bufpool = set k.bufpool i (grabbed k.bufclock b);
      bufclock = add16 k.bufclock 1;
    })
hit-Obtained k dev blk rewrite i b c found h p idle small =
    let b' = grabbed k.bufclock b in
    let same = λ (d n : ℕ). lookup-set_same k.disk k.bufpool i b b' d n h refl refl refl in
    let s = IsSound-get_elem? k.disk k.bufpool i b c h in
    let is = lookup-bfind k.disk k.bufpool dev blk i b found h in
    record {
      tables = refl;
      coherent =
          set_same-IsCoherent k.disk k.bufpool i b b' h refl refl
            (record { agrees = λ q r. ground arith; owned = s.owned; flag = s.flag }) c;
      buf = b';
      at = get_elem?-set_self k.bufpool i b b' h;
      is_named = p;
      busy = refl;
      contents = λ q. sym is;
      stored = λ q z. ground (arith, s.agrees);
      seen = same dev blk ∙ is;
      seen_others = λ d n q r. same d n;
      was_idle = λ x e. ground arith;
      others = λ j ne. get_elem?-set_ne k.bufpool i j b' ne;
    }

-- The block was in no buffer: clean buffer `i` has been filled.
miss-Obtained :
    (k : Kernel) (dev blk rewrite i : ℕ) (b : Blkbuf)
    → PoolCoherent k
    → bfind dev blk k.bufpool ≡ none
    → get_elem? k.bufpool i ≡ some b
    → b.bf_dirty ≡ 0
    → b.bf_busy ≡ 0
    → dev < ndevs
    → Obtained k dev blk rewrite i (record k {
      bufpool = set k.bufpool i (filled k dev blk rewrite b);
      bufclock = add16 k.bufclock 1;
    })
miss-Obtained k dev blk rewrite i b c new h fresh idle p =
    let b' = filled k dev blk rewrite b in
    let see =
      λ (d n : ℕ) (q : d < ndevs). lookup-rename k.disk k.bufpool i d n b b' h fresh idle c new q in
    record {
      tables = refl;
      coherent =
          rename-IsCoherent k.disk k.bufpool i b b' h c new
            (record { agrees = λ q r. ground arith; owned = λ q. p; flag = omega arith });
      buf = b';
      at = get_elem?-set_self k.bufpool i b b' h;
      is_named = ground arith;
      busy = refl;
      contents = λ q. ground (arith, lookup_unfound k.disk k.bufpool dev blk new);
      stored = λ q z. ground arith;
      seen = ground (arith, see dev blk p);
      seen_others = λ d n q r. ground (arith, see d n q);
      was_idle = λ x e. ground arith;
      others = λ j ne. get_elem?-set_ne k.bufpool i j b' ne;
    }

-- What holds after `freebuf` and the read holds of the two together.
Evicted-Obtained :
    {k k₁ k' : Kernel} {dev blk rewrite i : ℕ} {b : Blkbuf}
    → dev < ndevs
    → get_elem? k.bufpool i ≡ some b
    → b.bf_busy ≡ 0
    → Evicted k i b k₁
    → Obtained k₁ dev blk rewrite i k'
    → Obtained k dev blk rewrite i k'
Evicted-Obtained {k} {k'} {dev} {blk} p h idle ev o = record {
  tables = rw (o.tables, ev.tables);
  coherent = o.coherent;
  buf = o.buf;
  at = o.at;
  is_named = o.is_named;
  busy = o.busy;
  contents = λ q. o.contents q ∙ ev.seen dev blk;
  stored = o.stored;
  seen = o.seen;
  seen_others = λ d n q r. o.seen_others d n q r ∙ ev.seen d n;
  was_idle = λ x e. ground arith;
  others = λ j ne. o.others j ne ∙ ev.others j ne;
}

-- When the pool is coherent and has an idle buffer, the devices answer and nobody holds the block,
-- `bread` comes back with a buffer: it is named after the block, marked busy, and after a plain read
-- holds what was seen of the block; all other blocks look as before, the other buffers are untouched
-- but for being written back, the pool stays coherent and the kernel's tables stay as they were.
pub bread-Obtained :
    (k : Kernel) (dev blk rewrite : ℕ)
    → Ready k dev blk
    → Returns
        (bread dev blk rewrite k)
        (λ r k'. (i : ℕ) × (r ≡ some i) × Obtained k dev blk rewrite i k')
unfolding bread
bread-Obtained k dev blk rewrite ready = elim (Option-cases (bfind dev blk k.bufpool)) [
  | inr (i, e) ↦
      let (b, h, p) = bfind-found k.bufpool dev blk i e in
      let idle = ready.released i b h p in
      let run = grab_lem k i b h in
      record {
        value = some i;
        state = _;
        result = rw (e, bread, h, idle, run);
        post = (i, refl, hit-Obtained k dev blk rewrite i b ready.coherent e h p idle ready.device);
      }
  | inl e ↦
      rw (e, bread)
        (Returns.bind (fill dev blk rewrite)
          (freebuf-Evicted k ready.spare ready.spare_buf ready.spare_at ready.spare_idle
            ready.coherent ready.no_fault)
          λ i k₁ (o, ev).
            let new : bfind dev blk k₁.bufpool ≡ none = ev.names dev blk ∙ e in
            record {
              value = some i;
              state = _;
              result =
                  fill_lem k₁ dev blk rewrite i (cleaned o.buf) ev.entry
                    (rw (ev.tables) (ready.no_fault dev blk)) ready.device;
              post = (
                i,
                refl,
                Evicted-Obtained ready.device o.found o.idle ev (
                    miss-Obtained k₁ dev blk rewrite i (cleaned o.buf) ev.coherent new ev.entry refl
                      o.idle ready.device),
              );
            })
]

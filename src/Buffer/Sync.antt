-- ===== src/Buffer/Sync.antt =====
-- `bufsync` of uzi-nes-port/drivers/devio.c: everything that the pool holds reaches the devices.
use uzi_build.Prelude.{
  ℕ, ◌<◌, ◌≡◌, refl, inl, inr, true, false, List, [], ◌∷◌, arith, ◌==◌, ◌&&◌, not, if◌then◌else◌,
  Bool-cases, minus_one,
}
use uzi_build.Kernel.{Kernel, Blkbuf, ok}
use uzi_build.Kernel.Returns.{Returns}
use uzi_build.Buffer.{ndevs, put_block, sync_bufs, bufsync}
use uzi_build.Buffer.View.{Disk, lookup, view, IsCoherent, lookup_unfound}
use uzi_build.Buffer.WriteBack.{put_block-IsCoherent, lookup-put_block_ne}
use uzi_build.Buffer.Evict.{NoFault, PoolCoherent, bdwrite-ok}

-- No caller holds a buffer.
abbrev pub AllIdle : List Blkbuf → Type 0
AllIdle [] = Unit {0}
AllIdle (b ∷ bs) = (b.bf_busy ≡ 0) × AllIdle bs

-- The devices after the loop over `bs`.
flushed : Disk → List Blkbuf → Disk
flushed disk [] = disk
flushed disk (b ∷ bs) =
    flushed (if b.bf_dirty == 0 then disk else put_block disk b.bf_dev b.bf_blk b.bf_data) bs

sync_bufs-flushed :
    (k : Kernel) (bs : List Blkbuf)
    → NoFault k
    → IsCoherent k.disk bs
    → sync_bufs bs k ≡ ok tt (record k { disk = flushed k.disk bs })
unfolding sync_bufs flushed
sync_bufs-flushed k [] nf c = refl
sync_bufs-flushed k (b ∷ bs) nf (s, apart, c) = elim (Bool-cases (b.bf_dirty == 0)) [
  | inl fresh ↦
      let skip : (not (b.bf_dev == minus_one) && false) ≡ false = ground arith in
      rw (fresh, skip) (sync_bufs-flushed k bs nf c)
  | inr dirty ↦
      let dev = s.owned (ground arith) in
      let go : not (b.bf_dev == minus_one) ≡ true = ground arith in
      let written = put_block-IsCoherent k.disk bs b.bf_dev b.bf_blk b.bf_data (apart dev) c in
      rw (dirty, go, bdwrite-ok k b dev (nf b.bf_dev b.bf_blk))
        (sync_bufs-flushed (record k { disk = put_block k.disk b.bf_dev b.bf_blk b.bf_data }) bs nf
          written)
]

flushed-eq-lookup :
    (disk : Disk) (bs : List Blkbuf) (d n : ℕ)
    → IsCoherent disk bs
    → AllIdle bs
    → d < ndevs
    → flushed disk bs d n ≡ lookup disk bs d n
unfolding flushed
flushed-eq-lookup disk [] d n c idle p = refl
flushed-eq-lookup disk (b ∷ bs) d n (s, apart, c) (q, idle) p =
    elim (Bool-cases (b.bf_dirty == 0)) [
      | inl fresh ↦ rw fresh (
          ground (
            arith,
            flushed-eq-lookup disk bs d n c idle p,
            lookup_unfound disk bs d n,
            apart,
            s.agrees,
          ))
      | inr dirty ↦
          let dev = s.owned (ground arith) in
          let alone = apart dev in
          let rest =
            flushed-eq-lookup (put_block disk b.bf_dev b.bf_blk b.bf_data) bs d n
              (put_block-IsCoherent disk bs b.bf_dev b.bf_blk b.bf_data alone c) idle p in
          rw dirty (
            ground (
              arith,
              rest,
              lookup_unfound (put_block disk b.bf_dev b.bf_blk b.bf_data) bs d n,
              alone,
              lookup-put_block_ne disk bs b.bf_dev b.bf_blk d n b.bf_data,
            ))
    ]

-- With devices that hold what was seen, the same is seen.
lookup-same :
    (bs : List Blkbuf) (disk e : Disk) (d n : ℕ)
    → e d n ≡ lookup disk bs d n
    → lookup e bs d n ≡ lookup disk bs d n
lookup-same [] disk e d n h = h
lookup-same (b ∷ bs) disk e d n h = ground (arith, lookup-same bs disk e d n)

-- When the pool is coherent, no buffer is in a caller's hands and the devices answer, `bufsync` leaves
-- on every device the contents that were seen of each block, changes no buffer and no table, and
-- every block still looks as it did.
pub bufsync-flushes :
    (k : Kernel)
    → PoolCoherent k
    → AllIdle k.bufpool
    → NoFault k
    → Returns (bufsync k) (λ _ k'.
      (k' ≡ record k { disk = k'.disk })
      × ((d n : ℕ) → d < ndevs → (k'.disk d n ≡ view k d n) × (view k' d n ≡ view k d n)))
unfolding bufsync
bufsync-flushes k c idle nf = record {
  value = tt;
  state = record k { disk = flushed k.disk k.bufpool };
  result = sync_bufs-flushed k k.bufpool nf c;
  post = (
    refl,
    λ d n p.
        let out = flushed-eq-lookup k.disk k.bufpool d n c idle p in
        (out, lookup-same k.bufpool k.disk (flushed k.disk k.bufpool) d n out),
  );
}

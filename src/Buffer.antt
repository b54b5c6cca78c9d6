-- ===== src/Buffer.antt =====
-- The block buffer pool of uzi-nes-port/drivers/devio.c: `bread`, `bfree` (with `brelse` and
-- `bawrite`), `zerobuf`, `bufsync`, `bfind`, `freebuf`, `bufinit`, `bdread` and `bdwrite`.
-- A buffer is its index in `bufpool`. The device routines that `bdread` and `bdwrite` reach through
-- `dev_tab` are the fields `disk` and `fault` of the state; a device past `dev_tab` is `wild`.
pub mod View
pub mod Lru
pub mod WriteBack
pub mod Evict
pub mod Read
pub mod Obtain
pub mod Release
pub mod Sync
pub mod Failure
pub mod Use
pub mod Zero
use uzi_build.Prelude.{
  ℕ, zero, suc, ◌+◌, ◌%◌, Bool, true, false, not, ◌&&◌, List, [], ◌∷◌, Option, none, some, add16,
  sub16, minus_one, leb, ◌==◌, if◌then◌else◌, get_elem?, set, replicate, map, bit_or,
}
use uzi_build.Kernel.{
  Kernel, Blkbuf, M, Run, ok, wild, pure, stop, gets, modify, entry, set_error, then_run, ◌>>=◌,
  ◌>>◌, want_busy_block, no_free_buffers,
}
use mathlib.Core.Option

abbrev pub ndevs : ℕ
ndevs = 5

abbrev pub eio : ℕ
eio = 5

abbrev pub block_size : ℕ
block_size = 512

-- Whether a buffer is named after the block.
abbrev pub holds : ℕ → ℕ → Blkbuf → Bool
holds dev blk b = b.bf_dev == dev && b.bf_blk == blk

unfoldable pub bfind : ℕ → ℕ → List Blkbuf → Option ℕ
bfind dev blk [] = none
bfind dev blk (b ∷ bs) = if holds dev blk b then some 0 else Option.map suc (bfind dev blk bs)

-- The loop of `freebuf` from buffer `i` on, with the values of `oldest` and `oldtime` so far.
unfoldable pub oldest_buf : ℕ → ℕ → Option ℕ → ℕ → List Blkbuf → Option ℕ
oldest_buf clock i oldest oldtime [] = oldest
oldest_buf clock i oldest oldtime (b ∷ bs) =
    let age = sub16 clock b.bf_time in
    let better = leb oldtime age && b.bf_busy == 0 in
    oldest_buf clock (i + 1) (if better then some i else oldest) (if better then age else oldtime)
      bs

abbrev pub buf_at : ℕ → M Blkbuf
buf_at i k = entry (get_elem? k.bufpool i) k

abbrev pub put_buf : ℕ → Blkbuf → Kernel → Kernel
put_buf i b k = record k { bufpool = set k.bufpool i b }

-- One block of a device replaced.
abbrev pub put_block : (ℕ → ℕ → List ℕ) → ℕ → ℕ → List ℕ → ℕ → ℕ → List ℕ
put_block disk dev blk bytes d n = if d == dev && n == blk then bytes else disk d n

-- `true` stands for the answer -1. The contents of the buffer after a failed read are left as they
-- were.
pub bdread : ℕ → M Bool
bdread i = do
  b ← buf_at i
  λ k.
      if leb ndevs b.bf_dev
      then wild
      else if k.fault b.bf_dev b.bf_blk
      then ok true k
      else ok false (put_buf i (record b { bf_data = k.disk b.bf_dev b.bf_blk }) k)

pub bdwrite : Blkbuf → M Bool
bdwrite b k =
    if leb ndevs b.bf_dev
    then wild
    else if k.fault b.bf_dev b.bf_blk
    then ok true k
    else ok false (record k { disk = put_block k.disk b.bf_dev b.bf_blk b.bf_data })

-- `if (oldest->bf_dirty) { … }` at the end of `freebuf`.
pub clean : ℕ → M ℕ
clean i = do
  b ← buf_at i
  if b.bf_dirty == 0 then pure i else do
    bad ← bdwrite b
    modify (λ k. if bad then set_error eio k else k)
    modify (put_buf i (record b { bf_dirty = 0 }))
    pure i

pub freebuf : M ℕ
freebuf k = elim (oldest_buf k.bufclock 0 none 0 k.bufpool) [
  | none ↦ stop no_free_buffers k
  | some i ↦ clean i k
]

-- The label `done` of `bread`: the buffer is busy and has a new time stamp.
pub grab : ℕ → M (Option ℕ)
grab i = do
  b ← buf_at i
  modify (λ k.
      let t = add16 k.bufclock 1 in
      put_buf i (record b { bf_busy = 1; bf_time = t }) (record k { bufclock = t }))
  pure (some i)

-- The read of a block that is in no buffer, into buffer `i`.
pub fill : ℕ → ℕ → ℕ → ℕ → M (Option ℕ)
fill dev blk rewrite i = do
  b ← buf_at i
  modify (put_buf i (record b { bf_dev = dev % 256; bf_blk = blk }))
  bad ← (if rewrite == 0 then bdread i else pure false)
  if bad then modify (set_error eio) >> pure none else do
    b' ← buf_at i
    modify (put_buf i (if rewrite == 2 then record b' { bf_data = replicate block_size 0 } else b'))
    grab i

-- The result is the buffer, or nothing for a null pointer.
pub bread : ℕ → ℕ → ℕ → M (Option ℕ)
bread dev blk rewrite k = elim (bfind dev blk k.bufpool) [
  | some i ↦ (do b ← buf_at i; if b.bf_busy == 0 then grab i else stop want_busy_block) k
  | none ↦ (do i ← freebuf; fill dev blk rewrite i) k
]

-- The number is the result, 0 or -1.
pub bfree : ℕ → ℕ → M ℕ
bfree i dirty = do
  b ← buf_at i
  let b' = record b { bf_dirty = bit_or b.bf_dirty dirty; bf_busy = 0 }
  modify (put_buf i b')
  if dirty == 2
      then (do
        bad ← bdwrite b'
        modify (λ k. if bad then set_error eio k else k)
        modify (put_buf i (record b' { bf_dirty = 0 }))
        pure minus_one)
      else pure 0

pub brelse : ℕ → M ℕ
brelse i = bfree i 0

pub bawrite : ℕ → M ℕ
bawrite i = bfree i 1

-- `bread`, a look at the block, `brelse`, as the callers in uzi-nes-port/fs/filesys.c write it. They
-- do not test for a null pointer.
pub read_block : ℕ → ℕ → M (List ℕ)
read_block dev blk = do r ← bread dev blk 0; i ← entry r; b ← buf_at i; brelse i; pure b.bf_data

-- `bread`, a change of the block, `bfree`.
pub rewrite_block : ℕ → ℕ → ℕ → ℕ → (List ℕ → List ℕ) → M (Unit {0})
rewrite_block dev blk rewrite dirty f = do
  r ← bread dev blk rewrite
  i ← entry r
  b ← buf_at i
  modify (put_buf i (record b { bf_data = f b.bf_data }))
  bfree i dirty
  pure tt

pub zerobuf : M ℕ
zerobuf = do
  i ← freebuf
  b ← buf_at i
  modify (put_buf i (record b { bf_dev = 255; bf_data = replicate block_size 0 }))
  pure i

-- `bdwrite` leaves the pool alone, so the loop runs over the buffers as they are.
sync_bufs : List Blkbuf → M (Unit {0})
sync_bufs [] = pure tt
sync_bufs (b ∷ bs) =
    (if not (b.bf_dev == minus_one) && not (b.bf_dirty == 0)
      then bdwrite b >>= (λ _. pure tt)
      else pure tt)
    >> sync_bufs bs

pub bufsync : M (Unit {0})
bufsync k = sync_bufs k.bufpool k

pub bufinit : Kernel → Kernel
bufinit k = record k { bufpool = map (λ (b : Blkbuf). record b { bf_dev = 255 }) k.bufpool }

-- ===== src/Transfer/Reading.antt =====
-- What `readi` of uzi-nes-port/kernel/scall1.c delivers from a file or a directory.
use uzi_build.Prelude.{
  ℕ, suc, ◌+◌, ◌-◌, ◌≡◌, ◌<◌, ◌≤◌, refl, some, true, false, arith, ◌==◌, ◌||◌, get_elem?, min,
}
use uzi_build.Kernel.{Kernel, Cinode, Off}
use uzi_build.Kernel.Returns
use uzi_build.Kernel.Returns.{Returns}
use uzi_build.Buffer.Obtain.{Ready, Ready-same}
use uzi_build.Buffer.View.{view}
use uzi_build.Buffer.{ndevs}
use uzi_build.FreeList.Super.{Quiet}
use uzi_build.Inode.Table.{f_reg, f_dir, f_bdev, getmode}
use uzi_build.Files.Offset.{min_int}
use uzi_build.Files.Offset.Position.{position}
use uzi_build.Process.Waiting.{Others}
use uzi_build.Devices.{Drivers}
use uzi_build.Transfer.{put_count, file_limit, transfer_out, readi}
use uzi_build.Transfer.Borrow.{contents}
use uzi_build.Transfer.Slices.{slice, file_byte}
use uzi_build.Transfer.Rounds.{IsWhole, Advanced, copy_out_lem}

-- Up to the end of a file, a read of at most 32257 bytes is limited to what is left.
pub file_limit_within :
    (size off : Off) (count : ℕ)
    → size.o_blkno < 65536
    → size.o_offset < 512
    → off.o_offset < 512
    → count ≤ 32257
    → position off ≤ position size
    → file_limit size off count ≡ min count (position size - position off)
unfolding file_limit min_int
file_limit_within size off count fits whole within small before = ground arith

-- `Advanced`, with `u_count` set besides.
pub record Read (k : Kernel) (n : ℕ) (k' : Kernel) : Type 0 where
  pub tables : k' ≡ record k {
    bufpool = k'.bufpool;
    bufclock = k'.bufclock;
    disk = k'.disk;
    udata = record (k.udata) {
      u_base = k'.udata.u_base;
      u_offset = k'.udata.u_offset;
      u_count = n;
    };
  }
  pub moved : position k'.udata.u_offset ≡ position k.udata.u_offset + n
  pub within : k'.udata.u_offset.o_offset < 512
  pub seen : (d m : ℕ) → d < ndevs → view k' d m ≡ view k d m
  pub ready : (d m : ℕ) → Ready k d m → Ready k' d m

Ready-put_count : (k : Kernel) (n d m : ℕ) → Ready k d m → Ready (put_count n k) d m
Ready-put_count k n d m r = Ready-same refl refl refl d m r

counted : (k k' : Kernel) (n : ℕ) → Advanced (put_count n k) n k' → Read k n k'
counted k k' n a = record {
  tables = rw (a.tables) refl;
  moved = a.moved;
  within = a.within;
  seen = a.seen;
  ready = λ d m r. a.ready d m (Ready-put_count k n d m r);
}

transfer_out_lem :
    (k : Kernel) (i n : ℕ) (c : Cinode)
    → get_elem? k.i_tab i ≡ some c
    → (getmode c == f_bdev) ≡ false
    → Quiet k c.c_dev
    → IsWhole k c.c_dev
    → k.udata.u_offset.o_offset < 512
    → n < 32768
    → position k.udata.u_offset + n < 33554432
    → Returns (transfer_out false c.c_dev i n k) (λ bytes k'.
      (bytes ≡ slice (file_byte (contents k c)) (position k.udata.u_offset) n) × Read k n k')
unfolding transfer_out
transfer_out_lem k i n c h kind quiet whole within small fits =
    Returns.weaken
      (copy_out_lem (suc n) (put_count n k) i n c h kind
        (λ m. Ready-put_count k n c.c_dev m (quiet m)) whole within small fits (omega arith))
      λ bytes k' (is, a). (is, counted k k' n a)

-- For a regular file or a directory of the inode table whose device can be read, with its offsets within their
-- blocks and the position not past the end, a read of at most 32257 bytes comes back with the bytes of the file
-- from the position on, up to the number asked for or the end of the file; a block that the file does not have
-- reads as zeroes. `u_count` is the number of bytes, the position has moved on by it, no block looks different,
-- and of the tables only `u_base`, `u_offset` and `u_count` have changed.
pub readi-file :
    (dev_tab : Drivers) (others : Others) (k : Kernel) (i : ℕ) (c : Cinode)
    → get_elem? k.i_tab i ≡ some c
    → (getmode c == f_dir || getmode c == f_reg) ≡ true
    → Quiet k c.c_dev
    → IsWhole k c.c_dev
    → c.c_node.i_size.o_blkno < 65536
    → c.c_node.i_size.o_offset < 512
    → k.udata.u_offset.o_offset < 512
    → k.udata.u_count ≤ 32257
    → position k.udata.u_offset ≤ position c.c_node.i_size
    → Returns (readi dev_tab others i k) (λ bytes k'.
      (bytes
        ≡ slice
            (file_byte (contents k c))
            (position k.udata.u_offset)
            (min k.udata.u_count (position c.c_node.i_size - position k.udata.u_offset)))
      × Read k (min k.udata.u_count (position c.c_node.i_size - position k.udata.u_offset)) k')
unfolding readi
readi-file dev_tab others k i c h kind quiet whole fits short within small before =
    let size = c.c_node.i_size in
    let off = k.udata.u_offset in
    let n = min k.udata.u_count (position size - position off) in
    let limit : file_limit size off k.udata.u_count ≡ n =
      file_limit_within size off k.udata.u_count fits short within small before in
    let other : (getmode c == f_bdev) ≡ false = ground arith in
    rw (h, kind, limit)
      (transfer_out_lem k i n c h other quiet whole within (omega arith) (omega arith))

-- From a block after the one in which the file ends, with at most 65472 blocks between, a read is not
-- limited: it comes back with as many bytes as are asked for, of blocks that the file does not have or
-- of what lies in them.
pub readi-past_end :
    (dev_tab : Drivers) (others : Others) (k : Kernel) (i : ℕ) (c : Cinode)
    → get_elem? k.i_tab i ≡ some c
    → (getmode c == f_dir || getmode c == f_reg) ≡ true
    → Quiet k c.c_dev
    → IsWhole k c.c_dev
    → c.c_node.i_size.o_blkno < k.udata.u_offset.o_blkno
    → k.udata.u_offset.o_blkno ≤ c.c_node.i_size.o_blkno + 65472
    → k.udata.u_offset.o_blkno < 65472
    → k.udata.u_offset.o_offset < 512
    → k.udata.u_count < 32768
    → Returns (readi dev_tab others i k) (λ bytes k'.
      (bytes ≡ slice (file_byte (contents k c)) (position k.udata.u_offset) k.udata.u_count)
      × (k'.udata.u_count ≡ k.udata.u_count))
unfolding readi file_limit
readi-past_end dev_tab others k i c h kind quiet whole past near far within small =
    let size = c.c_node.i_size in
    let off = k.udata.u_offset in
    let limit : file_limit size off k.udata.u_count ≡ k.udata.u_count = ground arith in
    let other : (getmode c == f_bdev) ≡ false = ground arith in
    rw (h, kind, limit)
      (Returns.weaken
        (transfer_out_lem k i k.udata.u_count c h other quiet whole within small (omega arith))
        λ bytes k' (is, same). (is, rw (same.tables) refl))

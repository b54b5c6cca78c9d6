-- ===== src/FreeList/Reuse.antt =====
-- A block freed and allocated again in uzi-nes-port/fs/filesys.c.
use uzi_build.Prelude.{ℕ, ◌<◌, ◌≤◌, ◌≡◌, ◌≢◌, List, length}
use uzi_build.Kernel.{Kernel, ◌>>◌}
use uzi_build.Kernel.Returns
use uzi_build.Kernel.Returns.{Returns}
use uzi_build.FreeList.{blk_alloc, blk_free}
use uzi_build.FreeList.Chain.{AllApart}
use uzi_build.FreeList.Super.{Quiet, HasFree}
use uzi_build.FreeList.Alloc.{blk_alloc-takes}
use uzi_build.FreeList.Free.{blk_free-gives}

-- On a mounted device with free blocks `bs`, fewer than 65535, of which every block can be read, freeing a data
-- block that is not among them and then allocating a block gives the same block, and the free blocks are
-- `bs` again, also where the superblock's list was full and moved into the block in between.
pub blk_free-blk_alloc :
    (k : Kernel) (dev b : ℕ) (bs : List ℕ) (free : HasFree k dev bs)
    → Quiet k dev
    → b ≢ 0
    → free.fs.s_isize ≤ b
    → b < free.fs.s_fsize
    → AllApart b bs
    → length bs < 65535
    → Returns
        ((blk_free dev b >> blk_alloc dev) k)
        (λ r k'. (r ≡ b) × HasFree k' dev bs × Quiet k' dev)
blk_free-blk_alloc k dev b bs free quiet ne lo hi apart fewer =
    Returns.bind _ (blk_free-gives k dev b bs free quiet ne lo hi apart fewer) λ v k₁ f.
      Returns.weaken (blk_alloc-takes k₁ dev b bs f.free f.quiet)
        λ r k' (e, rest, z, q, m). (e, rest, q)

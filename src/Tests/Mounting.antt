-- ===== src/Tests/Mounting.antt =====
-- The image of uzi-nes-utils/fs/mkfs.c mounted by `fmount` of uzi-nes-port/fs/filesys.c.
use uzi_build.Prelude.{
  ℕ, zero, suc, ◌≡◌, refl, sym, [], ◌∷◌, none, some, arith, get_elem?, minus_one,
}
use uzi_build.Kernel.{Kernel, Blkbuf, pure}
use uzi_build.Kernel.Returns.{Returns}
use uzi_build.Buffer.{bfind}
use uzi_build.Buffer.Evict.{PoolCoherent}
use uzi_build.FreeList.Super.{Quiet, HasFree}
use uzi_build.Devices.{Drivers}
use uzi_build.Calls.Mounts.{fmount}
use uzi_build.Mkfs.{mkfs}
use uzi_build.Mkfs.Chain.{range}
use uzi_build.Mkfs.Volume.{fmount-mkfs}
use uzi_build.Tests.Sample.{buffer, super_block, good}

abbrev answering : Drivers
answering = record {
  dev_open = λ d. pure 0;
  dev_close = λ d. pure 0;
  dev_read = λ d. pure 0;
  dev_write = λ d. pure 0;
  dev_ioctl = λ d r a. pure 0;
}

abbrev unused : Blkbuf
unused = record (buffer 0 0) { bf_dev = minus_one }

-- At the start no buffer is in use, and device 0 holds the image of a disk of 200 blocks.
abbrev start : Kernel
start = record good { bufpool = unused ∷ unused ∷ []; disk = λ d. (mkfs [] 200 6).blocks }

coherent : PoolCoherent start
unfolding bfind
coherent = (
  record { agrees = λ p q r. absurd (omega arith); owned = λ p. omega arith; flag = omega arith },
  λ p. absurd (omega arith),
  (
    record { agrees = λ p q r. absurd (omega arith); owned = λ p. omega arith; flag = omega arith },
    λ p. refl,
    tt,
  ),
)

idle : (i : ℕ) (b : Blkbuf) → get_elem? (start.bufpool) i ≡ some b → b.bf_busy ≡ 0
idle zero b h = let e : unused ≡ b = cc in rw (sym e) refl
idle (suc zero) b h = let e : unused ≡ b = cc in rw (sym e) refl
idle (suc (suc i)) b h = cc

start-Quiet : Quiet start 0
start-Quiet n = record {
  coherent = coherent;
  no_fault = λ d m. refl;
  device = omega arith;
  spare = 0;
  spare_buf = unused;
  spare_at = refl;
  spare_idle = refl;
  released = λ i b h p. idle i b h;
}

fmount-mkfs_example : Returns (fmount answering 0 none start) (λ r k'.
    (r ≡ 0)
    × (get_elem? k'.fs_tab 0 ≡ some (record ((mkfs [] 200 6).super) { s_mntpt = none }))
    × HasFree k' 0 (range 7 193)
    × Quiet k' 0)
fmount-mkfs_example =
    fmount-mkfs answering start 0 none super_block [] 200 6 (omega arith) (omega arith)
      (omega arith) refl refl start-Quiet tt refl

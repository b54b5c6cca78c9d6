-- ===== src/Tests/Transfers.antt =====
-- Reads, writes and searches of uzi-nes-port/kernel/scall1.c and fs/filesys.c on a small disk.
use uzi_build.Prelude.{ℕ, zero, suc, List, ◌≡◌, refl, [], ◌∷◌, some, arith, replicate}
use uzi_build.Kernel.{Kernel, Cinode, pure}
use uzi_build.Kernel.Returns.{Returns, WhenBack}
use uzi_build.Buffer.Obtain.{Ready-same}
use uzi_build.Buffer.Use.{Undisturbed}
use uzi_build.Inode.Table.{super, getmode, getperm}
use uzi_build.Inode.Blocks.Reading.{mapped}
use uzi_build.Inode.Open.{i_open}
use uzi_build.Files.Offset.{psize}
use uzi_build.Files.Table.Valid.{IsOpen}
use uzi_build.Path.{namecomp, compare_names, srch_dir}
use uzi_build.Path.Blocks.{HasNoGap}
use uzi_build.Path.Search.{srch_dir-finds}
use uzi_build.Devices.{Drivers}
use uzi_build.Transfer.{readi, writei, put_offset, put_count}
use uzi_build.Transfer.Borrow.{contents}
use uzi_build.Transfer.Slices.{slice, file_byte}
use uzi_build.Transfer.Reading.{Read, readi-file, readi-past_end}
use uzi_build.Transfer.WriteFile.{Wrote, writei-file}
use uzi_build.Transfer.RoundTrip.{writei-readi}
use uzi_build.Transfer.Pipe.{IsStuck, writei_stuck}
use uzi_build.Entry.{ch_link}
use uzi_build.Entry.Linking.{Linked, entry, ch_link_lem}
use uzi_build.Calls.Data.{read}
use uzi_build.Calls.Data.Reading.{Delivered, read_lem}
use uzi_build.Tests.Disk.{
  dir, file, opened, cinode, dinode, disk_kernel, disk_kernel-Quiet, disk_kernel-IsWhole,
  file-HasBlocks, dir-HasBlocks,
}

abbrev no_drivers : Drivers
no_drivers = record {
  dev_open = λ d. pure 0;
  dev_close = λ d. pure 0;
  dev_read = λ d. pure 0;
  dev_write = λ d. pure 0;
  dev_ioctl = λ d r a. pure 0;
}

readi-file_example : Returns (readi no_drivers [] 1 disk_kernel) (λ bytes k'.
    (bytes ≡ slice (file_byte (contents disk_kernel file)) 1 2) × Read disk_kernel 2 k')
unfolding getmode
readi-file_example =
    readi-file no_drivers [] disk_kernel 1 file refl refl disk_kernel-Quiet disk_kernel-IsWhole
      (omega arith) (omega arith) (omega arith) (omega arith) (omega arith)

abbrev past : Kernel
past = put_offset (record { o_blkno = 4; o_offset = 0 }) disk_kernel

readi-past_end_example :
    Returns
      (readi no_drivers [] 1 past)
      (λ bytes k'. (bytes ≡ slice (file_byte (contents past file)) 2048 2) × (k'.udata.u_count ≡ 2))
unfolding getmode
readi-past_end_example =
    readi-past_end no_drivers [] past 1 file refl refl
      (λ n. Ready-same refl refl refl 0 n (disk_kernel-Quiet n)) disk_kernel-IsWhole (omega arith)
      (omega arith) (omega arith) (omega arith) (omega arith)

writei-file_example :
    Returns
      (writei no_drivers [] 1 (7 ∷ 8 ∷ []) disk_kernel)
      (λ r k'. Wrote disk_kernel 1 file 1 2 (7 ∷ 8 ∷ []) k')
unfolding getmode
writei-file_example =
    writei-file no_drivers [] disk_kernel 1 1 file (7 ∷ 8 ∷ []) refl refl disk_kernel-Quiet
      disk_kernel-IsWhole file-HasBlocks (omega arith) (omega arith) (omega arith) (omega arith)
      refl

writei-readi_example : Returns (writei no_drivers [] 1 (7 ∷ 8 ∷ []) disk_kernel) (λ r k'.
    Returns
      (readi no_drivers [] 1 (put_offset (record { o_blkno = 0; o_offset = 1 }) (put_count 2 k')))
      (λ bytes k''. bytes ≡ 7 ∷ 8 ∷ []))
unfolding getmode
writei-readi_example =
    writei-readi no_drivers [] disk_kernel 1 1 file (7 ∷ 8 ∷ []) refl refl disk_kernel-Quiet
      disk_kernel-IsWhole file-HasBlocks (omega arith) (omega arith) (omega arith) (omega arith)
      refl

IsOpen-file : IsOpen disk_kernel 0 0 1 opened file
IsOpen-file = record {
  descriptor = omega arith;
  file = refl;
  entry = omega arith;
  open_file = refl;
  to_inode = refl;
  slot = omega arith;
  inode = refl;
  sound = refl;
}

read_lem_example :
    Returns
      (read no_drivers [] 0 30000 200 disk_kernel)
      (λ r k'. Delivered disk_kernel 0 30000 99 opened file r k')
unfolding getmode
read_lem_example =
    read_lem no_drivers [] disk_kernel 0 0 1 30000 200 opened file IsOpen-file refl refl
      disk_kernel-Quiet disk_kernel-IsWhole (omega arith) (omega arith) (omega arith) (omega arith)
      (omega arith) (omega arith)

whole_dir : HasNoGap disk_kernel dir 1
unfolding mapped
whole_dir zero p = (12, refl)
whole_dir (suc n) p = absurd (omega arith)

srch_dir-finds_example :
    (k' : Kernel) × Undisturbed disk_kernel k' × (srch_dir 0 (97 ∷ []) disk_kernel ≡ i_open 0 3 k')
unfolding getmode namecomp compare_names mapped
srch_dir-finds_example =
    srch_dir-finds disk_kernel 0 0 dir (97 ∷ []) refl refl disk_kernel-Quiet whole_dir (omega arith)
      refl (λ i p. absurd (omega arith))

-- A pipe with a reader, and a process that wants to write 9000 bytes to it.
abbrev pipe_inode : Cinode
pipe_inode = record (cinode 5 (dinode 0x11ff 0 0 0)) { c_refs = 2 }

abbrev writer : Kernel
writer = put_count 9000 (record disk_kernel { i_tab = pipe_inode ∷ [] })

writer-IsStuck : IsStuck 0 writer
unfolding getmode psize
writer-IsStuck = record {
  pipe = pipe_inode;
  at = refl;
  kind = refl;
  readers = λ e. absurd (omega arith);
  size = omega arith;
  more = omega arith;
}

writei_stuck_example : WhenBack (writei no_drivers [] 0 [] writer) (λ r k'. ⊥)
writei_stuck_example = writei_stuck no_drivers [] 0 writer [] tt writer-IsStuck

-- The file `a` is renamed to `b` in its directory; behind the end of the name other bytes stand.
abbrev name_b : List ℕ
name_b = 98 ∷ 0 ∷ replicate 12 7

ch_link_lem_example :
    Returns
      (ch_link no_drivers [] 60000 (replicate 16 0) 0 (97 ∷ []) name_b (some 1) disk_kernel)
      (λ r k'. (r ≡ 1) × Linked disk_kernel 0 dir 1 0 (entry 3 name_b) k')
unfolding super getmode getperm namecomp compare_names mapped
ch_link_lem_example =
    ch_link_lem no_drivers [] 60000 (replicate 16 0) disk_kernel 0 1 0 3 dir (97 ∷ []) name_b
      (some 1)
      (record {
        at = refl;
        kind = refl;
        quiet = disk_kernel-Quiet;
        whole = disk_kernel-IsWhole;
        blkno = refl;
        offset = refl;
        small = omega arith;
      })
      dir-HasBlocks refl refl (file, refl, refl) refl (omega arith) (omega arith) refl
      (λ i p. absurd (omega arith))

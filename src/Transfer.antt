-- ===== src/Transfer.antt =====
-- `readi` and `writei` of uzi-nes-port/kernel/scall1.c. The bytes that go to or come from `u_base` are a
-- list: the result of `readi`, and an argument of `writei`.
pub mod Borrow
pub mod Slices
pub mod Rounds
pub mod Reading
pub mod Pipe
pub mod Patch
pub mod Writing
pub mod WriteLoop
pub mod WriteFile
pub mod RoundTrip
use uzi_build.Prelude.{
  ℕ, zero, suc, ◌+◌, ◌-◌, ◌*◌, ◌%◌, Bool, true, false, not, ◌&&◌, ◌||◌, List, [], ◌∷◌, ◌++◌, Option,
  none, some, ◌==◌, ltb, leb, if◌then◌else◌, take, drop, length, add16, sub16, minus_one, signed_lt,
}
use uzi_build.Kernel.{
  Kernel, Off, Cinode, M, pure, wild, gets, modify, entry, set_error, ◌>>=◌, ◌>>◌,
}
use uzi_build.Buffer.{block_size, bread, brelse, rewrite_block, zerobuf, buf_at}
use uzi_build.Inode.Table.{
  f_reg, f_dir, f_pipe, f_bdev, f_cdev, inode_at, put_inode, getmode, devnum,
}
use uzi_build.Inode.Blocks.{nullblk, bmap, inode_address}
use uzi_build.Files.Offset.{min_int, psize, addoff}
use uzi_build.Files.Calls.{put_udata}
use uzi_build.Process.{wakeup}
use uzi_build.Process.Waiting.{Others, sleep_loop}
use uzi_build.Signals.{ssig, update_at}
use uzi_build.Devices.{Drivers, cdread, cdwrite}

abbrev pub enodev : ℕ
enodev = 19

abbrev pub epipe : ℕ
epipe = 32

abbrev pub sigpipe : ℕ
sigpipe = 13

-- The blocks after which a pipe goes round.
abbrev pub pipe_blocks : ℕ
pipe_blocks = 18

abbrev pub put_count : ℕ → Kernel → Kernel
put_count n k = put_udata (record (k.udata) { u_count = n }) k

abbrev pub put_offset : Off → Kernel → Kernel
put_offset o k = put_udata (record (k.udata) { u_offset = o }) k

abbrev wrapped : Bool → Off → Off
wrapped ispipe o = if ispipe && leb pipe_blocks o.o_blkno then record o { o_blkno = 0 } else o

-- `udata.u_base += amount`, and the offset moved, round the end of a pipe.
pub move_on : Bool → ℕ → Kernel → Kernel
move_on ispipe amount k =
    put_udata
      (record (k.udata) {
        u_base = add16 k.udata.u_base amount;
        u_offset = wrapped ispipe (addoff k.udata.u_offset amount);
      })
      k

-- `addoff(&(ino->c_node.i_size), amount); wakeup(ino);`
pub resize_pipe : ℕ → ℕ → M (Unit {0})
resize_pipe i amount = do
  c ← inode_at i
  let size = addoff c.c_node.i_size amount
  modify (put_inode i (record c { c_node = record (c.c_node) { i_size = size } }))
  modify (λ k. record k { ptab = wakeup (inode_address k i) k.ptab })

-- How much of `count` a file of this size gives from the offset on.
pub file_limit : Off → Off → ℕ → ℕ
file_limit size off count =
    let blocks = sub16 size.o_blkno off.o_blkno in
    if leb 64 blocks
    then count
    else min_int count (add16 (512 * blocks) (sub16 size.o_offset off.o_offset))

-- The buffer from which a block of the file is read: its own, or one of zeroes.
pub block_buf : ℕ → ℕ → M ℕ
block_buf dev pblk = if pblk == nullblk then zerobuf else bread dev pblk 0 >>= (λ r. entry r)

-- The loop of `readi`; every round but one that starts at the end of a block takes something off `toread`,
-- so one round more than `toread` is enough. A copy past the end of a buffer is an access outside it.
pub copy_out : ℕ → Bool → ℕ → ℕ → ℕ → M (List ℕ)
copy_out zero ispipe dev i toread = λ _. wild
copy_out (suc rounds) ispipe dev i toread = if toread == 0 then pure [] else do
  off ← gets (λ k. k.udata.u_offset)
  pblk ← bmap i off.o_blkno 1
  r ← block_buf dev pblk
  b ← buf_at r
  let amount = min_int toread (sub16 block_size off.o_offset)
  if ltb block_size (off.o_offset + amount) then (λ _. wild) else do
    brelse r
    modify (move_on ispipe amount)
    if ispipe then resize_pipe i (sub16 0 amount) else pure tt
    rest ← copy_out rounds ispipe dev i (sub16 toread amount)
    pure (take amount (drop off.o_offset b.bf_data) ++ rest)

pub transfer_out : Bool → ℕ → ℕ → ℕ → M (List ℕ)
transfer_out ispipe dev i toread = do
  modify (put_count toread)
  copy_out (suc toread) ispipe dev i toread

-- The test of the loop before a pipe is read: there is something in it, or nobody to write to it.
pub pipe_readable : ℕ → M (Option (Unit {0}))
pipe_readable i = do
  c ← inode_at i
  pure (if not (psize c.c_node.i_size == 0) || c.c_refs == 1 then some tt else none)

-- The character device's routine has stored what it read.
pub read_device : Drivers → Cinode → M (List ℕ)
read_device dev_tab c = do
  n ← cdread dev_tab (devnum c)
  modify (put_count n)
  modify (λ k. if n == minus_one then k else put_offset (addoff k.udata.u_offset n) k)
  pure []

pub readi : Drivers → Others → ℕ → M (List ℕ)
readi dev_tab others i = do
  c ← inode_at i
  u ← gets (λ k. k.udata)
  event ← gets (λ k. inode_address k i)
  let mode = getmode c
  if mode == f_dir || mode == f_reg
      then transfer_out false c.c_dev i (file_limit c.c_node.i_size u.u_offset u.u_count)
      else if mode == f_pipe
      then (do
        sleep_loop (pipe_readable i) event others
        c' ← inode_at i
        n ← gets (λ k. k.udata.u_count)
        transfer_out true c.c_dev i (min_int n (psize c'.c_node.i_size)))
      else if mode == f_bdev
      then transfer_out false (devnum c) i u.u_count
      else if mode == f_cdev
      then read_device dev_tab c
      else modify (set_error enodev) >> pure []

-- The bytes of a block with some replaced.
unfoldable pub patch : List ℕ → ℕ → List ℕ → List ℕ
patch old at new = take at old ++ (new ++ drop (at + length new) old)

-- A block is an array of 512 bytes.
pub patch_block : List ℕ → ℕ → List ℕ → List ℕ
patch_block old at new = take block_size (patch old at new)

-- The loop of `writei`, with what is left of the bytes at `u_base`.
pub copy_in : ℕ → Bool → ℕ → ℕ → ℕ → List ℕ → M (Unit {0})
copy_in zero ispipe dev i towrite src = λ _. wild
copy_in (suc rounds) ispipe dev i towrite src = if towrite == 0 then pure tt else do
  off ← gets (λ k. k.udata.u_offset)
  let amount = min_int towrite (sub16 block_size off.o_offset)
  pblk ← bmap i off.o_blkno 0
  if pblk == nullblk
      then pure tt
      else if ltb block_size (off.o_offset + amount)
      then (λ _. wild)
      else do
        rewrite_block dev pblk (if amount == block_size then 1 else 0) 1
            (λ old. patch_block old off.o_offset (take amount src))
        modify (move_on ispipe amount)
        if ispipe then resize_pipe i amount else pure tt
        copy_in rounds ispipe dev i (sub16 towrite amount) (drop amount src)

-- Whether the file has grown.
pub is_past : Off → Off → Bool
is_past off size =
    ltb size.o_blkno off.o_blkno
    || (off.o_blkno == size.o_blkno && signed_lt size.o_offset off.o_offset)

pub update_size : ℕ → M (Unit {0})
update_size i = do
  c ← inode_at i
  off ← gets (λ k. k.udata.u_offset)
  modify (λ k.
      if is_past off c.c_node.i_size
      then put_inode i (record c { c_dirty = 1; c_node = record (c.c_node) { i_size = off } }) k
      else k)

-- The test of the loop before a pipe is written: `some true` where the bytes fit, and `some false` where nobody
-- is left to read them.
pub pipe_writable : ℕ → M (Option Bool)
pipe_writable i = do
  c ← inode_at i
  n ← gets (λ k. k.udata.u_count)
  pure (
      if not (ltb (sub16 8192 (psize c.c_node.i_size)) n)
      then some true
      else if c.c_refs == 1
      then some false
      else none)

pub broken_pipe : M (Unit {0})
broken_pipe = do
  modify (put_count minus_one)
  modify (set_error epipe)
  modify (λ k. record k { ptab = update_at k.ptab k.udata.u_ptab (λ p. ssig p sigpipe) })

pub write_device : Drivers → Cinode → M (Unit {0})
write_device dev_tab c = do
  n ← cdwrite dev_tab (devnum c)
  modify (put_count n)
  modify (λ k. if n == minus_one then k else put_offset (addoff k.udata.u_offset n) k)

pub write_file : ℕ → ℕ → ℕ → List ℕ → M (Unit {0})
write_file dev i n src = copy_in (suc n) false dev i n src >> update_size i

pub writei : Drivers → Others → ℕ → List ℕ → M (Unit {0})
writei dev_tab others i src = do
  c ← inode_at i
  n ← gets (λ k. k.udata.u_count)
  event ← gets (λ k. inode_address k i)
  let mode = getmode c
  if mode == f_bdev
      then write_file (devnum c) i n src
      else if mode == f_dir || mode == f_reg
      then write_file c.c_dev i n src
      else if mode == f_pipe
      then (do
        fits ← sleep_loop (pipe_writable i) event others
        towrite ← gets (λ k. k.udata.u_count)
        if fits then copy_in (suc towrite) true c.c_dev i towrite src else broken_pipe)
      else if mode == f_cdev
      then write_device dev_tab c
      else modify (set_error enodev)

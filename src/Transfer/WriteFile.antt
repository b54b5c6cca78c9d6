-- ===== src/Transfer/WriteFile.antt =====
-- `writei` of uzi-nes-port/kernel/scall1.c on a file that has its blocks.
use uzi_build.Prelude.{
  ℕ, suc, ◌+◌, ◌*◌, ◌≡◌, ◌≤◌, ◌<◌, refl, ◌∙◌, inl, inr, true, false, List, some, arith, ◌==◌, ◌&&◌,
  ◌||◌, if◌then◌else◌, length, get_elem?, get_or, max, Bool-cases, get_elem?-set_self,
}
use uzi_build.Kernel.{Kernel, Cinode, Off}
use uzi_build.Kernel.Returns
use uzi_build.Kernel.Returns.{Returns}
use uzi_build.Buffer.{ndevs}
use uzi_build.Buffer.View.{view}
use uzi_build.Buffer.Obtain.{Ready, Ready-same}
use uzi_build.FreeList.Super.{Quiet}
use uzi_build.Inode.Table.{f_reg, f_dir, f_bdev, getmode, put_inode}
use uzi_build.Files.Offset.Position.{position}
use uzi_build.Process.Waiting.{Others}
use uzi_build.Devices.{Drivers}
use uzi_build.Transfer.{is_past, update_size, write_file, writei}
use uzi_build.Transfer.Borrow.{contents}
use uzi_build.Transfer.Slices.{file_byte}
use uzi_build.Transfer.Patch.{overlay}
use uzi_build.Transfer.Rounds.{IsWhole}
use uzi_build.Transfer.Writing.{HasBlocks}
use uzi_build.Transfer.WriteLoop.{Written, copy_in_lem}

-- The inode after a write that ended at the offset.
abbrev pub grown : Off → Cinode → Cinode
grown off c =
    if is_past off c.c_node.i_size
    then record c { c_dirty = 1; c_node = record (c.c_node) { i_size = off } }
    else c

grown-fields :
    (off : Off) (c : Cinode)
    → ((grown off c).c_dev ≡ c.c_dev)
      × ((grown off c).c_node.i_addr ≡ c.c_node.i_addr)
      × ((grown off c).c_node.i_mode ≡ c.c_node.i_mode)
grown-fields off c = elim (Bool-cases (is_past off c.c_node.i_size)) [
  | inl e ↦ rw e (refl, refl, refl)
  | inr e ↦ rw e (refl, refl, refl)
]

grown-size :
    (off : Off) (c : Cinode)
    → off.o_offset < 512
    → c.c_node.i_size.o_offset < 512
    → c.c_node.i_size.o_blkno < 65536
    → position off < 33554432
    → (position ((grown off c).c_node.i_size) ≡ max (position c.c_node.i_size) (position off))
      × ((grown off c).c_node.i_size.o_offset < 512)
      × ((grown off c).c_node.i_size.o_blkno < 65536)
unfolding is_past
grown-size off c p q fits far = elim (Bool-cases (is_past off c.c_node.i_size)) [
  | inl e ↦ rw e (ground arith)
  | inr e ↦ rw e (ground arith)
]

-- What a write of `n` bytes leaves behind.
pub record Wrote (k : Kernel) (i : ℕ) (c : Cinode) (m n : ℕ) (src : List ℕ) (k' : Kernel)
    : Type 0 where
  pub inode : Cinode
  pub at : get_elem? k'.i_tab i ≡ some inode
  pub dev : inode.c_dev ≡ c.c_dev
  pub addr : inode.c_node.i_addr ≡ c.c_node.i_addr
  pub mode : inode.c_node.i_mode ≡ c.c_node.i_mode
  pub size :
      position (inode.c_node.i_size)
      ≡ max (position c.c_node.i_size) (position k.udata.u_offset + n)
  pub short : inode.c_node.i_size.o_offset < 512
  pub fits : inode.c_node.i_size.o_blkno < 65536
  pub error : k'.udata.u_error ≡ k.udata.u_error
  pub moved : position k'.udata.u_offset ≡ position k.udata.u_offset + n
  pub bytes :
      (p : ℕ)
      → p < 512 * m
      → file_byte (contents k' c) p
        ≡ overlay (file_byte (contents k c)) (position k.udata.u_offset) n src p
  pub elsewhere :
      (d b : ℕ)
      → d < ndevs
      → ((j : ℕ) → j < m → (d == c.c_dev && b == get_or c.c_node.i_addr j 0) ≡ false)
      → view k' d b ≡ view k d b
  pub whole : IsWhole k' c.c_dev
  pub ready : (d b : ℕ) → Ready k d b → Ready k' d b

-- The table of inodes does not matter to the pool.
Ready-i_tab :
    (k : Kernel) (tab : List Cinode) (d m : ℕ) → Ready k d m → Ready (record k { i_tab = tab }) d m
Ready-i_tab k tab d m r = Ready-same refl refl refl d m r

wrote :
    (k k₁ : Kernel) (tab : List Cinode) (i : ℕ) (c : Cinode) (m n : ℕ) (src : List ℕ)
    → c.c_node.i_size.o_offset < 512
    → c.c_node.i_size.o_blkno < 65536
    → position k.udata.u_offset + n < 33554432
    → Written k c m n src k₁
    → get_elem? tab i ≡ some (grown k₁.udata.u_offset c)
    → Wrote k i c m n src (record k₁ { i_tab = tab })
wrote k k₁ tab i c m n src short fits far w at =
    let moved = w.moved in
    let (dev, addr, mode) = grown-fields k₁.udata.u_offset c in
    let (size, short', fits') = grown-size k₁.udata.u_offset c w.within short fits (omega arith) in
    record {
      inode = grown k₁.udata.u_offset c;
      at = at;
      dev = dev;
      addr = addr;
      mode = mode;
      size = size ∙ rw moved refl;
      short = short';
      fits = fits';
      error = rw (w.tables) refl;
      moved = moved;
      bytes = w.bytes;
      elsewhere = w.elsewhere;
      whole = w.whole;
      ready = λ d b r. Ready-i_tab k₁ tab d b (w.ready d b r);
    }

update_size_lem :
    (k k₁ : Kernel) (i : ℕ) (c : Cinode) (m n : ℕ) (src : List ℕ)
    → get_elem? k.i_tab i ≡ some c
    → c.c_node.i_size.o_offset < 512
    → c.c_node.i_size.o_blkno < 65536
    → position k.udata.u_offset + n < 33554432
    → Written k c m n src k₁
    → Returns (update_size i k₁) (λ r k'. Wrote k i c m n src k')
unfolding update_size
update_size_lem k k₁ i c m n src h short fits far w =
    let off = k₁.udata.u_offset in
    let at : get_elem? k₁.i_tab i ≡ some c = rw (w.tables) h in
    elim (Bool-cases (is_past off c.c_node.i_size)) [
      | inl e ↦
          let c' : Cinode = record c { c_dirty = 1; c_node = record (c.c_node) { i_size = off } } in
          let there = get_elem?-set_self k₁.i_tab i c c' at in
          record {
            value = tt;
            state = put_inode i c' k₁;
            result = rw (at, e);
            post =
                wrote k k₁ (put_inode i c' k₁).i_tab i c m n src short fits far w (rw (e, there));
          }
      | inr e ↦ record {
        value = tt;
        state = k₁;
        result = rw (at, e);
        post = wrote k k₁ k₁.i_tab i c m n src short fits far w (rw (e, at));
      }
    ]

-- For a regular file or a directory of the inode table whose device can be read and whose first `m` blocks
-- are there, named in the inode and all different, a write that ends within them comes back: the bytes from
-- the position on are those given, all other bytes of these blocks are as before, so is every block that is
-- not one of them, the position has moved on, and the size is the larger of the old one and the new position.
pub writei-file :
    (dev_tab : Drivers) (others : Others) (k : Kernel) (i m : ℕ) (c : Cinode) (src : List ℕ)
    → get_elem? k.i_tab i ≡ some c
    → (getmode c == f_dir || getmode c == f_reg) ≡ true
    → Quiet k c.c_dev
    → IsWhole k c.c_dev
    → HasBlocks c m
    → c.c_node.i_size.o_blkno < 65536
    → c.c_node.i_size.o_offset < 512
    → k.udata.u_offset.o_offset < 512
    → position k.udata.u_offset + k.udata.u_count ≤ 512 * m
    → length src ≡ k.udata.u_count
    → Returns (writei dev_tab others i src k) (λ r k'. Wrote k i c m k.udata.u_count src k')
unfolding writei write_file
writei-file dev_tab others k i m c src h kind quiet whole has fits short within room len =
    let direct = has.direct in
    let n = k.udata.u_count in
    let other : (getmode c == f_bdev) ≡ false = ground arith in
    rw (h, other, kind)
      (Returns.bind _
        (copy_in_lem (suc n) k i m n c src h other quiet whole has within room len (omega arith))
        λ r k₁ w. update_size_lem k k₁ i c m n src h short fits (omega arith) w)

-- ===== src/Entry/Linking.antt =====
-- An entry of a directory changed by `ch_link` of uzi-nes-port/fs/filesys.c.
use uzi_build.Prelude.{
  ℕ, ◌+◌, ◌*◌, ◌≡◌, ◌≤◌, ◌<◌, refl, ap, ◌∙◌, true, false, List, ◌∷◌, ◌%◌, ◌/◌, ltb, take, Option,
  none, some, arith, ◌==◌, ◌&&◌, length, get_elem?, get_or, get_elem?-set_self, length-take,
  bit_and,
}
use uzi_build.Kernel.{Kernel, Cinode, Off, ok, pure, ◌>>◌}
use uzi_build.Kernel.Returns
use uzi_build.Kernel.Returns.{Returns}
use uzi_build.Buffer.{ndevs}
use uzi_build.Buffer.View.{view}
use uzi_build.Buffer.Obtain.{Ready, Ready-same}
use uzi_build.Inode.Table.{getperm, oth_wr, put_inode, setftime, a_time, m_time, c_time}
use uzi_build.Files.Offset.Position.{position}
use uzi_build.Process.Waiting.{Others}
use uzi_build.Devices.{Drivers}
use uzi_build.Transfer.{put_offset}
use uzi_build.Transfer.Borrow.{contents}
use uzi_build.Transfer.Slices.{file_byte}
use uzi_build.Transfer.Patch.{overlay}
use uzi_build.Transfer.Writing.{HasBlocks}
use uzi_build.Transfer.WriteFile.{writei-file}
use uzi_build.Entry.{start, back_up, want_entry, number_of, put_entry, round_up, entries, ch_link}
use uzi_build.Entry.Finding.{
  bears, IsDirectory, IsDirectory-Searched, Found, contents_same, find_slot_lem,
}

-- The number that goes into an entry for an inode, 0 for none.
abbrev pub Numbered : Kernel → Option ℕ → ℕ → Type 0
Numbered k none n = n ≡ 0
Numbered k (some i) n = (c : Cinode) × (get_elem? k.i_tab i ≡ some c) × (c.c_num ≡ n)

number_of_lem :
    (k k' : Kernel) (nindex : Option ℕ) (n : ℕ)
    → k'.i_tab ≡ k.i_tab
    → Numbered k nindex n
    → number_of nindex k' ≡ ok n k'
unfolding number_of
number_of_lem k k' none n same e = rw e refl
number_of_lem k k' (some i) n same (c, at, e) = rw (same, at, e) refl

-- The 16 bytes of an entry.
abbrev pub entry : ℕ → List ℕ → List ℕ
entry n name = n % 256 ∷ n / 256 ∷ take 14 name

entry-length : (n : ℕ) (name : List ℕ) → 14 ≤ length name → length (entry n name) ≡ 16
entry-length n name enough = let a = length-take 14 name in omega arith

back_up_lem :
    (o : Off) (e : ℕ)
    → position o ≡ 16 * e + 16
    → o.o_offset < 512
    → 16 * e + 16 ≤ 9216
    → (position (back_up o) ≡ 16 * e) × ((back_up o).o_offset < 512)
unfolding back_up
back_up_lem o e here within small = ground arith

-- What `ch_link` leaves behind when it has put an entry at place `e` of a directory of `m` blocks.
pub record Linked (k : Kernel) (wd : ℕ) (c : Cinode) (m e : ℕ) (new : List ℕ) (k' : Kernel)
    : Type 0 where
  pub inode : Cinode
  pub at : get_elem? k'.i_tab wd ≡ some inode
  pub addr : inode.c_node.i_addr ≡ c.c_node.i_addr
  pub size : position (inode.c_node.i_size) ≡ 512 * m
  pub bytes :
      (p : ℕ)
      → p < 512 * m
      → file_byte (contents k' c) p ≡ overlay (file_byte (contents k c)) (16 * e) 16 new p
  pub elsewhere :
      (d b : ℕ)
      → d < ndevs
      → ((j : ℕ) → j < m → (d == c.c_dev && b == get_or c.c_node.i_addr j 0) ≡ false)
      → view k' d b ≡ view k d b
  pub ready : (d b : ℕ) → Ready k d b → Ready k' d b

-- The end of `ch_link`, after the entry has been written.
stamped :
    (k k₄ : Kernel) (wd m e : ℕ) (c : Cinode) (new : List ℕ) (w : Linked k wd c m e new k₄)
    → w.inode.c_node.i_size.o_offset ≡ 0
    → Returns {A = ℕ}
        ((do setftime wd (a_time + m_time + c_time); round_up wd; pure 1) k₄)
        (λ r k'. (r ≡ 1) × Linked k wd c m e new k')
unfolding setftime round_up
stamped k k₄ wd m e c new w whole =
    let there = w.at in
    let now = k₄.tod in
    let d = w.inode.c_node in
    let c' : Cinode = record (w.inode) {
      c_dirty = 1;
      c_node = record d { i_atime = now; i_mtime = now; i_ctime = now };
    } in
    let set' = get_elem?-set_self k₄.i_tab wd (w.inode) c' there in
    let whole' : (d.i_size.o_offset == 0) ≡ true = (let z = whole in ground arith) in
    record {
      value = 1;
      state = put_inode wd c' k₄;
      result = rw (there, set', whole') refl;
      post = (
        refl,
        record {
          inode = c';
          at = set';
          addr = w.addr;
          size = w.size;
          bytes = w.bytes;
          elsewhere = w.elsewhere;
          ready = λ p b r. Ready-same refl refl refl p b (w.ready p b r);
        },
      );
    }

put_entry_lem :
    (dev_tab : Drivers) (others : Others) (at wd m e n : ℕ) (k k₂ : Kernel) (c : Cinode)
    (name : List ℕ)
    → IsDirectory k wd c m
    → HasBlocks c m
    → e < 32 * m
    → 14 ≤ length name
    → k.udata.u_error ≡ 0
    → Found k e k₂
    → Returns
        (put_entry dev_tab others at wd (entry n name) k₂)
        (λ r k'. (r ≡ 1) × Linked k wd c m e (entry n name) k')
unfolding put_entry want_entry
put_entry_lem dev_tab others at wd m e n k k₂ c name d has inside enough fine f =
    let d' = IsDirectory-Searched (f.searched) d in
    let some' : (k₂.udata.u_count == 0) ≡ false = (let z = f.count in ground arith) in
    let behind = f.behind in
    let small = d.small in
    let (pos, within) = back_up_lem k₂.udata.u_offset e behind (f.within) (omega arith) in
    let kind = d.kind in
    let blkno = d.blkno in
    let offset = d.offset in
    let fine' : k₂.udata.u_error ≡ 0 = rw (f.searched.tables) fine in
    let k₃ = record k₂ {
      udata = record (k₂.udata) { u_offset = back_up k₂.udata.u_offset; u_count = 16; u_base = at };
    } in
    let same = contents_same k k₂ c (f.searched.seen) ((d.quiet 0).device) in
    rw some' (
      Returns.bind _
        (writei-file dev_tab others k₃ wd m c (entry n name) (d'.at) (ground arith)
          (λ b. Ready-same refl refl refl c.c_dev b (d'.quiet b)) (d'.whole) has (omega arith)
          (omega arith) within (omega arith) (entry-length n name enough))
        λ r k₄ w.
          let new = entry n name in
          let size = w.size in
          let short = w.short in
          let error = w.error in
          let none' : (k₄.udata.u_error == 0) ≡ true = (let z = fine' in ground arith) in
          let linked : Linked k wd c m e new k₄ = record {
            inode = w.inode;
            at = w.at;
            addr = w.addr;
            size = omega arith;
            bytes = λ p q.
                w.bytes p q
                ∙ ap (λ o. overlay (file_byte (contents k₃ c)) o 16 new p) pos
                ∙ ap (λ bl. overlay (file_byte bl) (16 * e) 16 new p) same;
            elsewhere = λ b j p q. w.elsewhere b j p q ∙ f.searched.seen b j p;
            ready = λ b j h. w.ready b j (Ready-same refl refl refl b j (f.searched.ready b j h));
          } in
          rw none' (stamped k k₄ wd m e c new linked (omega arith)))

-- On a directory whose blocks are there, named in the inode and all different, and whose device can be
-- read, a caller who may write to it and who has no error pending gets 1 from `ch_link` if some entry
-- bears the old name. The first such entry then holds the number of the inode given, or 0, and the
-- fourteen bytes at the address of the new name, also those behind the end of the name; all other bytes
-- of the directory are as before, so are its size and every block that is not one of its own.
pub ch_link_lem :
    (dev_tab : Drivers) (others : Others) (at : ℕ) (junk : List ℕ) (k : Kernel) (wd m e n : ℕ)
    (c : Cinode) (oldname newname : List ℕ) (nindex : Option ℕ)
    → IsDirectory k wd c m
    → HasBlocks c m
    → (bit_and (getperm k.udata c) oth_wr == 0) ≡ false
    → k.udata.u_error ≡ 0
    → Numbered k nindex n
    → length junk ≡ 16
    → 14 ≤ length newname
    → e < 32 * m
    → bears oldname (file_byte (contents k c)) e ≡ true
    → ((i : ℕ) → i < e → bears oldname (file_byte (contents k c)) i ≡ false)
    → Returns
        (ch_link dev_tab others at junk wd oldname newname nindex k)
        (λ r k'. (r ≡ 1) × Linked k wd c m e (entry n newname) k')
unfolding ch_link
ch_link_lem dev_tab others at junk k wd m e n c oldname newname nindex d has may fine number long
      enough inside here before =
    let d' : IsDirectory (put_offset start k) wd c m = record {
      at = d.at;
      kind = d.kind;
      quiet = λ b. Ready-same refl refl refl c.c_dev b (d.quiet b);
      whole = d.whole;
      blkno = d.blkno;
      offset = d.offset;
      small = d.small;
    } in
    let blkno = d.blkno in
    let offset = d.offset in
    rw (d.at, may)
      (Returns.bind _
        (find_slot_lem (entries c.c_node.i_size) dev_tab others at wd m e 0 (put_offset start k) c
          oldname junk d' inside (omega arith) here (λ i p q. before i q) refl (omega arith)
          (omega arith) (omega arith))
        λ cur k₂ f.
          let some' : (k₂.udata.u_count == 0) ≡ false = (let z = f.count in ground arith) in
          let numbered = number_of_lem k k₂ nindex n (rw (f.searched.tables) refl) number in
          let given : ltb (length newname) 14 ≡ false = ground arith in
          rw (some', given, numbered)
            (Returns.weaken
              (put_entry_lem dev_tab others at wd m e n (put_offset start k) k₂ c newname d' has
                inside enough fine f)
              λ r k' (one, l). (
                one,
                record {
                  inode = l.inode;
                  at = l.at;
                  addr = l.addr;
                  size = l.size;
                  bytes = l.bytes;
                  elsewhere = l.elsewhere;
                  ready = λ b j h. l.ready b j (Ready-same refl refl refl b j h);
                },
              )))

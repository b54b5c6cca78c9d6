-- ===== src/Calls/Data/Reading.antt =====
-- `_read` of uzi-nes-port/kernel/scall1.c on a file, from the descriptor to the user's memory.
use uzi_build.Prelude.{
  ℕ, ◌+◌, ◌-◌, ◌≡◌, ◌<◌, ◌≤◌, refl, ◌∙◌, zero, suc, some, true, false, List, arith, ◌==◌, ◌||◌,
  length, get_elem?, get_elem?-set_self, min,
}
use uzi_build.Kernel.{Kernel, Oft, Cinode}
use uzi_build.Kernel.Returns
use uzi_build.Kernel.Returns.{Returns}
use uzi_build.Kernel.Memory.{fetch, put_bytes, fetch-store}
use uzi_build.Buffer.Obtain.{Ready-same}
use uzi_build.FreeList.Super.{Quiet}
use uzi_build.Inode.Table.{f_reg, f_dir, getmode}
use uzi_build.Files.Table.{put_oft}
use uzi_build.Files.Table.Valid.{IsOpen}
use uzi_build.Files.Calls.{o_wronly}
use uzi_build.Files.Calls.Setup.{accessed, ready_to_read, rwsetup_reading, updoff_lem}
use uzi_build.Files.Offset.Position.{position}
use uzi_build.Process.Waiting.{Others}
use uzi_build.Devices.{Drivers}
use uzi_build.Transfer.Borrow.{contents}
use uzi_build.Transfer.Slices.{slice, file_byte}
use uzi_build.Transfer.Rounds.{IsWhole}
use uzi_build.Transfer.Reading.{Read, readi-file}
use uzi_build.Calls.Data.{read}

-- How many bytes a read gives.
abbrev pub available : Oft → Cinode → ℕ → ℕ
available o c nbytes = min nbytes (position c.c_node.i_size - position o.o_ptr)

pub record Delivered (k : Kernel) (f buf n : ℕ) (o : Oft) (c : Cinode) (r : ℕ) (k' : Kernel)
    : Type 0 where
  pub count : r ≡ n
  pub in_memory : fetch k'.memory buf n ≡ slice (file_byte (contents k c)) (position o.o_ptr) n
  pub after : Oft
  pub at : get_elem? k'.of_tab f ≡ some after
  pub moved : position (after.o_ptr) ≡ position o.o_ptr + n

slice-length : (byte : ℕ → ℕ) (p n : ℕ) → length (slice byte p n) ≡ n
slice-length byte p zero = refl
slice-length byte p (suc n) = let e = slice-length byte (suc p) n in omega arith

-- From the end of `readi` on.
finish :
    (k k₁ k₂ : Kernel) (d f i buf n : ℕ) (o : Oft) (c : Cinode) (bytes : List ℕ)
    → k₁.udata.u_files ≡ k.udata.u_files
    → k₁.of_tab ≡ k.of_tab
    → IsOpen k d f i o c
    → bytes ≡ slice (file_byte (contents k c)) (position o.o_ptr) n
    → buf + n ≤ 65536
    → k₁.udata.u_offset ≡ o.o_ptr
    → Read k₁ n k₂
    → Delivered k f buf n o c n
        (put_oft f (record o { o_ptr = k₂.udata.u_offset }) (put_bytes buf bytes k₂))
finish k k₁ k₂ d f i buf n o c bytes files tab open' is room from rd =
    let moved = rd.moved in
    let long : length bytes ≡ n =
      rw is (slice-length (file_byte (contents k c)) (position o.o_ptr) n) in
    let same : k₂.of_tab ≡ k.of_tab = rw (rd.tables) tab in
    record {
      count = refl;
      in_memory = (rw long at (fetch-store k₂.memory buf bytes (omega arith))) ∙ is;
      after = record o { o_ptr = k₂.udata.u_offset };
      at =
          get_elem?-set_self k₂.of_tab f o (record o { o_ptr = k₂.udata.u_offset })
            (rw same open'.open_file);
      moved = moved ∙ rw from refl;
    }

-- On a descriptor that is open for reading on a regular file or a directory, whose device can be read, with
-- a position not past the end, a read of at most 32257 bytes into a place within the memory comes back with
-- the number of bytes asked for or left in the file; the user's memory then holds the bytes of the file from
-- the position on, and the position of the open file has moved on by that number.
pub read_lem :
    (dev_tab : Drivers) (others : Others) (k : Kernel) (d f i buf nbytes : ℕ) (o : Oft) (c : Cinode)
    → IsOpen k d f i o c
    → (o.o_access == o_wronly) ≡ false
    → (getmode c == f_dir || getmode c == f_reg) ≡ true
    → Quiet k c.c_dev
    → IsWhole k c.c_dev
    → c.c_node.i_size.o_blkno < 65536
    → c.c_node.i_size.o_offset < 512
    → o.o_ptr.o_offset < 512
    → nbytes ≤ 32257
    → position o.o_ptr ≤ position c.c_node.i_size
    → buf + nbytes ≤ 65536
    → Returns
        (read dev_tab others d buf nbytes k)
        (λ r k'. Delivered k f buf (available o c nbytes) o c r k')
unfolding read getmode
read_lem dev_tab others k d f i buf nbytes o c open' allowed kind quiet whole fits short within
      small before room =
    let k₁ = ready_to_read i o c buf nbytes k in
    let n = available o c nbytes in
    rw (rwsetup_reading k d f i buf nbytes o c open' allowed) (
      Returns.bind _
        (readi-file dev_tab others k₁ i (accessed k.tod c)
          (get_elem?-set_self k.i_tab i c (accessed k.tod c) open'.inode) kind
          (λ b. Ready-same refl refl refl c.c_dev b (quiet b)) whole fits short within small before)
        λ bytes k₂ (is, rd).
          let same : k₂.udata.u_files ≡ k.udata.u_files = rw (rd.tables) refl in
          let tab : k₂.of_tab ≡ k.of_tab = rw (rd.tables) refl in
          let count : k₂.udata.u_count ≡ n = rw (rd.tables) refl in
          record {
            value = n;
            state = put_oft f (record o { o_ptr = k₂.udata.u_offset }) (put_bytes buf bytes k₂);
            result =
                rw
                  (
                    updoff_lem (put_bytes buf bytes k₂) d f o (rw same open'.file)
                        (rw tab open'.open_file),
                    count,
                  )
                  refl;
            post = finish k k₁ k₂ d f i buf n o c bytes refl refl open' is (omega arith) refl rd;
          })

-- ===== src/Files/Calls/Setup.antt =====
-- `rwsetup` and `updoff` of uzi-nes-port/kernel/scall1.c on a descriptor that is open.
use uzi_build.Prelude.{ℕ, ◌≡◌, refl, true, false, some, ◌==◌, get_elem?}
use uzi_build.Kernel.{Kernel, Oft, Cinode, Time, ok}
use uzi_build.Inode.Table.{put_inode, setftime}
use uzi_build.Files.Table.{put_oft}
use uzi_build.Files.Table.Valid.{IsOpen, getinode_open}
use uzi_build.Files.Calls.{o_wronly, put_udata, rwsetup, updoff}

-- The inode with a time stamp for a read.
abbrev pub accessed : Time → Cinode → Cinode
accessed now c = record c { c_dirty = 1; c_node = record (c.c_node) { i_atime = now } }

abbrev pub aimed : ℕ → ℕ → Kernel → Kernel
aimed buf nbytes k = put_udata (record (k.udata) { u_base = buf; u_count = nbytes }) k

-- The state in which a read begins.
abbrev pub ready_to_read : ℕ → Oft → Cinode → ℕ → ℕ → Kernel → Kernel
ready_to_read i o c buf nbytes k =
    put_udata (record (k.udata) { u_base = buf; u_count = nbytes; u_offset = o.o_ptr })
      (put_inode i (accessed k.tod c) k)

pub rwsetup_reading :
    (k : Kernel) (d f i buf nbytes : ℕ) (o : Oft) (c : Cinode)
    → IsOpen k d f i o c
    → (o.o_access == o_wronly) ≡ false
    → rwsetup d buf nbytes true k ≡ ok (some i) (ready_to_read i o c buf nbytes k)
unfolding rwsetup setftime
rwsetup_reading k d f i buf nbytes o c open' allowed =
    let there : IsOpen (aimed buf nbytes k) d f i o c = record {
      descriptor = open'.descriptor;
      file = open'.file;
      entry = open'.entry;
      open_file = open'.open_file;
      to_inode = open'.to_inode;
      slot = open'.slot;
      inode = open'.inode;
      sound = open'.sound;
    } in
    rw
      (
        getinode_open (aimed buf nbytes k) d f i o c there,
        open'.file,
        open'.open_file,
        allowed,
        open'.inode,
      )
      refl

pub updoff_lem :
    (k : Kernel) (d f : ℕ) (o : Oft)
    → get_elem? k.udata.u_files d ≡ some f
    → get_elem? k.of_tab f ≡ some o
    → updoff d k ≡ ok tt (put_oft f (record o { o_ptr = k.udata.u_offset }) k)
unfolding updoff
updoff_lem k d f o h g = rw (h, g) refl

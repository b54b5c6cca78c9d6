-- ===== src/Calls/Mounts/Mounting.antt =====
-- What `fmount` of uzi-nes-port/fs/filesys.c makes of a device with a superblock.
use uzi_build.Prelude.{
  ℕ, ◌<◌, ◌≤◌, ◌≡◌, refl, sym, ap, ◌∙◌, not, ◌||◌, false, List, ◌∷◌, Option, none, some, arith,
  take, length, get_elem?, set, get_elem?-set_self, ◌==◌, leb, if◌then◌else◌, minus_one,
}
use mathlib.Core.Path.{fun_ext}
use uzi_build.Kernel.{Kernel, Filesys, Cinode, ok, pure, modify, ◌>>◌}
use uzi_build.Kernel.Returns
use uzi_build.Kernel.Returns.{Returns}
use uzi_build.Format.{nfree_max, filesys_of_bytes, table_bytes}
use uzi_build.Format.Super.{IsSuper, super_block_lem}
use uzi_build.Buffer.{ndevs}
use uzi_build.Buffer.View.{view}
use uzi_build.Buffer.Obtain.{Ready-same}
use uzi_build.Buffer.Use.{Undisturbed, read_block-sees}
use uzi_build.FreeList.{smounted, put_fs}
use uzi_build.FreeList.Chain.{IsChain, AllWithin, AllDistinct}
use uzi_build.FreeList.Super.{Quiet, HasFree}
use uzi_build.Devices.{Drivers}
use uzi_build.Calls.Mounts.{add_ref, fmount}

-- The superblock and the free blocks that a device holds, as they are in its blocks.
pub record IsVolume (see : ℕ → List ℕ) (f : Filesys) (bs : List ℕ) : Type 0 where
  pub at : ℕ
  pub behind : List Filesys
  pub beyond : List ℕ
  pub block : see 1 ≡ take 512 (table_bytes at (f ∷ behind) beyond)
  pub sound : IsSuper at f
  pub mounted : f.s_mounted ≡ smounted
  pub sizes : f.s_isize < f.s_fsize
  pub within : AllWithin f.s_isize f.s_fsize bs
  pub distinct : AllDistinct bs
  pub count : f.s_tfree ≡ length bs
  pub few : f.s_nfree ≤ nfree_max
  pub chain : IsChain see f.s_nfree f.s_free bs

-- The inode to mount on, if any, is in the table.
abbrev pub InTable : Kernel → Option ℕ → Type 0
InTable k none = Unit {0}
InTable k (some i) = (c : Cinode) × (get_elem? k.i_tab i ≡ some c)

InTable-same :
    (k k₁ : Kernel) (ino : Option ℕ) → k₁.i_tab ≡ k.i_tab → InTable k ino → InTable k₁ ino
InTable-same k k₁ none e h = h
InTable-same k k₁ (some i) e (c, h) = (c, rw e h)

add_ref_lem :
    (k : Kernel) (ino : Option ℕ)
    → InTable k ino
    → Returns (add_ref ino k) (λ r k'. k' ≡ record k { i_tab = k'.i_tab })
unfolding add_ref
add_ref_lem k none h = record { value = tt; state = k; result = refl; post = refl }
add_ref_lem k (some i) (c, e) = rw e (record { value = tt; state = _; result = refl; post = refl })

entered-HasFree :
    (k k₁ k' : Kernel) (dev : ℕ) (f old : Filesys) (ino : Option ℕ) (bs : List ℕ)
    (tab : List Filesys)
    → (v : IsVolume (view k dev) f bs) → get_elem? tab dev ≡ some old
    → view k₁ dev ≡ view k dev
    → k' ≡ record k₁ { fs_tab = set tab dev (record f { s_mntpt = ino }); i_tab = k'.i_tab }
    → HasFree k' dev bs
entered-HasFree k k₁ k' dev f old ino bs tab v h same moved =
    let seen : view k' dev ≡ view k dev = ap (λ x. view x dev) moved ∙ same in
    record {
      fs = record f { s_mntpt = ino };
      at = ap (λ x. get_elem? (Kernel.fs_tab x) dev) moved ∙ get_elem?-set_self tab dev old _ h;
      mounted = v.mounted;
      within = v.within;
      size = v.sound.fsize;
      distinct = v.distinct;
      count = v.count;
      room = v.sound.free_room;
      few = v.few;
      chain = rw (sym seen) at v.chain;
    }

entered :
    (k k₁ : Kernel) (dev : ℕ) (ino : Option ℕ) (raw f old : Filesys) (bs : List ℕ)
    → (record raw { s_mntpt = ino }) ≡ record f { s_mntpt = ino }
    → Undisturbed k k₁
    → get_elem? k.fs_tab dev ≡ some old
    → dev < ndevs
    → Quiet k dev
    → InTable k ino
    → IsVolume (view k dev) f bs
    → Returns {A = ℕ}
        ((if not (raw.s_mounted == smounted) || leb raw.s_fsize raw.s_isize
            then pure minus_one
            else do modify (put_fs dev (record raw { s_mntpt = ino })); add_ref ino; pure 0)
          (put_fs dev raw k₁))
        (λ r k'.
          (r ≡ 0)
          × (get_elem? k'.fs_tab dev ≡ some (record f { s_mntpt = ino }))
          × HasFree k' dev bs
          × Quiet k' dev)
entered k k₁ dev ino raw f old bs kept u h p quiet there v =
    let one : raw.s_mounted ≡ f.s_mounted = ap (λ x. x.s_mounted) kept in
    let two : raw.s_isize ≡ f.s_isize = ap (λ x. x.s_isize) kept in
    let three : raw.s_fsize ≡ f.s_fsize = ap (λ x. x.s_fsize) kept in
    let mounted = v.mounted in
    let sizes = v.sizes in
    let good : (not (raw.s_mounted == smounted) || leb raw.s_fsize raw.s_isize) ≡ false =
      ground arith in
    let tab = set k₁.fs_tab dev raw in
    let first : get_elem? k₁.fs_tab dev ≡ some old = rw (u.tables) h in
    let h' = get_elem?-set_self k₁.fs_tab dev old raw first in
    let there' : InTable k₁ ino = InTable-same k k₁ ino (rw (u.tables) refl) there in
    let seen : view k₁ dev ≡ view k dev = fun_ext (λ b. u.seen dev b p) in
    rw (good, kept)
      (Returns.bind _
        (add_ref_lem (put_fs dev (record f { s_mntpt = ino }) (put_fs dev raw k₁)) ino there')
        λ z k₂ moved.
          let final : get_elem? k₂.fs_tab dev ≡ some (record f { s_mntpt = ino }) =
            ap (λ x. get_elem? (x.fs_tab) dev) moved ∙ get_elem?-set_self tab dev raw _ h' in
          record {
            value = 0;
            state = k₂;
            result = refl;
            post = (
              refl,
              final,
              entered-HasFree k k₁ k₂ dev f raw ino bs tab v h' seen moved,
              λ n. rw (moved) (Ready-same refl refl refl dev n (u.ready dev n (quiet n))),
            );
          })

-- A device that answers to its opening, that holds a file system with free blocks `bs`, and of which
-- every block can be read, is mounted: `fmount` returns 0, the entry of the mount table is the
-- superblock of the device with the inode that it is mounted on, the free blocks of the device are `bs`
-- for all that comes after, and it can still be read.
pub fmount-HasFree :
    (dev_tab : Drivers) (k : Kernel) (dev : ℕ) (ino : Option ℕ) (f old : Filesys) (bs : List ℕ)
    → dev_tab.dev_open dev k ≡ ok 0 k
    → get_elem? k.fs_tab dev ≡ some old
    → Quiet k dev
    → InTable k ino
    → IsVolume (view k dev) f bs
    → Returns (fmount dev_tab dev ino k) (λ r k'.
      (r ≡ 0)
      × (get_elem? k'.fs_tab dev ≡ some (record f { s_mntpt = ino }))
      × HasFree k' dev bs
      × Quiet k' dev)
unfolding fmount
fmount-HasFree dev_tab k dev ino f old bs opens h quiet there v =
    let p = (quiet 0).device in
    let small : leb ndevs dev ≡ false = ground arith in
    rw (small, opens, h)
      (Returns.bind _ (read_block-sees k dev 1 (quiet 1)) λ bytes k₁ (is, u).
        let raw = filesys_of_bytes k₁.i_tab_at bytes in
        let kept : (record raw { s_mntpt = ino }) ≡ record f { s_mntpt = ino } =
          rw (is, v.block)
            (super_block_lem (v.at) k₁.i_tab_at f (v.behind) (v.beyond) ino (v.sound)) in
        entered k k₁ dev ino raw f old bs kept u h p quiet there v)

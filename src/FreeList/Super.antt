-- ===== src/FreeList/Super.antt =====
-- How a routine of uzi-nes-port/fs/filesys.c that changes one superblock moves the state, and when the
-- superblock and its chain hold a sequence of free blocks.
use uzi_build.Prelude.{
  ℕ, ◌<◌, ◌≤◌, ◌≡◌, refl, List, some, arith, length, get_elem?, set, get_elem?-set_self, set-set,
  leb, ◌==◌, false,
}
use uzi_build.Kernel.{Kernel, Filesys, ok}
use uzi_build.Format.{nfree_max}
use uzi_build.Buffer.{ndevs}
use uzi_build.Buffer.View.{view}
use uzi_build.Buffer.Obtain.{Ready}
use uzi_build.Buffer.Use.{Undisturbed, Rewritten}
use uzi_build.FreeList.{smounted, put_fs, getdev}
use uzi_build.FreeList.Chain.{IsChain, AllWithin, AllDistinct}

-- The superblock of `dev` is now `f`; the buffers and the devices may have moved, and no other table.
pub record Reached (k : Kernel) (dev : ℕ) (f : Filesys) (k' : Kernel) : Type 0 where
  pub tables : k' ≡ record k {
    bufpool = k'.bufpool;
    bufclock = k'.bufclock;
    disk = k'.disk;
    fs_tab = set k.fs_tab dev f;
  }
  pub ready : (d n : ℕ) → Ready k d n → Ready k' d n

pub Reached-put_fs : (k : Kernel) (dev : ℕ) (f : Filesys) → Reached k dev f (put_fs dev f k)
Reached-put_fs k dev f = record {
  tables = refl;
  ready = λ d n r. record {
    coherent = r.coherent;
    no_fault = r.no_fault;
    device = r.device;
    spare = r.spare;
    spare_buf = r.spare_buf;
    spare_at = r.spare_at;
    spare_idle = r.spare_idle;
    released = r.released;
  };
}

pub Reached-at :
    {k k' : Kernel} {dev : ℕ} {f g : Filesys}
    → Reached k dev f k'
    → get_elem? k.fs_tab dev ≡ some g
    → get_elem? k'.fs_tab dev ≡ some f
Reached-at {k} {dev} {f} {g} r h = rw (r.tables) (get_elem?-set_self k.fs_tab dev g f h)

pub Reached-then :
    {k k₁ k₂ : Kernel} {dev : ℕ} {f g : Filesys}
    → Reached k dev f k₁
    → Reached k₁ dev g k₂
    → Reached k dev g k₂
Reached-then {k} {dev} {f} {g} r s = record {
  tables = rw (s.tables, r.tables, set-set);
  ready = λ d n q. s.ready d n (r.ready d n q);
}

pub Reached-Undisturbed :
    {k k₁ k₂ : Kernel} {dev : ℕ} {f : Filesys}
    → Reached k dev f k₁
    → Undisturbed k₁ k₂
    → Reached k dev f k₂
Reached-Undisturbed r u = record {
  tables = rw (u.tables, r.tables);
  ready = λ d n q. u.ready d n (r.ready d n q);
}

pub Reached-Rewritten :
    {k k₁ k₂ : Kernel} {dev d n : ℕ} {f : Filesys} {bytes : List ℕ}
    → Reached k dev f k₁
    → Rewritten k₁ d n bytes k₂
    → Reached k dev f k₂
Reached-Rewritten r w = record {
  tables = rw (w.tables, r.tables);
  ready = λ d n q. w.ready d n (r.ready d n q);
}

-- Every block of the device can be read: the pool is coherent and has an idle buffer, the devices
-- answer, and no buffer of the device is in use.
abbrev pub Quiet : Kernel → ℕ → Type 0
Quiet k dev = (n : ℕ) → Ready k dev n

-- `dev` is mounted, and its free blocks are `bs`, in the order in which they are handed out: they are
-- data blocks of the device, no two are the same, and `s_tfree` is their number.
pub record HasFree (k : Kernel) (dev : ℕ) (bs : List ℕ) : Type 0 where
  pub fs : Filesys
  pub at : get_elem? k.fs_tab dev ≡ some fs
  pub mounted : fs.s_mounted ≡ smounted
  pub within : AllWithin fs.s_isize fs.s_fsize bs
  pub size : fs.s_fsize < 65536
  pub distinct : AllDistinct bs
  pub count : fs.s_tfree ≡ length bs
  pub room : length fs.s_free ≡ nfree_max
  pub few : fs.s_nfree ≤ nfree_max
  pub chain : IsChain (view k dev) fs.s_nfree fs.s_free bs

-- What `getdev` makes of a superblock.
abbrev pub stamped : Kernel → Filesys → Filesys
stamped k f = record f { s_time = k.tod; s_fmod = 1 }

pub getdev-ok :
    (k : Kernel) (dev : ℕ) (f : Filesys)
    → get_elem? k.fs_tab dev ≡ some f
    → f.s_mounted ≡ smounted
    → dev < ndevs
    → getdev dev k ≡ ok tt (put_fs dev (stamped k f) k)
unfolding getdev
getdev-ok k dev f h m p =
    let small : leb ndevs dev ≡ false = ground arith in
    let is : (f.s_mounted == 0) ≡ false = ground arith in rw (small, h, is)

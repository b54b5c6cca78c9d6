-- ===== src/Tests/Sample.antt =====
-- A kernel state: a root file system of 20 blocks, of which 7 and 9 are free, and two idle buffers.
use uzi_build.Prelude.{
  ℕ, zero, suc, ◌≡◌, refl, sym, false, List, [], ◌∷◌, none, some, arith, replicate, ◌==◌,
  if◌then◌else◌, get_elem?,
}
use uzi_build.Kernel.{Kernel, Blkbuf, Filesys, Time, UData}
use uzi_build.Buffer.{bfind}
use uzi_build.Buffer.Evict.{PoolCoherent}
use uzi_build.Buffer.Sync.{AllIdle}
use uzi_build.FreeList.Chain.{last, next, link}
use uzi_build.FreeList.Super.{Quiet, HasFree}
use uzi_build.FreeList.{smounted}

abbrev pub noon : Time
noon = record { t_time = 24576; t_date = 44347 }

abbrev pub user : UData
user = record {
  u_ptab = 0;
  u_insys = 1;
  u_error = 0;
  u_base = 0;
  u_count = 0;
  u_offset = record { o_blkno = 0; o_offset = 0 };
  u_gid = 0;
  u_euid = 0;
  u_egid = 0;
  u_mask = 0;
  u_time = noon;
  u_files = replicate 10 255;
  u_cwd = 0;
  u_break = 0;
  u_sigvec = replicate 16 0;
  u_cursig = 0;
  u_utime = record { t_time = 0; t_date = 0 };
  u_stime = record { t_time = 0; t_date = 0 };
  u_cutime = record { t_time = 0; t_date = 0 };
  u_cstime = record { t_time = 0; t_date = 0 };
}

-- Block 7 holds the rest of the free list: two addresses, 0 and 9.
abbrev pub stored : ℕ → ℕ → List ℕ
stored d n = if n == 7 then 2 ∷ 0 ∷ 0 ∷ 0 ∷ 9 ∷ 0 ∷ replicate 506 0 else replicate 512 0

abbrev pub super_block : Filesys
super_block = record {
  s_mounted = smounted;
  s_isize = 4;
  s_fsize = 20;
  s_nfree = 1;
  s_free = 7 ∷ replicate 49 0;
  s_ninode = 0;
  s_inode = replicate 50 0;
  s_fmod = 0;
  s_time = noon;
  s_tfree = 2;
  s_tinode = 3;
  s_mntpt = none;
}

abbrev pub buffer : ℕ → ℕ → Blkbuf
buffer blk time = record {
  bf_data = replicate 512 0;
  bf_dev = 0;
  bf_blk = blk;
  bf_dirty = 0;
  bf_busy = 0;
  bf_time = time;
}

abbrev pub sample : Kernel
sample = record {
  udata = user;
  bufpool = buffer 1 3 ∷ buffer 5 2 ∷ [];
  bufclock = 4;
  disk = stored;
  fault = λ d n. d == 1;
  i_tab = [];
  nexti = 0;
  of_tab = [];
  fs_tab = super_block ∷ [];
  beyond = replicate 512 0;
  ptab = [];
  tod = noon;
  root = 0;
  rootdev = 0;
  i_tab_at = 1000;
  ptab_at = 4000;
  udata_at = 57344;
  memory = λ a. 0;
  initproc = 0;
  ticks = record { t_time = 0; t_date = 0 };
  ttyinq = record {
    q_base = 900;
    q_head = 900;
    q_tail = 900;
    q_size = 132;
    q_count = 0;
    q_wakeup = 66;
    chars = replicate 132 0;
  };
  stopflag = 0;
  flshflag = 0;
  console = [];
}

-- The same, with devices that answer every request.
abbrev pub good : Kernel
good = record sample { fault = λ d n. false }

pub good-PoolCoherent : PoolCoherent good
unfolding bfind
good-PoolCoherent = (
  record { agrees = λ p q r. refl; owned = λ p. omega arith; flag = omega arith },
  λ p. refl,
  (record { agrees = λ p q r. refl; owned = λ p. omega arith; flag = omega arith }, λ p. refl, tt),
)

pub good-AllIdle : AllIdle (good.bufpool)
good-AllIdle = (refl, (refl, tt))

idle : (i : ℕ) (b : Blkbuf) → get_elem? (good.bufpool) i ≡ some b → b.bf_busy ≡ 0
idle zero b h = let e : buffer 1 3 ≡ b = cc in rw (sym e) refl
idle (suc zero) b h = let e : buffer 5 2 ≡ b = cc in rw (sym e) refl
idle (suc (suc i)) b h = cc

pub good-Quiet : Quiet good 0
good-Quiet n = record {
  coherent = good-PoolCoherent;
  no_fault = λ d m. refl;
  device = omega arith;
  spare = 0;
  spare_buf = buffer 1 3;
  spare_at = refl;
  spare_idle = refl;
  released = λ i b h p. idle i b h;
}

abbrev pub good-HasFree : HasFree good 0 (7 ∷ 9 ∷ [])
good-HasFree = record {
  fs = super_block;
  at = refl;
  mounted = refl;
  within = (omega arith, omega arith, (omega arith, omega arith, tt));
  size = omega arith;
  distinct = ((λ e. absurd (omega arith), tt), (tt, tt));
  count = refl;
  room = refl;
  few = omega arith;
  chain =
      link refl (λ e. absurd (omega arith)) (omega arith)
        (next refl (λ e. absurd (omega arith)) (last refl));
}

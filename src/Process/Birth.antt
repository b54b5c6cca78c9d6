-- ===== src/Process/Birth.antt =====
-- A new process: `newproc` of uzi-nes-port/kernel/process.c, and what `dofork` does to the tables around
-- it. The exchange of memory images and stacks is assembly, and leaves the tables alone.
pub mod Shared
use uzi_build.Prelude.{ℕ, ◌+◌, List, [], ◌∷◌, Option, none, some, get_elem?, set, add8, minus_one}
use uzi_build.Kernel.{
  Kernel, PTab, UData, Time, M, pure, gets, modify, entry, set_error, ◌>>=◌, ◌>>◌,
}
use uzi_build.Inode.Table.{i_ref}
use uzi_build.Files.Table.{oft_at, put_oft}
use uzi_build.Files.Calls.{put_udata}
use uzi_build.Process.{child, p_ready, p_running, ptab_alloc}
use uzi_build.Signals.{update_at}

abbrev pub no_time : Time
no_time = record { t_time = 0; t_date = 0 }

abbrev pub slot_at : ℕ → M PTab
slot_at i k = entry (get_elem? k.ptab i) k

abbrev pub put_slot : ℕ → PTab → Kernel → Kernel
put_slot i p k = record k { ptab = set k.ptab i p }

-- The last loop of `newproc`. A descriptor is an unsigned character, so `*j >= 0` always holds.
pub share_files : List ℕ → M (Unit {0})
share_files [] = pure tt
share_files (f ∷ fs) = do
  o ← oft_at f
  modify (put_oft f (record o { o_refs = add8 o.o_refs 1 }))
  share_files fs

-- The user data of the child.
abbrev pub inherited : ℕ → UData → UData
inherited p u = record u {
  u_ptab = p;
  u_utime = no_time;
  u_stime = no_time;
  u_cutime = no_time;
  u_cstime = no_time;
}

pub newproc : ℕ → M (Unit {0})
newproc p = do
  u ← gets (λ k. k.udata)
  e ← slot_at p
  parent ← slot_at u.u_ptab
  modify (put_slot p (child p u.u_ptab parent e))
  modify (put_udata (inherited p u))
  modify (λ k. put_udata (record (k.udata) { u_time = k.tod }) k)
  i_ref u.u_cwd
  modify (λ k. put_udata (record (k.udata) { u_cursig = 0; u_error = 0 }) k)
  share_files u.u_files

abbrev pub eagain : ℕ
eagain = 11

abbrev pub with_status : ℕ → ℕ → Kernel → Kernel
with_status slot s k = record k { ptab = update_at k.ptab slot (λ p. record p { p_status = s }) }

-- The result is that in the child; the parent, whose image has been saved, will return with the child's
-- number. The static `nextpid` of `ptab_alloc` is an argument.
pub dofork : ℕ → M ℕ
dofork nextpid = do
  ps ← gets (λ k. k.ptab)
  elim (ptab_alloc nextpid ps) [
    | none ↦ modify (set_error eagain) >> pure minus_one
    | some (p, pid, table) ↦ do
      modify (λ k. record k { ptab = table })
      modify (λ k. with_status k.udata.u_ptab p_ready k)
      newproc p
      modify (with_status p p_running)
      pure 0
  ]

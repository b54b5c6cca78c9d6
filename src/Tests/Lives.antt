-- ===== src/Tests/Lives.antt =====
-- The birth and the end of processes of uzi-nes-port/kernel/process.c and kernel/scall2.c.
use uzi_build.Prelude.{
  ℕ, zero, suc, ◌≡◌, ◌≢◌, ◌<◌, refl, sym, [], ◌∷◌, some, arith, get_elem?, replicate,
}
use uzi_build.Kernel.{Kernel, PTab, Cinode, UData, Oft, wild, left}
use uzi_build.Clock.Ticks.{IsSum}
use uzi_build.Kernel.Returns.{Returns}
use uzi_build.Kernel.Memory.{store}
use uzi_build.Process.{p_running, p_ready, p_zombie, p_empty, zeroed, forking}
use uzi_build.Process.Birth.{newproc}
use uzi_build.Process.Birth.Shared.{occurrences, shared, newproc-shares, newproc-unused}
use uzi_build.Process.Death.{wait, doexit}
use uzi_build.Process.Death.Reaping.{IsFirstZombie, wait-reaps}
use uzi_build.Process.Death.Exit.{IsLeaving}
use uzi_build.Process.Death.Collect.{IsSum3, doexit-wait}
use uzi_build.Inode.Table.{getmode}
use uzi_build.Tests.Sample.{user}
use uzi_build.Tests.Disk.{dir, opened, disk_kernel}

abbrev parent : PTab
parent = record zeroed { p_status = p_running; p_pid = 5 }

abbrev zombie : PTab
zombie = record zeroed {
  p_status = p_zombie;
  p_pid = 6;
  p_pptr = some 0;
  p_exitval = 256;
  p_wait = 40;
  p_priority = 2;
  p_pending = 7;
}

abbrev family : Kernel
family = record disk_kernel { ptab = parent ∷ zombie ∷ [] }

first_zombie : IsFirstZombie 0 (family.ptab) 1 zombie
first_zombie = record { at = refl; zombie = refl; parent = refl; first = no_earlier }
  where
    no_earlier :
        (j : ℕ) (q : PTab)
        → j < 1
        → get_elem? (family.ptab) j ≡ some q
        → q.p_status ≡ p_zombie
        → q.p_pptr ≢ some 0
    no_earlier zero q lt h s = let e : parent ≡ q = cc in rw (sym e) (λ c. cc)
    no_earlier (suc j) q lt h s = absurd (omega arith)

wait-reaps_example : Returns (wait [] 30000 family) (λ r k'.
    (r ≡ 6)
    × (k'.ptab ≡ parent ∷ record zombie { p_status = p_empty } ∷ [])
    × (◌≢◌ {A = ℕ} 30000 0 → k'.memory ≡ store (family.memory) 30000 (0 ∷ 1 ∷ []))
    × IsSum k'.udata.u_cutime (family.udata.u_cutime) (record { t_time = 40; t_date = 2 })
    × IsSum k'.udata.u_cstime (family.udata.u_cstime) (record { t_time = 7; t_date = 0 })
    × (k'.udata
        ≡ record (family.udata) { u_cutime = k'.udata.u_cutime; u_cstime = k'.udata.u_cstime }))
wait-reaps_example =
    wait-reaps [] family 30000 1 parent zombie (omega arith) refl refl refl
      (λ e. absurd (omega arith)) first_zombie
      (record { first = omega arith; second = omega arith; minutes = omega arith })
      (record { first = omega arith; second = omega arith; minutes = omega arith })

-- A process all of whose descriptors name one open file.
abbrev full : Kernel
full = record family {
  ptab = parent ∷ forking 7 ∷ [];
  udata = record user { u_files = 0 ∷ 0 ∷ [] };
}

newproc-shares_example : Returns (newproc 1 full) (λ r k'.
    (get_elem? k'.ptab 1
      ≡ some (record (forking 7) {
        p_swap = 66;
        p_status = p_running;
        p_pptr = some 0;
        p_ignored = 0;
        p_uid = 0;
      }))
    × ((j : ℕ) → 1 ≢ j → get_elem? k'.ptab j ≡ get_elem? (full.ptab) j)
    × (get_elem? k'.i_tab 0 ≡ some (record dir { c_refs = 2 }))
    × (k'.udata ≡ record (full.udata) {
      u_ptab = 1;
      u_utime = record { t_time = 0; t_date = 0 };
      u_stime = record { t_time = 0; t_date = 0 };
      u_cutime = record { t_time = 0; t_date = 0 };
      u_cstime = record { t_time = 0; t_date = 0 };
      u_time = full.tod;
      u_cursig = 0;
      u_error = 0;
    })
    × ((j : ℕ) (o : Oft)
        → get_elem? (full.of_tab) j ≡ some o
        → o.o_refs < 256
        → get_elem? k'.of_tab j ≡ some (shared (occurrences j (0 ∷ 0 ∷ [])) o)))
newproc-shares_example =
    newproc-shares full 1 (forking 7) parent dir refl refl refl (omega arith)
      ((opened, refl), ((opened, refl), tt))

newproc-unused_example : newproc 1 (record full { udata = user }) ≡ wild
newproc-unused_example =
    newproc-unused (record full { udata = user }) 1 0 (forking 7) parent dir refl refl refl
      (omega arith) refl refl

-- The first process, a shell in slot 1, and a child of it that runs.
abbrev first : PTab
first = record zeroed { p_status = p_ready; p_pid = 1 }

abbrev shell : PTab
shell = record zeroed { p_status = p_ready; p_pid = 5; p_pptr = some 0 }

abbrev runner : PTab
runner = record zeroed { p_status = p_running; p_pid = 6; p_pptr = some 1 }

abbrev shared_dir : Cinode
shared_dir = record dir { c_refs = 3 }

abbrev running : Kernel
running = record disk_kernel {
  ptab = first ∷ shell ∷ runner ∷ [];
  i_tab = shared_dir ∷ [];
  udata = record user {
    u_ptab = 2;
    u_utime = record { t_time = 599; t_date = 1 };
    u_cutime = record { t_time = 3; t_date = 0 };
  };
}

abbrev shell_user : UData
shell_user = record user { u_ptab = 1 }

get_elem?-replicate : (n i v : ℕ) → i < n → get_elem? (replicate n v) i ≡ some v
get_elem?-replicate zero i v p = absurd (omega arith)
get_elem?-replicate (suc n) zero v p = refl
get_elem?-replicate (suc n) (suc i) v p = get_elem?-replicate n i v (omega arith)

none_open : (i : ℕ) → i < 10 → get_elem? (running.udata.u_files) i ≡ some 255
none_open i p = get_elem?-replicate 10 i 255 p

runner-IsLeaving : IsLeaving running 1 runner shared_dir
unfolding getmode
runner-IsLeaving = record {
  at = refl;
  running = refl;
  parent = refl;
  other = λ e. absurd (omega arith);
  not_first = λ e. absurd (omega arith);
  closed = none_open;
  directory = refl;
  sound = refl;
  shared = omega arith;
  plain = refl;
}

no_zombie :
    (j : ℕ) (q : PTab)
    → j < 2
    → get_elem? (running.ptab) j ≡ some q
    → q.p_status ≡ p_zombie
    → q.p_pptr ≢ some 1
no_zombie zero q lt h s = let e : first ≡ q = cc in absurd (let t = rw (sym e) at s in omega arith)
no_zombie (suc zero) q lt h s =
    let e : shell ≡ q = cc in absurd (let t = rw (sym e) at s in omega arith)
no_zombie (suc (suc j)) q lt h s = absurd (omega arith)

doexit-wait_example :
    (k' : Kernel) × (doexit 3 0 running ≡ left k')
    × Returns (wait [] 30000 (record k' { udata = shell_user; memory = λ a. 0 })) (λ pid k''.
      (pid ≡ 6)
      × (◌≢◌ {A = ℕ} 30000 0 → k''.memory ≡ store (λ a. 0) 30000 (0 ∷ 3 ∷ []))
      × IsSum3 k''.udata.u_cutime
          (shell_user.u_cutime)
          (running.udata.u_utime)
          (running.udata.u_cutime)
      × IsSum3 k''.udata.u_cstime
          (shell_user.u_cstime)
          (running.udata.u_stime)
          (running.udata.u_cstime)
      × (k''.udata
          ≡ record shell_user { u_cutime = k''.udata.u_cutime; u_cstime = k''.udata.u_cstime })
      × ((q : PTab) × (get_elem? k''.ptab 2 ≡ some q) × (q.p_status ≡ p_empty)))
doexit-wait_example =
    doexit-wait [] running 3 0 30000 runner shell shared_dir shell_user (λ a. 0) runner-IsLeaving
      refl refl refl (λ e. absurd (omega arith)) (omega arith) no_zombie
      (record {
        first = omega arith;
        second = omega arith;
        third = omega arith;
        minutes = omega arith;
      })
      (record {
        first = omega arith;
        second = omega arith;
        third = omega arith;
        minutes = omega arith;
      })

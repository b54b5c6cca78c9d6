-- ===== src/Tests/Processes.antt =====
-- The process table and the clock of uzi-nes-port/kernel/process.c and kernel/time.c on small tables.
use uzi_build.Prelude.{
  ℕ, zero, suc, ◌<◌, ◌≤◌, ◌≡◌, refl, ◌≢◌, false, List, [], ◌∷◌, none, some, arith, get_elem?,
}
use uzi_build.Kernel.{PTab}
use uzi_build.Process.{
  zeroed, p_forking, empty_slot, pid_taken, ptab_alloc, getproc, chosen, status_at, p_empty,
  p_running, p_ready, p_sleep,
}
use uzi_build.Process.Alloc.{ptab_alloc_new}
use uzi_build.Process.Schedule.{visited, getproc_round_robin}

-- A process with a status and a number.
abbrev proc : ℕ → ℕ → PTab
proc status pid = record zeroed { p_status = status; p_pid = pid }

-- Number 6 is in use, and the second slot is not.
abbrev table : List PTab
table = proc p_sleep 6 ∷ proc p_empty 7 ∷ proc p_ready 8 ∷ []

ptab_alloc_new_example :
    (pid : ℕ) × (ps' : List PTab) × (ptab_alloc 5 table ≡ some (1, pid, ps'))
    × (pid_taken pid table ≡ false)
    × ((0 < pid) × (pid ≤ 32001))
    × ((p : PTab) × (get_elem? table 1 ≡ some p) × (p.p_status ≡ p_empty))
    × (get_elem? ps' 1
        ≡ some (record {
          p_status = p_forking;
          p_pid = pid;
          p_uid = 0;
          p_pptr = none;
          p_swap = 0;
          p_alarm = 0;
          p_exitval = 0;
          p_wait = 0;
          p_priority = 0;
          p_pending = 0;
          p_ignored = 0;
        }))
    × ((j : ℕ) → 1 ≢ j → get_elem? ps' j ≡ get_elem? table j)
unfolding empty_slot
ptab_alloc_new_example = ptab_alloc_new 5 1 table refl (omega arith) (omega arith)

none_runs : (i : ℕ) → status_at table i ≢ p_running
none_runs zero e = absurd (omega arith)
none_runs (suc zero) e = absurd (omega arith)
none_runs (suc (suc zero)) e = absurd (omega arith)
none_runs (suc (suc (suc i))) e = absurd (omega arith)

getproc_round_robin_example :
    (r : ℕ) × (r < 3)
    × (getproc 3 2 table ≡ chosen (visited 3 2 r))
    × (status_at table (visited 3 2 r) ≡ p_ready)
    × ((q : ℕ) → q < r → status_at table (visited 3 2 q) ≢ p_ready)
getproc_round_robin_example =
    getproc_round_robin table 2 2 (omega arith) none_runs (omega arith) refl

-- ===== src/Process/Death.antt =====
-- The end of a process: `doexit` and `_wait` of uzi-nes-port/kernel/scall2.c, with `chksigs` of
-- kernel/process.c where it ends the process.
pub mod Reaping
pub mod Exit
pub mod Collect
pub mod Childless
use uzi_build.Prelude.{
  ℕ, zero, suc, ◌+◌, ◌*◌, ◌%◌, Bool, true, false, not, ◌&&◌, ◌||◌, List, [], ◌∷◌, Option, none,
  some, map, ◌==◌, ltb, if◌then◌else◌, get_elem?, bit_and, bit_or, minus_one,
}
use uzi_build.Kernel.{
  Kernel, PTab, UData, Time, M, pure, left, gets, modify, set_error, ◌>>=◌, ◌>>◌,
}
use uzi_build.Kernel.Bytes.{bytes_of_words}
use uzi_build.Kernel.Memory.{put_bytes, efault}
use uzi_build.Clock.{addtick}
use uzi_build.Inode.Blocks.{i_deref}
use uzi_build.Files.Table.{uftsize, is_unused}
use uzi_build.Files.Calls.{put_udata, file_at, doclose}
use uzi_build.Process.{p_empty, p_zombie, wakeup}
use uzi_build.Process.Birth.{slot_at, put_slot, with_status}
use uzi_build.Process.Waiting.{Others, slot_address, sleep_loop}
use uzi_build.Signals.{Checked, killed, goes_on, chksigs}
use mathlib.Core.Option

abbrev pub eintr : ℕ
eintr = 4

abbrev pub echild : ℕ
echild = 10

-- The descriptors from `j` on, over `n` of them.
pub close_files : ℕ → ℕ → M (Unit {0})
close_files j zero = pure tt
close_files j (suc n) = do
  f ← file_at j
  if is_unused f then pure tt else doclose j >> pure tt
  close_files (j + 1) n

-- `p->p_pptr == udata.u_ptab`
abbrev pub is_child : ℕ → PTab → Bool
is_child self p = elim p.p_pptr [ none ↦ false | some parent ↦ parent == self ]

-- A child of a process that exits becomes one of the first process.
abbrev pub adopt : ℕ → ℕ → PTab → PTab
adopt self init p =
    if not (p.p_status == p_empty) && is_child self p then record p { p_pptr = some init } else p

-- `(val << 8) | (val2 & 0xff)`
abbrev pub exit_value : ℕ → ℕ → ℕ
exit_value val val2 = bit_or (val * 256 % 65536) (bit_and val2 255)

-- The process's own times with its children's, over the entry from `p_wait` on.
abbrev pub with_times : Time → Time → PTab → PTab
with_times utime stime p = record p {
  p_wait = utime.t_time;
  p_priority = utime.t_date;
  p_pending = stime.t_time;
  p_ignored = stime.t_date;
}

abbrev pub summed : UData → UData
summed u = record u {
  u_utime = addtick u.u_utime u.u_cutime;
  u_stime = addtick u.u_stime u.u_cstime;
}

-- The address of a parent's entry, 0 for none.
abbrev pub parent_event : Kernel → PTab → ℕ
parent_event k p = elim p.p_pptr [ none ↦ 0 | some i ↦ slot_address k i ]

-- The process does not come back: what it leaves is what the next process finds. The choice of that
-- process and the switch to it, `swapin(getproc())`, leave these tables alone but for its status.
pub doexit : ℕ → ℕ → M (Unit {0})
doexit val val2 = do
  close_files 0 uftsize
  self ← gets (λ k. k.udata.u_ptab)
  p ← slot_at self
  modify (put_slot self (record p { p_exitval = exit_value val val2 }))
  modify (λ k. record k { ptab = map (adopt self k.initproc) k.ptab })
  cwd ← gets (λ k. k.udata.u_cwd)
  i_deref cwd
  modify (λ k. put_udata (summed k.udata) k)
  q ← slot_at self
  modify (λ k. put_slot self (with_times k.udata.u_utime k.udata.u_stime q) k)
  modify
      (λ k. if self == k.initproc then k else record k { ptab = wakeup (parent_event k q) k.ptab })
  modify (with_status self p_zombie)
  (λ k. left k)

-- What `chksigs` has found is done: a signal without a handler ends the process.
obey : UData → PTab → Checked → M (Unit {0})
obey u p (killed sig) = doexit 0 sig
obey u p (goes_on pending cursig) = do
  modify (put_slot u.u_ptab (record p { p_pending = pending }))
  modify (put_udata (record u { u_cursig = cursig }))

pub check_signals : M (Unit {0})
check_signals = do
  u ← gets (λ k. k.udata)
  p ← slot_at u.u_ptab
  obey u p (chksigs u.u_sigvec p.p_pending u.u_cursig)

-- Whether the process in slot `self` has a child in the slots from `i` on.
pub has_child : ℕ → ℕ → List PTab → Bool
has_child self i [] = false
has_child self i (p ∷ ps) =
    not (p.p_status == p_empty) && is_child self p && not (i == self) || has_child self (suc i) ps

-- The first child that has exited.
pub find_zombie : ℕ → List PTab → Option ℕ
find_zombie self [] = none
find_zombie self (p ∷ ps) =
    if p.p_status == p_zombie && is_child self p
    then some 0
    else Option.map suc (find_zombie self ps)

-- The times that `doexit` left in the entry.
abbrev pub child_utime : PTab → Time
child_utime p = record { t_time = p.p_wait; t_date = p.p_priority }

abbrev pub child_stime : PTab → Time
child_stime p = record { t_time = p.p_pending; t_date = p.p_ignored }

abbrev pub charged : PTab → UData → UData
charged p u = record u {
  u_cutime = addtick u.u_cutime (child_utime p);
  u_cstime = addtick u.u_cstime (child_stime p);
}

-- A child's slot is given up: its number.
pub reap : ℕ → ℕ → M ℕ
reap statloc i = do
  p ← slot_at i
  modify (λ k. if statloc == 0 then k else put_bytes statloc (bytes_of_words (p.p_exitval ∷ [])) k)
  modify (put_slot i (record p { p_status = p_empty }))
  modify (λ k. put_udata (charged p k.udata) k)
  pure p.p_pid

-- One round of the loop of `_wait`: its result, or nothing to wait on.
pub wait_round : ℕ → M (Option ℕ)
wait_round statloc = do
  check_signals
  u ← gets (λ k. k.udata)
  if not (u.u_cursig == 0) then modify (set_error eintr) >> pure (some minus_one) else do
    child ← gets (λ k. find_zombie u.u_ptab k.ptab)
    elim child [ none ↦ pure none | some i ↦ reap statloc i >>= (λ pid. pure (some pid)) ]

pub wait : Others → ℕ → M ℕ
wait others statloc = do
  k ← gets (λ k. k)
  let self = k.udata.u_ptab
  if ltb k.udata_at statloc
      then modify (set_error efault) >> pure minus_one
      else if not (has_child self 0 k.ptab)
      then modify (set_error echild) >> pure minus_one
      else sleep_loop (wait_round statloc) (slot_address k self) others

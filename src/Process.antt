-- ===== src/Process.antt =====
-- The process table of uzi-nes-port/kernel/process.c: `ptab_alloc`, `getproc`, `newproc`, `psleep` and
-- `wakeup`. A table entry is its index in `ptab`, and an event is an address, 0 for none.
-- What a routine does to the table is a function of the table; the exchange of memory images and
-- stacks with the swap device (`swrite`, `swapin`, `tempstack`) is not part of it.
pub mod Alloc
pub mod Schedule
pub mod Sleep
pub mod Waiting
pub mod Birth
pub mod Death
pub mod Account
use uzi_build.Prelude.{
  ℕ, zero, suc, ◌+◌, ◌*◌, ◌-◌, Bool, true, false, not, ◌&&◌, ◌||◌, List, [], ◌∷◌, Option, none,
  some, map, ltb, leb, ◌==◌, if◌then◌else◌, add16, add8, length, get_elem?, set,
}
use uzi_build.Kernel.{
  PTab, Time, UData, Kernel, Oft, M, Run, wild, ok, then_run, ◌>>=◌, pure, entry, modify,
}
use mathlib.Core.Option

abbrev pub ptabsize : ℕ
ptabsize = 20

abbrev pub p_empty : ℕ
p_empty = 0

abbrev pub p_running : ℕ
p_running = 1

abbrev pub p_ready : ℕ
p_ready = 2

abbrev pub p_sleep : ℕ
p_sleep = 3

abbrev pub p_xsleep : ℕ
p_xsleep = 4

abbrev pub p_pause : ℕ
p_pause = 5

abbrev pub p_forking : ℕ
p_forking = 6

abbrev pub p_wait_status : ℕ
p_wait_status = 7

abbrev pub p_zombie : ℕ
p_zombie = 8

-- The first unused slot.
unfoldable pub empty_slot : List PTab → Option ℕ
empty_slot [] = none
empty_slot (p ∷ ps) = if p.p_status == p_empty then some 0 else Option.map suc (empty_slot ps)

-- `if (nextpid++ > 32000) nextpid = 1;`
abbrev pub next_pid : ℕ → ℕ
next_pid n = if ltb 32000 n then 1 else n + 1

-- Whether a process has this number.
pub pid_taken : ℕ → List PTab → Bool
pid_taken n [] = false
pid_taken n (p ∷ ps) = not (p.p_status == p_empty) && p.p_pid == n || pid_taken n ps

-- The loop at `nogood`, which tries one number after another; `none` when the fuel is used up.
pub free_pid : ℕ → ℕ → List PTab → Option ℕ
free_pid zero n ps = none
free_pid (suc fuel) n ps =
    let again = free_pid fuel (next_pid n) ps in
    if pid_taken (next_pid n) ps then again else some (next_pid n)

-- `bzero` of an entry.
abbrev pub zeroed : PTab
zeroed = record {
  p_status = 0;
  p_pid = 0;
  p_uid = 0;
  p_pptr = none;
  p_swap = 0;
  p_alarm = 0;
  p_exitval = 0;
  p_wait = 0;
  p_priority = 0;
  p_pending = 0;
  p_ignored = 0;
}

-- The entry that `ptab_alloc` fills in.
abbrev pub forking : ℕ → PTab
forking pid = record zeroed { p_pid = pid; p_status = p_forking }

-- The slot, the new value of the static `nextpid` and the new table, or nothing for a null pointer.
-- One more try than the table has entries is enough.
pub ptab_alloc : ℕ → List PTab → Option (ℕ × ℕ × List PTab)
unfolding Option.bind
ptab_alloc nextpid ps = Option.bind (empty_slot ps) λ slot.
    Option.bind (free_pid (length ps + 1) nextpid ps)
      λ pid. some (slot, pid, set ps slot (forking pid))

-- What one call of the scheduler comes to: a slot, a panic ("extra running"), or still looking after
-- the rounds given.
pub data Pick : Type 0 where
  chosen : ℕ → Pick
  extra_running : Pick
  looking : Pick

-- `if (++pp >= ptab + PTABSIZE) pp = ptab;`
abbrev pub next_slot : ℕ → List PTab → ℕ
next_slot pp ps = if leb (length ps) (pp + 1) then 0 else pp + 1

abbrev pub status_at : List PTab → ℕ → ℕ
status_at ps i = elim (get_elem? ps i) [ none ↦ p_empty | some p ↦ p.p_status ]

-- `getproc` from its static pointer on, for a number of rounds of its loop.
pub getproc : ℕ → ℕ → List PTab → Pick
getproc zero pp ps = looking
getproc (suc rounds) pp ps =
    let again = getproc rounds (next_slot pp ps) ps in
    if status_at ps (next_slot pp ps) == p_running
    then extra_running
    else if status_at ps (next_slot pp ps) == p_ready
    then chosen (next_slot pp ps)
    else again

-- The status in which `psleep` leaves the running process; `self` is the address of its own entry.
abbrev pub asleep : ℕ → ℕ → ℕ
asleep self event = if event == 0 then p_pause else if event == self then p_wait_status else p_sleep

-- Nothing stands for the panic "psleep: voodoo".
unfoldable pub psleep : ℕ → ℕ → PTab → Option PTab
psleep self event p =
    if p.p_status == p_running
    then some (record p { p_status = asleep self event; p_wait = event })
    else none

abbrev pub woken : ℕ → PTab → PTab
woken event p =
    if ltb p_running p.p_status && p.p_wait == event
    then record p { p_status = p_ready; p_wait = 0 }
    else p

unfoldable pub wakeup : ℕ → List PTab → List PTab
wakeup event = map (woken event)

-- The entry of a new child: `slot` is its index, `parent` that of the running process.
abbrev pub child : ℕ → ℕ → PTab → PTab → PTab
child slot parent pp p = record p {
  p_swap = slot * 65 + 1;
  p_status = p_running;
  p_pptr = some parent;
  p_ignored = pp.p_ignored;
  p_uid = pp.p_uid;
}

-- ===== src/Signals.antt =====
-- Signals: `ssig`, `sendsig` and `chksigs` of uzi-nes-port/kernel/process.c, the system calls `_signal`,
-- `_kill` and `_alarm` of kernel/scall2.c, and the clock interrupt `clk_int` of kernel/interrupts.c,
-- whose parts for the keyboard and for `runticks` are compiled out.
pub mod Send
pub mod Check
pub mod Handlers
pub mod Alarm
use uzi_build.Prelude.{
  ℕ, zero, suc, ◌+◌, ◌-◌, ◌^◌, Bool, true, false, not, ◌&&◌, ◌||◌, List, [], ◌∷◌, Option, none,
  some, map, ltb, leb, ◌==◌, if◌then◌else◌, add16, bit_and, bit_or, signed_lt, get_or, get_elem?,
  set,
}
use uzi_build.Kernel.{PTab, Time, UData, Kernel}
use uzi_build.Process.{p_empty, p_running, p_ready, p_sleep, p_pause, p_wait_status}
use uzi_build.Clock.{ticks_per_sec, incrtick, rdtod}
use mathlib.Core.Option

abbrev pub nsigs : ℕ
nsigs = 16

abbrev pub sigkill : ℕ
sigkill = 9

abbrev pub sigalrm : ℕ
sigalrm = 14

abbrev pub sig_dfl : ℕ
sig_dfl = 0

abbrev pub sig_ign : ℕ
sig_ign = 1

abbrev pub efault : ℕ
efault = 14

abbrev pub einval : ℕ
einval = 22

-- `1 << sig` for a signal below 16.
abbrev pub sigmask : ℕ → ℕ
sigmask sig = 2 ^ sig

abbrev pub sleeps : PTab → Bool
sleeps p = p.p_status == p_pause || p.p_status == p_wait_status || p.p_status == p_sleep

pub ssig : PTab → ℕ → PTab
ssig p sig =
    if p.p_status == p_empty
    then p
    else if not (bit_and p.p_ignored (sigmask sig) == 0)
    then p
    else record p {
      p_status = if sleeps p then p_ready else p.p_status;
      p_wait = 0;
      p_pending = bit_or p.p_pending (sigmask sig);
    }

-- `set` at an entry that is there.
abbrev pub update_at : List PTab → ℕ → (PTab → PTab) → List PTab
update_at ps i f = elim (get_elem? ps i) [ none ↦ ps | some p ↦ set ps i (f p) ]

-- No entry stands for a null pointer: the signal goes to every process.
pub sendsig : Option ℕ → ℕ → List PTab → List PTab
sendsig (some i) sig ps = update_at ps i (λ p. ssig p sig)
sendsig none sig ps = map (λ p. if p.p_status == 0 then p else ssig p sig) ps

-- `!m` of C.
abbrev pub c_not : ℕ → ℕ
c_not m = if m == 0 then 1 else 0

-- `chksigs` ends the process by the signal, or leaves new values of `p_pending` and `u_cursig`.
pub data Checked : Type 0 where
  killed : ℕ → Checked
  goes_on : ℕ → ℕ → Checked

-- The loop from signal `j` on, for a number of signals.
pub chksigs_from : ℕ → ℕ → List ℕ → ℕ → ℕ → Checked
chksigs_from zero j sigvec pending cursig = goes_on pending cursig
chksigs_from (suc n) j sigvec pending cursig =
    let skip = chksigs_from n (j + 1) sigvec pending cursig in
    let caught = chksigs_from n (j + 1) sigvec (bit_and pending (c_not (sigmask j))) j in
    if bit_and (sigmask j) pending == 0
    then skip
    else if get_or sigvec j 0 == sig_dfl
    then killed j
    else if get_or sigvec j 0 == sig_ign
    then skip
    else caught

unfoldable pub chksigs : List ℕ → ℕ → ℕ → Checked
chksigs sigvec pending cursig =
    if pending == 0 then goes_on pending cursig else chksigs_from 15 1 sigvec pending cursig

-- A system call that changes the entry and the handlers of the running process: the error number, or
-- the result.
pub data Reply : Type 0 where
  fails : ℕ → Reply
  returns : ℕ → PTab → List ℕ → Reply

-- `func` is an address; `progbase` and `udata_at` bound the user's memory.
pub signal : ℕ → ℕ → PTab → List ℕ → ℕ → ℕ → Reply
signal progbase udata_at p sigvec sig func =
    if signed_lt sig 1 || sig == sigkill || not (signed_lt sig nsigs)
    then fails einval
    else if func == sig_ign
    then returns (get_or sigvec sig 0) (record p { p_ignored = bit_or p.p_ignored (sigmask sig) })
        (set sigvec sig func)
    else if not (func == sig_dfl) && (ltb func progbase || leb udata_at func)
    then fails efault
    else returns (get_or sigvec sig 0)
        (record p { p_ignored = bit_and p.p_ignored (65535 - sigmask sig) }) (set sigvec sig func)

-- The first entry with the number, whatever its status.
pub find_pid : ℕ → List PTab → Option ℕ
find_pid pid [] = none
find_pid pid (p ∷ ps) = if p.p_pid == pid then some 0 else Option.map suc (find_pid pid ps)

-- Nothing stands for -1 with EINVAL.
pub kill : ℕ → ℕ → List PTab → Option (List PTab)
unfolding Option.bind
kill pid sig ps =
    if not (signed_lt 0 sig) || signed_lt 15 sig
    then none
    else Option.bind (find_pid pid ps) λ i. some (sendsig (some i) sig ps)

-- The old value, and the entry with the new one.
pub alarm : ℕ → PTab → ℕ × PTab
alarm secs p = (p.p_alarm, record p { p_alarm = secs })

-- One entry at a full second.
pub alarm_tick : PTab → PTab
alarm_tick p =
    if p.p_alarm == 0
    then p
    else let p' = record p { p_alarm = p.p_alarm - 1 } in
      if p'.p_alarm == 0 then ssig p' sigalrm else p'

-- The counters of kernel/interrupts.c and kernel/kdata.c that the clock interrupt moves.
pub record Clocks : Type 0 where
  pub clk_int_count : ℕ
  pub tick_count : ℕ
  pub sec : ℕ
  pub ticks : Time
  pub tod : Time
  pub u_utime : Time
  pub u_stime : Time

abbrev pub ints_per_tick : ℕ
ints_per_tick = 6

-- One tick, with the status of the running process and `u_insys`.
clock_tick : ℕ → ℕ → Clocks → Clocks
clock_tick status insys c = record c {
  clk_int_count = 0;
  tick_count = add16 c.tick_count 1;
  u_stime = if status == p_running && not (insys == 0) then incrtick c.u_stime else c.u_stime;
  u_utime = if status == p_running && insys == 0 then incrtick c.u_utime else c.u_utime;
  ticks = incrtick c.ticks;
}

-- The once-per-second part.
second : Clocks → List PTab → Clocks × List PTab
second c ps = (
  record c { sec = 0; tod = elim (rdtod c.tick_count) [ none ↦ c.tod | some t ↦ t ] },
  map alarm_tick ps,
)

pub clk_int : ℕ → ℕ → Clocks → List PTab → Clocks × List PTab
unfolding clock_tick second
clk_int status insys c ps =
    if ltb c.clk_int_count ints_per_tick
    then (record c { clk_int_count = c.clk_int_count + 1 }, ps)
    else let c' = clock_tick status insys c in
      if add16 c'.sec 1 == ticks_per_sec
      then second c' ps
      else (record c' { sec = add16 c'.sec 1 }, ps)

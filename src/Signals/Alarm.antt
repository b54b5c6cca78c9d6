-- ===== src/Signals/Alarm.antt =====
-- Alarms and the clock interrupt of uzi-nes-port/kernel/interrupts.c.
use uzi_build.Prelude.{
  ℕ, zero, suc, ◌+◌, ◌-◌, ◌≤◌, ◌≡◌, refl, ◌≢◌, true, List, arith, digit, add16, ltb, ap, ◌∙◌,
}
use uzi_build.Kernel.{PTab}
use uzi_build.Process.{p_empty}
use uzi_build.Signals.{sigalrm, alarm_tick, ssig, Clocks, clk_int, ints_per_tick}
use uzi_build.Signals.Send.{ssig-pending, ssig-alarm}

-- The entry of a process after some full seconds.
pub seconds_later : ℕ → PTab → PTab
seconds_later zero p = p
seconds_later (suc n) p = seconds_later n (alarm_tick p)

alarm_tick_later :
    (p : PTab) (n : ℕ) → p.p_alarm ≡ suc (suc n) → alarm_tick p ≡ record p { p_alarm = suc n }
unfolding alarm_tick
alarm_tick_later p n h = ground arith

alarm_tick_due : (p : PTab) → p.p_alarm ≡ 1 → alarm_tick p ≡ ssig (record p { p_alarm = 0 }) sigalrm
unfolding alarm_tick
alarm_tick_due p h = ground arith

seconds_later-before :
    (m n : ℕ) (p : PTab)
    → p.p_alarm ≡ suc n
    → m ≤ n
    → seconds_later m p ≡ record p { p_alarm = suc n - m }
unfolding seconds_later
seconds_later-before zero n p set early = ground arith
seconds_later-before (suc m) zero p set early = absurd (omega arith)
seconds_later-before (suc m) (suc n) p set early = rw (alarm_tick_later p n set) (
    seconds_later-before m n (record p { p_alarm = suc n }) refl (omega arith)
    ∙ ap (λ a. record p { p_alarm = a }) (omega arith))

seconds_later-due :
    (n : ℕ) (p : PTab)
    → p.p_alarm ≡ suc n
    → seconds_later (suc n) p ≡ ssig (record p { p_alarm = 0 }) sigalrm
unfolding seconds_later
seconds_later-due zero p set = alarm_tick_due p set
seconds_later-due (suc n) p set =
    rw (alarm_tick_later p n set) (seconds_later-due n (record p { p_alarm = suc n }) refl)

-- A living process that does not ignore SIGALRM and has set its alarm to `n + 1` seconds: in the full
-- seconds before number `n + 1` only the alarm clock runs down, and in that one it stops at 0 and
-- SIGALRM is pending.
pub alarm_fires :
    (m n : ℕ) (p : PTab)
    → p.p_alarm ≡ suc n
    → m ≤ n
    → p.p_status ≢ p_empty
    → digit p.p_ignored sigalrm ≡ 0
    → (seconds_later m p ≡ record p { p_alarm = suc n - m })
      × (digit (seconds_later (suc n) p).p_pending sigalrm ≡ 1)
      × ((seconds_later (suc n) p).p_alarm ≡ 0)
alarm_fires m n p set early alive heard =
    let at_zero = record p { p_alarm = 0 } in
    (
      seconds_later-before m n p set early,
      rw (seconds_later-due n p set)
          (ssig-pending (record p { p_alarm = 0 }) sigalrm 0 alive heard
            (λ e. absurd (omega arith))).0,
      rw (seconds_later-due n p set) (ssig-alarm (record p { p_alarm = 0 }) sigalrm),
    )

-- The counters after some clock interrupts in one state of the running process.
pub interrupts : ℕ → ℕ → ℕ → Clocks → List PTab → Clocks × List PTab
interrupts zero status insys c ps = (c, ps)
interrupts (suc n) status insys c ps =
    let (c', ps') = clk_int status insys c ps in interrupts n status insys c' ps'

early_interrupts :
    (n status insys : ℕ) (c : Clocks) (ps : List PTab)
    → c.clk_int_count + n ≤ ints_per_tick
    → interrupts n status insys c ps ≡ (record c { clk_int_count = c.clk_int_count + n }, ps)
unfolding interrupts clk_int
early_interrupts zero status insys c ps h =
    ap (λ n. (record c { clk_int_count = n }, ps)) (omega arith)
early_interrupts (suc n) status insys c ps h =
    let early : ltb c.clk_int_count ints_per_tick ≡ true = ground arith in
    rw early (
      early_interrupts n status insys (record c { clk_int_count = c.clk_int_count + 1 }) ps
        (omega arith)
      ∙ ap (λ k. (record c { clk_int_count = k }, ps)) (omega arith))

late_interrupt :
    (status insys : ℕ) (c : Clocks) (ps : List PTab)
    → c.clk_int_count ≡ ints_per_tick
    → let c' = (clk_int status insys c ps).0 in
      (c'.clk_int_count ≡ 0) × (c'.tick_count ≡ add16 c.tick_count 1)
unfolding clk_int
late_interrupt status insys c ps h = ground arith

interrupts-suc :
    (n status insys : ℕ) (c : Clocks) (ps : List PTab)
    → interrupts (suc n) status insys c ps
      ≡ (let (c', ps') = interrupts n status insys c ps in clk_int status insys c' ps')
unfolding interrupts
interrupts-suc zero status insys c ps = refl
interrupts-suc (suc n) status insys c ps =
    let (c', ps') = clk_int status insys c ps in interrupts-suc n status insys c' ps'

-- After a tick, six clock interrupts only count up; it is the seventh that makes the next tick, though
-- INTS_PER_TICK is 6.
pub interrupts_per_tick :
    (status insys : ℕ) (c : Clocks) (ps : List PTab)
    → c.clk_int_count ≡ 0
    → (interrupts ints_per_tick status insys c ps
        ≡ (record c { clk_int_count = ints_per_tick }, ps))
      × (let c' = (interrupts (suc ints_per_tick) status insys c ps).0 in
          (c'.clk_int_count ≡ 0) × (c'.tick_count ≡ add16 c.tick_count 1))
interrupts_per_tick status insys c ps start =
    let six : interrupts ints_per_tick status insys c ps
        ≡ (record c { clk_int_count = ints_per_tick }, ps) =
      early_interrupts ints_per_tick status insys c ps (omega arith)
      ∙ ap (λ k. (record c { clk_int_count = k }, ps)) (omega arith) in
    (
      six,
      rw (interrupts-suc ints_per_tick status insys c ps, six)
          (late_interrupt status insys (record c { clk_int_count = ints_per_tick }) ps refl),
    )

-- ===== src/Signals/Send.antt =====
-- `ssig` of uzi-nes-port/kernel/process.c: what a signal does to a process table entry.
use uzi_build.Prelude.{
  ℕ, zero, suc, ◌<◌, ◌≡◌, refl, ◌≢◌, true, false, arith, ◌==◌, if◌then◌else◌, bit_and, ◌^◌, digit,
  digit-bit_or, digit_pow_self, digit_pow_ne, bit_and_pow, max, sym, ◌/◌,
}
use native.Mathlib.Nat.{pow-suc}
use uzi_build.Kernel.{PTab}
use uzi_build.Process.{p_empty, p_ready}
use uzi_build.Signals.{sigmask, sleeps, ssig}

pub pow-pos : (i : ℕ) → 0 < 2 ^ i
pow-pos zero = omega arith
pow-pos (suc i) = omega (arith, pow-suc 2 i, pow-pos i)

-- A mask is tested by a digit.
pub masked : (x sig : ℕ) → digit x sig ≡ 0 → (bit_and x (sigmask sig) == 0) ≡ true
masked x sig h =
    let value : bit_and x (sigmask sig) ≡ 0 = rw (bit_and_pow x sig, h) (omega arith) in rw value

pub masked_not : (x sig : ℕ) → digit x sig ≡ 1 → (bit_and x (sigmask sig) == 0) ≡ false
masked_not x sig h =
    let value : bit_and x (sigmask sig) ≡ 2 ^ sig = rw (bit_and_pow x sig, h) (omega arith) in
    ground (arith, value, pow-pos sig)

digit-max_one : (x i : ℕ) → max (digit x i) 1 ≡ 1
digit-max_one x zero = omega arith
digit-max_one x (suc i) = digit-max_one (x / 2) i

-- A signal that a living process does not ignore becomes pending for it, and leaves the other pending
-- signals as they were; the process waits for no event any more, is made ready if it slept in a
-- way that signals end, and keeps its status if not.
pub ssig-pending :
    (p : PTab) (sig other : ℕ)
    → p.p_status ≢ p_empty
    → digit p.p_ignored sig ≡ 0
    → other ≢ sig
    → let q = ssig p sig in
      (digit q.p_pending sig ≡ 1)
      × (digit q.p_pending other ≡ digit p.p_pending other)
      × (q.p_wait ≡ 0)
      × (q.p_status ≡ (if sleeps p then p_ready else p.p_status))
unfolding ssig
ssig-pending p sig other alive heard ne =
    let living : (p.p_status == p_empty) ≡ false = ground arith in
    rw (living, masked p.p_ignored sig heard)
      (
        rw (digit-bit_or p.p_pending (2 ^ sig) sig, digit_pow_self sig)
            (digit-max_one p.p_pending sig),
        rw (digit-bit_or p.p_pending (2 ^ sig) other, digit_pow_ne sig other (λ e. ne (sym e)))
            (omega arith),
        refl,
        refl,
      )

-- A signal changes nothing in a slot that is unused or of a process that ignores it.
pub ssig-ignored : (p : PTab) (sig : ℕ) → digit p.p_ignored sig ≡ 1 → ssig p sig ≡ p
unfolding ssig
ssig-ignored p sig h = rw (masked_not p.p_ignored sig h) (ground arith)

pub ssig-alarm : (p : PTab) (sig : ℕ) → (ssig p sig).p_alarm ≡ p.p_alarm
unfolding ssig
ssig-alarm p sig = ground arith

-- ===== src/Tests/Handling.antt =====
-- Signals of uzi-nes-port/kernel/process.c, kernel/scall2.c and kernel/interrupts.c on one process.
use uzi_build.Prelude.{ℕ, ◌≡◌, refl, inl, List, ◌∷◌, arith, digit, get_or, replicate}
use uzi_build.Kernel.{PTab, Time}
use uzi_build.Process.{zeroed, p_pause}
use uzi_build.Signals.{sigalrm, chksigs, goes_on, signal, returns}
use uzi_build.Signals.Check.{chksigs-first}
use uzi_build.Signals.Handlers.{signal_installs}
use uzi_build.Signals.Alarm.{seconds_later, alarm_fires}

abbrev pausing : PTab
pausing = record zeroed { p_status = p_pause; p_pid = 6; p_alarm = 3; p_pending = 2 }

-- Signals 2 and 3 are pending, and 2 has a handler.
chksigs-first_example : chksigs (0 ∷ 0 ∷ 25000 ∷ replicate 13 0) 12 0 ≡ goes_on 0 2
chksigs-first_example =
    chksigs-first 2 (0 ∷ 0 ∷ 25000 ∷ replicate 13 0) 12 0 (omega arith) (omega arith)
      (λ i lo hi. let one : i ≡ 1 = omega arith in rw one (inl refl)) (λ e. absurd (omega arith))
      (λ e. absurd (omega arith))

signal_installs_example :
    (p' : PTab) × (v : List ℕ) × (signal 24576 40000 pausing (replicate 16 0) 2 1 ≡ returns 0 p' v)
    × (get_or v 2 0 ≡ 1)
    × (get_or v 3 0 ≡ 0)
    × (digit p'.p_ignored 2 ≡ 1)
    × (digit p'.p_ignored 3 ≡ 0)
signal_installs_example =
    signal_installs 24576 40000 pausing (replicate 16 0) 2 1 3 (omega arith) (omega arith)
      (λ e. absurd (omega arith)) refl (inl refl) (omega arith) (λ e. absurd (omega arith))

alarm_fires_example :
    (seconds_later 1 pausing ≡ record pausing { p_alarm = 2 })
    × (digit (seconds_later 3 pausing).p_pending sigalrm ≡ 1)
    × ((seconds_later 3 pausing).p_alarm ≡ 0)
alarm_fires_example = alarm_fires 1 2 pausing refl (omega arith) (λ e. absurd (omega arith)) refl

abbrev nought : Time
nought = record { t_time = 0; t_date = 0 }

-- ===== src/Clock/Ticks.antt =====
-- Tick counts of uzi-nes-port/kernel/time.c: minutes in `t_date` and ticks below one minute in
-- `t_time`.
use uzi_build.Prelude.{ℕ, ◌+◌, ◌*◌, ◌<◌, ◌≡◌, arith}
use uzi_build.Kernel.{Time}
use uzi_build.Clock.{ticks_per_min, addtick, incrtick}

-- All ticks of a count.
abbrev pub total : Time → ℕ
total t = ticks_per_min * t.t_date + t.t_time

-- Two counts with less than a minute in `t_time`, whose minutes with one more stay below 2 ^ 16, are
-- added without loss, and the sum again has less than a minute in `t_time`.
pub total-addtick :
    (a b : Time)
    → a.t_time < ticks_per_min
    → b.t_time < ticks_per_min
    → a.t_date + b.t_date + 1 < 65536
    → (total (addtick a b) ≡ total a + total b) × ((addtick a b).t_time < ticks_per_min)
unfolding addtick
total-addtick a b p q r = ground arith

-- A count with less than a minute in `t_time`, whose minutes with one more stay below 2 ^ 16,
-- grows by one tick without loss, and again has less than a minute in `t_time`.
pub total-incrtick :
    (t : Time)
    → t.t_time < ticks_per_min
    → t.t_date + 1 < 65536
    → (total (incrtick t) ≡ total t + 1) × ((incrtick t).t_time < ticks_per_min)
unfolding incrtick
total-incrtick t p q = ground arith

-- A count is the sum of two.
abbrev pub IsSum : Time → Time → Time → Type 0
IsSum t a b = (total t ≡ total a + total b) × (t.t_time < ticks_per_min)

-- Two counts whose sum can be had.
pub record AreSmall (a b : Time) : Type 0 where
  pub first : a.t_time < ticks_per_min
  pub second : b.t_time < ticks_per_min
  pub minutes : a.t_date + b.t_date + 1 < 65536

pub addtick-IsSum : (a b : Time) → AreSmall a b → IsSum (addtick a b) a b
addtick-IsSum a b s = total-addtick a b s.first s.second s.minutes

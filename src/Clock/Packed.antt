-- ===== src/Clock/Packed.antt =====
-- The packed time of day that `rdtod` of uzi-nes-port/kernel/time.c stores.
use uzi_build.Prelude.{ℕ, ◌+◌, ◌*◌, ◌/◌, ◌%◌, ◌^◌, ◌<◌, ◌≡◌, refl, some, arith, bit_or_shifted}
use uzi_build.Kernel.{Time}
use uzi_build.Clock.{pack_time, pack_date, rdtod}

pack_time-sum : (s m h : ℕ) → s < 60 → m < 60 → h < 24 → pack_time s m h ≡ s / 2 + m * 32 + h * 2048
pack_time-sum s m h ps pm ph =
    let m_fits : m * 2 ^ 5 % 2 ^ 16 ≡ m * 2 ^ 5 = omega arith in
    let h_fits : h * 2 ^ 11 % 2 ^ 16 ≡ h * 2 ^ 11 = omega arith in
    rw (m_fits, h_fits, bit_or_shifted 5 (s / 2) m (omega arith))
      (bit_or_shifted 11 (s / 2 + m * 2 ^ 5) h (omega arith))

-- `rdtod` answers at every tick count, and the time it stores gives back, by the shifts of the
-- debugging output of `clk_int`, the hour and the minute since the start and the second to the even
-- one below; the date is the 27th of September, year 86.
pub rdtod_fields :
    (tick_count : ℕ)
    → (t : Time) × (rdtod tick_count ≡ some t)
      × (t.t_time / 2 ^ 11 ≡ tick_count / 36000 % 24)
      × (t.t_time / 2 ^ 5 % 64 ≡ tick_count / 600 % 60)
      × (t.t_time % 32 * 2 ≡ tick_count / 10 % 60 / 2 * 2)
      × (t.t_date / 2 ^ 9 ≡ 86)
      × (t.t_date / 2 ^ 5 % 16 ≡ 9)
      × (t.t_date % 32 ≡ 27)
unfolding rdtod
rdtod_fields n =
    let s = n / 10 % 60 in
    let m = n / 10 / 60 % 60 in
    let h = n / 10 / 60 / 60 % 24 in
    let sum = pack_time-sum s m h (omega arith) (omega arith) (omega arith) in
    (
      record { t_time = pack_time s m h; t_date = pack_date 27 9 86 },
      refl,
      rw sum (omega arith),
      rw sum (omega arith),
      rw sum (omega arith),
      refl,
      refl,
      refl,
    )

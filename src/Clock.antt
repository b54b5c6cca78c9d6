-- ===== src/Clock.antt =====
-- uzi-nes-port/kernel/time.c: tick counts and the packed time of day.
pub mod Ticks
pub mod Packed
use uzi_build.Prelude.{
  ℕ, ◌*◌, ◌/◌, ◌%◌, ◌^◌, Option, none, some, add16, sub16, leb, ◌==◌, if◌then◌else◌, bit_or,
}
use uzi_build.Kernel.{Time}
use mathlib.Core.Option

abbrev pub ticks_per_sec : ℕ
ticks_per_sec = 10

abbrev pub ticks_per_min : ℕ
ticks_per_min = 600

pub addtick : Time → Time → Time
addtick t1 t2 =
    if leb ticks_per_min time
    then record { t_time = sub16 time ticks_per_min; t_date = add16 date 1 }
    else record { t_time = time; t_date = date }
  where
    time : ℕ
    time = add16 t1.t_time t2.t_time

    date : ℕ
    date = add16 t1.t_date t2.t_date

pub incrtick : Time → Time
incrtick t =
    if add16 t.t_time 1 == ticks_per_min
    then record { t_time = 0; t_date = add16 t.t_date 1 }
    else record t { t_time = add16 t.t_time 1 }

-- The register addresses of `tread`.
abbrev pub secs : ℕ
secs = 0xe2

abbrev pub mins : ℕ
mins = 0xe3

abbrev pub hrs : ℕ
hrs = 0xe4

abbrev pub day : ℕ
day = 0xe6

abbrev pub mon : ℕ
mon = 0xe7

abbrev pub year : ℕ
year = 86

-- `n` is not set for another port; the result is then open, `none`.
pub tread : ℕ → ℕ → Option ℕ
tread tick_count port =
    if port == secs
    then some (tick_count / ticks_per_sec % 60)
    else if port == mins
    then some (tick_count / ticks_per_sec / 60 % 60)
    else if port == hrs
    then some (tick_count / ticks_per_sec / 60 / 60 % 24)
    else if port == day
    then some 27
    else if port == mon
    then some 9
    else none

-- The two words that `rdtod` stores in `tod`, from the values that it reads.
abbrev pub pack_time : ℕ → ℕ → ℕ → ℕ
pack_time s m h = bit_or (bit_or (s / 2) (m * 2 ^ 5 % 2 ^ 16)) (h * 2 ^ 11 % 2 ^ 16)

abbrev pub pack_date : ℕ → ℕ → ℕ → ℕ
pack_date d m y = bit_or (bit_or d (m * 2 ^ 5 % 2 ^ 16)) (y * 2 ^ 9 % 2 ^ 16)

pub rdtod : ℕ → Option Time
unfolding tread Option.bind
rdtod tick_count = Option.bind (tread tick_count secs) λ s. Option.bind (tread tick_count mins) λ m.
    Option.bind (tread tick_count hrs) λ h. Option.bind (tread tick_count day) λ d.
      Option.bind (tread tick_count mon)
        λ mo. some (record { t_time = pack_time s m h; t_date = pack_date d mo year })

-- ===== src/Devices.antt =====
-- The device switch of uzi-nes-port/drivers/devio.c: `d_open`, `d_close`, `d_ioctl`, `cdread` and `cdwrite`
-- on the drivers named in `dev_tab` (kernel/kdata.c).
use uzi_build.Prelude.{ℕ, ◌==◌, leb, if◌then◌else◌, minus_one}
use uzi_build.Kernel.{M, pure, wild, modify, set_error, ◌>>=◌, ◌>>◌}
use uzi_build.Buffer.{ndevs}

abbrev pub enxio : ℕ
enxio = 6

abbrev pub einval : ℕ
einval = 22

-- A row of `dev_tab` for each device: the routines with their minor numbers applied. What a raw read or
-- write needs besides is in `udata`. The result is an `int`.
pub record Drivers : Type 0 where
  pub dev_open : ℕ → M ℕ
  pub dev_close : ℕ → M ℕ
  pub dev_read : ℕ → M ℕ
  pub dev_write : ℕ → M ℕ
  pub dev_ioctl : ℕ → ℕ → ℕ → M ℕ

-- `validdev` answers 1 for every number, so a number past the table is an access outside it.
abbrev in_table : {A : Type 0} → ℕ → M A → M A
in_table dev m = if leb ndevs dev then (λ _. wild) else m

module _ (dev_tab : Drivers) where
  abbrev pub d_open : ℕ → M ℕ
  d_open dev = in_table dev (dev_tab.dev_open dev)

  abbrev pub d_close : ℕ → M (Unit {0})
  d_close dev = in_table dev (dev_tab.dev_close dev) >> pure tt

  pub d_ioctl : ℕ → ℕ → ℕ → M ℕ
  d_ioctl dev request at = do
    r ← in_table dev (dev_tab.dev_ioctl dev request at)
    if r == 0 then pure 0 else modify (set_error einval) >> pure minus_one

  abbrev pub cdread : ℕ → M ℕ
  cdread dev = in_table dev (dev_tab.dev_read dev)

  abbrev pub cdwrite : ℕ → M ℕ
  cdwrite dev = in_table dev (dev_tab.dev_write dev)

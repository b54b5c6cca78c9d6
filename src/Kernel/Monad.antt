-- ===== src/Kernel/Monad.antt =====
-- Kernel routines as functions of the global state of uzi-nes-port. `panic` (kernel/machdep.c) stops
-- the machine, and `wild` is an access outside a table, where C leaves the behaviour open. A process that
-- sleeps or has exited, and is not run again, ends with the state it has left behind.
use uzi_build.Prelude.{ℕ, Option, none, some}
use uzi_build.Kernel.Types.{Kernel}

-- The messages with which the modelled routines panic.
pub data Panic : Type 0 where
  want_busy_block no_free_buffers getdev_bad_dev i_free_bad_ino validblk_not_mounted : Panic
  validblk_invalid_blk i_open_bad_dev corrupt_inode inode_freed too_many_irefs : Panic
  bad_desc_table bad_oft cant_open_filesystem sleep_voodoo : Panic

pub data Run (A : Type 0) : Type 0 where
  ok : A → Kernel → Run A
  panic : Panic → Run A
  wild : Run A
  left : Kernel → Run A

abbrev pub M : Type 0 → Type 0
M A = Kernel → Run A

module _ {A B : Type 0} where
  abbrev pub then_run : Run A → (A → M B) → Run B
  then_run (ok a k) f = f a k
  then_run (panic p) f = panic p
  then_run wild f = wild
  then_run (left k) f = left k

  infixl 5 ◌>>=◌ ◌>>◌
  abbrev pub ◌>>=◌ : M A → (A → M B) → M B
  ◌>>=◌ m f = λ k. then_run (m k) f

  abbrev pub ◌>>◌ : M A → M B → M B
  ◌>>◌ m n = λ k. then_run (m k) (λ _. n)

abbrev pub pure : {A : Type 0} → A → M A
pure a = ok a

abbrev pub stop : {A : Type 0} → Panic → M A
stop p = λ _. panic p

abbrev pub gets : {A : Type 0} → (Kernel → A) → M A
gets f = λ k. ok (f k) k

abbrev pub modify : (Kernel → Kernel) → M (Unit {0})
modify f = λ k. ok tt (f k)

-- An element of a table.
abbrev pub entry : {A : Type 0} → Option A → M A
entry (some a) = ok a
entry none = λ _. wild

-- `udata.u_error = e`
abbrev pub set_error : ℕ → Kernel → Kernel
set_error e k = record k { udata = record (k.udata) { u_error = e } }

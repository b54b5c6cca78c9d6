-- ===== src/Terminal.antt =====
-- The terminal of uzi-nes-port/drivers/devtty.c: the queue of characters typed, which the keyboard's interrupt
-- fills, and what is put on the screen. `ttyinq_at` and `stopflag_at` are the addresses slept on.

pub mod Line
use uzi_build.Prelude.{
  ℕ, zero, suc, Bool, not, ◌&&◌, ◌||◌, List, [], ◌∷◌, ◌++◌, Option, none, some, true, false, ◌==◌,
  ltb, if◌then◌else◌, add16, sub16, minus_one,
}
use uzi_build.Kernel.{Kernel, M, pure, wild, left, gets, modify, set_error, ◌>>=◌, ◌>>◌}
use uzi_build.Kernel.Memory.{put_bytes}
use uzi_build.CharQueue.{SQueue, insq, remq}
use uzi_build.Files.Calls.{put_udata}
use uzi_build.Process.Birth.{slot_at}
use uzi_build.Process.Waiting.{Others, fall_asleep}
use uzi_build.Process.Death.{eintr}

abbrev pub newline : ℕ
newline = 10

-- `'\004'`
abbrev pub end_of_input : ℕ
end_of_input = 4

pub tty_init : M (Unit {0})
tty_init = modify (λ k. record k { ttyinq = (insq k.ttyinq 48).1 })

-- `remq(&ttyinq, udata.u_base)`: the character, which is stored, or nothing.
pub take_char : M (Option ℕ)
take_char = do
  got ← gets (λ k. remq k.ttyinq)
  modify (λ k. record k { ttyinq = got.1 })
  elim got.0 [
    | none ↦ pure none
    | some c ↦ do modify (λ k. put_bytes k.udata.u_base (c ∷ []) k); pure (some c)
  ]

-- `udata.u_cursig || udata.u_ptab->p_pending`
pub interrupted : M Bool
interrupted = do
  u ← gets (λ k. k.udata)
  p ← slot_at u.u_ptab
  pure (not (u.u_cursig == 0) || not (p.p_pending == 0))

-- The inner loops: `test` is done until it gives something, with sleep between, or a signal comes, for
-- which there is no result. What the others have not done yet is handed back.
pub await : {A : Type 0} → M (Option A) → ℕ → Others → M (Option (A × Others))
await test event [] = do
  r ← test
  elim r [ some a ↦ pure (some (a, [])) | none ↦ fall_asleep event >> (λ k. left k) ]
await test event (resume ∷ others) = do
  r ← test
  elim r [
    | some a ↦ pure (some (a, resume ∷ others))
    | none ↦ do
      fall_asleep event
      modify resume
      stop ← interrupted
      if stop then pure none else await test event others
  ]

-- `++udata.u_base`
abbrev pub step_base : Kernel → Kernel
step_base k = put_udata (record (k.udata) { u_base = add16 k.udata.u_base 1 }) k

-- The loop of `tty_read`, with `nread` so far. A 16-bit number has fewer than 65536 rounds to go.
pub read_chars : ℕ → ℕ → Others → ℕ → M ℕ
read_chars zero ttyinq_at others nread = λ _. wild
read_chars (suc rounds) ttyinq_at others nread = do
  count ← gets (λ k. k.udata.u_count)
  if not (ltb nread count) then pure nread else do
    got ← await take_char ttyinq_at others
    elim got [
      | none ↦ modify (set_error eintr) >> pure minus_one
      | some (c, others') ↦
          if nread == 0 && c == end_of_input
          then pure 0
          else if c == newline
          then pure (add16 nread 1)
          else do modify step_base; read_chars rounds ttyinq_at others' (add16 nread 1)
    ]

pub tty_read : ℕ → Others → M ℕ
tty_read ttyinq_at others = do
  count ← gets (λ k. k.udata.u_count)
  read_chars (suc count) ttyinq_at others 0

-- `ifnot (stopflag) break`
pub may_write : M (Option (Unit {0}))
may_write = do stopped ← gets (λ k. k.stopflag); pure (if stopped == 0 then some tt else none)

-- A character on the screen, after a carriage return if it is a newline.
pub put_char : ℕ → Kernel → Kernel
put_char c k =
    if k.flshflag == 0
    then record k { console = k.console ++ (if c == newline then 13 ∷ c ∷ [] else c ∷ []) }
    else k

-- The loop of `tty_write`; `u_count` is 65535 at its end. There is a result unless a signal comes.
pub write_chars : ℕ → ℕ → Others → M Bool
write_chars zero stopflag_at others = λ _. wild
write_chars (suc rounds) stopflag_at others = do
  count ← gets (λ k. k.udata.u_count)
  modify (λ k. put_udata (record (k.udata) { u_count = sub16 count 1 }) k)
  if count == 0 then pure true else do
    got ← await may_write stopflag_at others
    elim got [
      | none ↦ pure false
      | some (go, others') ↦ do
        modify (λ k. put_char (k.memory k.udata.u_base) k)
        modify step_base
        write_chars rounds stopflag_at others'
    ]

pub tty_write : ℕ → Others → M ℕ
tty_write stopflag_at others = do
  towrite ← gets (λ k. k.udata.u_count)
  done ← write_chars (suc towrite) stopflag_at others
  if done then pure towrite else modify (set_error eintr) >> pure minus_one

pub tty_open : ℕ → M ℕ
tty_open minor = pure 0

pub tty_close : ℕ → M ℕ
tty_close minor = pure 0

pub tty_ioctl : ℕ → M ℕ
tty_ioctl minor = pure minus_one

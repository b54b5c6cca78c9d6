-- ===== src/Process/Waiting.antt =====
-- A system call that sleeps: the loops around `psleep` of uzi-nes-port/kernel/process.c in the calls of
-- kernel/scall1.c and kernel/scall2.c. While a process sleeps, signals, the scheduler and the other
-- processes change the state; what they have done by the time the process runs again is a function of
-- the state, one for each time it goes to sleep, and a process for which there is none sleeps on.
use uzi_build.Prelude.{ℕ, ◌+◌, ◌*◌, List, [], ◌∷◌, Option, none, some, get_elem?, set, ◌≡◌, refl}
use uzi_build.Kernel.{
  Kernel, PTab, M, ok, left, pure, stop, gets, modify, entry, ◌>>=◌, ◌>>◌, sleep_voodoo,
}
use uzi_build.Process.{psleep}

abbrev pub Others : Type 0
Others = List (Kernel → Kernel)

-- `sizeof(struct p_tab)`
abbrev pub ptab_size : ℕ
ptab_size = 49

abbrev pub slot_address : Kernel → ℕ → ℕ
slot_address k i = k.ptab_at + ptab_size * i

-- The entry of the running process after `psleep`, which panics if it was not running.
unfoldable pub slept : ℕ → Option PTab → M (Unit {0})
slept self none = stop sleep_voodoo
slept self (some p) = modify (λ k. record k { ptab = set k.ptab self p })

-- `psleep` up to the call of `swapout`.
unfoldable pub fall_asleep : ℕ → M (Unit {0})
fall_asleep event = do
  self ← gets (λ k. k.udata.u_ptab)
  at ← gets (λ k. slot_address k self)
  p ← (λ k. entry (get_elem? k.ptab self) k)
  slept self (psleep at event p)

-- `for (;;) { …; psleep(event); }`: `test` returns something to leave the loop.
unfoldable pub sleep_loop : {A : Type 0} → M (Option A) → ℕ → Others → M A
sleep_loop test event [] = do
  r ← test
  elim r [ some a ↦ pure a | none ↦ fall_asleep event >> (λ k. left k) ]
sleep_loop test event (resume ∷ others) = do
  r ← test
  elim r [
    | some a ↦ pure a
    | none ↦ do fall_asleep event; modify resume; sleep_loop test event others
  ]

-- When the test says at once to leave, the process does not sleep.
pub sleep_loop_first :
    {A : Type 0} (test : M (Option A)) (event : ℕ) (others : Others) (k k' : Kernel) (a : A)
    → test k ≡ ok (some a) k'
    → sleep_loop test event others k ≡ ok a k'
unfolding sleep_loop
sleep_loop_first test event [] k k' a h = rw h refl
sleep_loop_first test event (resume ∷ others) k k' a h = rw h refl

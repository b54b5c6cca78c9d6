-- ===== src/Process/Account.antt =====
-- What a process asks about itself in uzi-nes-port/kernel/scall2.c: `_getpid`, `_getppid`, `_getuid`,
-- `_getgid`, `_time`, `_stime`, `_times`, `_brk`, `_sbrk` and `_pause`.
use uzi_build.Prelude.{ℕ, not, ◌||◌, List, [], ◌∷◌, ◌==◌, ltb, leb, if◌then◌else◌, add16, minus_one}
use uzi_build.Kernel.{UData, Time, M, pure, left, gets, modify, entry, set_error, ◌>>=◌, ◌>>◌}
use uzi_build.Kernel.Bytes.{bytes_of_words}
use uzi_build.Kernel.Memory.{progbase, put_bytes, valadr}
use uzi_build.Files.Calls.{put_udata}
use uzi_build.Process.Birth.{slot_at}
use uzi_build.Process.Death.{eintr}
use uzi_build.Process.Waiting.{Others, fall_asleep}

abbrev pub eperm : ℕ
eperm = 1

abbrev pub enomem : ℕ
enomem = 12

pub getpid : M ℕ
getpid = do i ← gets (λ k. k.udata.u_ptab); p ← slot_at i; pure p.p_pid

pub getppid : M ℕ
getppid = do
  i ← gets (λ k. k.udata.u_ptab)
  p ← slot_at i
  j ← entry p.p_pptr
  q ← slot_at j
  pure q.p_pid

pub getuid : M ℕ
getuid = do i ← gets (λ k. k.udata.u_ptab); p ← slot_at i; pure p.p_uid

pub getgid : M ℕ
getgid = gets (λ k. k.udata.u_gid)

abbrev pub time_words : Time → List ℕ
time_words t = t.t_time ∷ t.t_date ∷ []

-- `rdtime` copies the time of day to the user's address.
pub time : ℕ → M ℕ
time tvec = do
  now ← gets (λ k. k.tod)
  modify (put_bytes tvec (bytes_of_words (time_words now)))
  pure 0

pub stime : ℕ → M ℕ
stime tvec = modify (set_error eperm) >> pure minus_one

-- The four times from `u_utime` on, and the ticks.
abbrev pub times_words : UData → Time → List ℕ
times_words u t =
    u.u_utime.t_time
    ∷ u.u_utime.t_date
    ∷ u.u_stime.t_time
    ∷ u.u_stime.t_date
    ∷ u.u_cutime.t_time
    ∷ u.u_cutime.t_date
    ∷ u.u_cstime.t_time
    ∷ u.u_cstime.t_date
    ∷ time_words t

pub times : ℕ → M ℕ
times buf = do
  fine ← valadr buf 24
  if not fine
      then pure minus_one
      else do modify (λ k. put_bytes buf (bytes_of_words (times_words k.udata k.ticks)) k); pure 0

-- `here` is the address of a local variable, for the stack.
pub brk : ℕ → ℕ → M ℕ
brk here addr =
    if ltb addr progbase || leb here (add16 addr 64)
    then modify (set_error enomem) >> pure minus_one
    else modify (λ k. put_udata (record (k.udata) { u_break = addr }) k) >> pure 0

pub sbrk : ℕ → ℕ → M ℕ
sbrk here incr = do
  oldbrk ← gets (λ k. k.udata.u_break)
  r ← brk here (add16 oldbrk incr)
  pure (if r == 0 then oldbrk else minus_one)

pub pause : Others → M ℕ
pause [] = fall_asleep 0 >> (λ k. left k)
pause (resume ∷ others) = do fall_asleep 0; modify resume; modify (set_error eintr); pure minus_one

-- ===== src/Transfer/Pipe.antt =====
-- A pipe that is written with more than it holds: `writei` of uzi-nes-port/kernel/scall1.c.
use uzi_build.Prelude.{
  ℕ, ◌≡◌, ◌≢◌, sym, set, ◌≤◌, ◌<◌, refl, inl, inr, true, false, Bool, List, [], ◌∷◌, none, some,
  arith, ◌==◌, ◌||◌, ltb, get_elem?, Option-cases, sub16,
}
use uzi_build.Kernel.Returns.{WhenBack}
use uzi_build.Kernel.{Kernel, Cinode, Run, ok, panic, wild, left, then_run, M, sleep_voodoo}
use uzi_build.Inode.Table.{f_reg, f_dir, f_pipe, f_bdev, getmode}
use uzi_build.Inode.Blocks.{inode_address}
use uzi_build.Files.Offset.{psize}
use uzi_build.Process.{psleep}
use uzi_build.Process.Waiting.{Others, fall_asleep, slept, sleep_loop, slot_address}
use uzi_build.Devices.{Drivers}
use uzi_build.Transfer.{pipe_writable, writei}

-- The process is to write more than 8192 bytes to a pipe that others have open.
pub record IsStuck (i : ℕ) (k : Kernel) : Type 0 where
  pub pipe : Cinode
  pub at : get_elem? k.i_tab i ≡ some pipe
  pub kind : getmode pipe ≡ f_pipe
  pub readers : pipe.c_refs ≢ 1
  pub size : psize (pipe.c_node.i_size) ≤ 8192
  pub more : 8192 < k.udata.u_count

-- What the others do leaves it so, every time.
abbrev pub AllKeep : ℕ → Others → Type 0
AllKeep i [] = Unit {0}
AllKeep i (resume ∷ others) = ((k : Kernel) → IsStuck i k → IsStuck i (resume k)) × AllKeep i others

no_room : (i : ℕ) (k : Kernel) → IsStuck i k → pipe_writable i k ≡ ok none k
unfolding pipe_writable
no_room i k s =
    let size = s.size in
    let more = s.more in
    let readers = s.readers in
    let a : ltb (sub16 8192 (psize (s.pipe.c_node.i_size))) k.udata.u_count ≡ true = ground arith in
    let b : (s.pipe.c_refs == 1) ≡ false = ground arith in rw (s.at, a, b) refl

fall_asleep_keeps :
    (i event : ℕ) (k k' : Kernel) → fall_asleep event k ≡ ok tt k' → IsStuck i k → IsStuck i k'
unfolding fall_asleep slept
fall_asleep_keeps i event k k' h s = elim (Option-cases (get_elem? k.ptab k.udata.u_ptab)) [
  | inl out ↦ let h' : wild ≡ ok tt k' = rw out at h in cc
  | inr (p, at) ↦ elim (Option-cases (psleep (slot_address k k.udata.u_ptab) event p)) [
    | inl none' ↦ let h' : panic sleep_voodoo ≡ ok tt k' = rw (at, none') at h in cc
    | inr (q, some') ↦
        let h' : ok tt (record k { ptab = set k.ptab k.udata.u_ptab q }) ≡ ok tt k' =
          rw (at, some') at h in
        let same : record k { ptab = set k.ptab k.udata.u_ptab q } ≡ k' = cc in
        rw (sym same) (record {
          pipe = s.pipe;
          at = s.at;
          kind = s.kind;
          readers = s.readers;
          size = s.size;
          more = s.more;
        })
  ]
]

-- A run that does not come back.
abbrev Stays : {A : Type 0} → Run A → Type 0
Stays r = (a : _) (k' : Kernel) → r ≢ ok a k'

then-Stays : {A B : Type 0} (r : Run A) (f : A → M B) → Stays r → Stays (then_run r f)
then-Stays (ok a k) f s = absurd (s a k refl)
then-Stays (panic p) f s = λ a k' e. cc
then-Stays wild f s = λ a k' e. cc
then-Stays (left k) f s = λ a k' e. cc

left-Stays : {A B : Type 0} (r : Run A) → Stays (then_run {B = B} r (λ a k. left k))
left-Stays (ok a k) = λ b k' e. cc
left-Stays (panic p) = λ b k' e. cc
left-Stays wild = λ b k' e. cc
left-Stays (left k) = λ b k' e. cc

woken-Stays :
    (r : Run (Unit {0})) (f : M Bool)
    → ((k : Kernel) → r ≡ ok tt k → Stays (f k))
    → Stays (then_run r (λ u. f))
woken-Stays (ok tt k) f h = h k refl
woken-Stays (panic p) f h = λ b k' e. cc
woken-Stays wild f h = λ b k' e. cc
woken-Stays (left k) f h = λ b k' e. cc

sleeps_on :
    (i event : ℕ) (others : Others) (k : Kernel)
    → AllKeep i others
    → IsStuck i k
    → Stays (sleep_loop (pipe_writable i) event others k)
unfolding sleep_loop
sleeps_on i event [] k keep s = rw (no_room i k s) (left-Stays (fall_asleep event k))
sleeps_on i event (resume ∷ others) k (keep, rest) s = rw (no_room i k s) (
    woken-Stays (fall_asleep event k) (λ k₁. sleep_loop (pipe_writable i) event others (resume k₁))
      λ k₁ e.
        sleeps_on i event others (resume k₁) rest (keep k₁ (fall_asleep_keeps i event k k₁ e s)))

no_return : {A : Type 0} (r : Run A) → Stays r → WhenBack r (λ a k'. ⊥)
no_return (ok a k) s = s a k refl
no_return (panic p) s = tt
no_return wild s = tt
no_return (left k) s = tt

-- A write of more than 8192 bytes to a pipe never comes back, even to an empty one, however often the
-- process is woken: as long as somebody else has the pipe open and it holds at most 8192 bytes, the
-- bytes do not fit.
pub writei_stuck :
    (dev_tab : Drivers) (others : Others) (i : ℕ) (k : Kernel) (src : List ℕ)
    → AllKeep i others
    → IsStuck i k
    → WhenBack (writei dev_tab others i src k) (λ r k'. ⊥)
unfolding writei
writei_stuck dev_tab others i k src keep s =
    let kind = s.kind in
    let a : (getmode (s.pipe) == f_bdev) ≡ false = ground arith in
    let b : (getmode (s.pipe) == f_dir || getmode (s.pipe) == f_reg) ≡ false = ground arith in
    let c : (getmode (s.pipe) == f_pipe) ≡ true = ground arith in
    rw (s.at, a, b, c)
      (no_return _ (
        then-Stays (sleep_loop (pipe_writable i) (inode_address k i) others k) _
          (sleeps_on i (inode_address k i) others k keep s)))

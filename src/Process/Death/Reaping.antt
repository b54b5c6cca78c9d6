-- ===== src/Process/Death/Reaping.antt =====
-- What `_wait` of uzi-nes-port/kernel/scall2.c returns to a parent.
use uzi_build.Prelude.{
  ℕ, zero, suc, ◌+◌, ◌≡◌, ◌≢◌, ◌<◌, ◌≤◌, ◌%◌, ◌/◌, refl, ap, inl, inr, true, false, not, ◌&&◌, List,
  [], ◌∷◌, some, arith, ◌==◌, ltb, if◌then◌else◌, get_elem?, set, Bool-cases,
}
use uzi_build.Kernel.{Kernel, PTab, Time, ok}
use uzi_build.Clock.Ticks.{IsSum, AreSmall, addtick-IsSum}
use uzi_build.Kernel.Returns
use uzi_build.Kernel.Returns.{Returns}
use uzi_build.Kernel.Bytes.{bytes_of_words}
use uzi_build.Kernel.Memory.{store, put_bytes}
use uzi_build.Files.Calls.{put_udata}
use uzi_build.Process.{p_empty, p_zombie}
use uzi_build.Process.Birth.{put_slot}
use uzi_build.Process.Waiting.{Others, slot_address, sleep_loop_first}
use uzi_build.Process.Death.{
  is_child, has_child, find_zombie, charged, obey, check_signals, reap, wait_round, wait,
}
use uzi_build.Signals.{goes_on, chksigs}

pub is_child_eq : (self : ℕ) (p : PTab) → is_child self p ≡ true → p.p_pptr ≡ some self
is_child_eq self p h = ground arith

-- A child of `self` that has exited, the first one in the table.
pub record IsFirstZombie (self : ℕ) (ps : List PTab) (i : ℕ) (p : PTab) : Type 0 where
  pub at : get_elem? ps i ≡ some p
  pub zombie : p.p_status ≡ p_zombie
  pub parent : p.p_pptr ≡ some self
  pub first :
      (j : ℕ) (q : PTab)
      → j < i
      → get_elem? ps j ≡ some q
      → (q.p_status ≡ p_zombie)
      → q.p_pptr ≢ some self

child_eq : (self : ℕ) (p : PTab) → p.p_pptr ≡ some self → is_child self p ≡ true
child_eq self p h = rw h (ground arith)

find_zombie_first :
    (self : ℕ) (ps : List PTab) (i : ℕ) (p : PTab)
    → IsFirstZombie self ps i p
    → find_zombie self ps ≡ some i
unfolding find_zombie
find_zombie_first self [] i p z = let h = z.at in cc
find_zombie_first self (x ∷ ps) zero p z =
    let e : x ≡ p = (let h = z.at in cc) in
    let a : (p.p_status == p_zombie && is_child self p) ≡ true =
      (let s = z.zombie in let c = child_eq self p z.parent in ground arith) in
    rw (e, a) refl
find_zombie_first self (x ∷ ps) (suc i) p z =
    let rest : find_zombie self ps ≡ some i = find_zombie_first self ps i p (record {
      at = z.at;
      zombie = z.zombie;
      parent = z.parent;
      first = λ j q lt h. z.first (suc j) q (omega arith) h;
    }) in
    elim (Bool-cases (x.p_status == p_zombie && is_child self x)) [
      | inl e ↦
          let s : x.p_status ≡ p_zombie = ground arith in
          let c : is_child self x ≡ true = ground arith in
          absurd (z.first 0 x (omega arith) refl s (is_child_eq self x c))
      | inr e ↦ rw (e, rest) refl
    ]

has_child_found :
    (self base i : ℕ) (ps : List PTab) (p : PTab)
    → get_elem? ps i ≡ some p
    → p.p_status ≢ p_empty
    → p.p_pptr ≡ some self
    → base + i ≢ self
    → has_child self base ps ≡ true
unfolding has_child
has_child_found self base i [] p h s c ne = cc
has_child_found self base zero (x ∷ ps) p h s c ne =
    let e : x ≡ p = cc in
    let a : (not (p.p_status == p_empty) && is_child self p && not (base == self)) ≡ true =
      (let d = child_eq self p c in ground arith) in
    rw (e, a) refl
has_child_found self base (suc i) (x ∷ ps) p h s c ne =
    let rest = has_child_found self (suc base) i ps p h s c (λ z. ne (omega arith)) in ground arith

set_same : (ps : List PTab) (i : ℕ) (p : PTab) → get_elem? ps i ≡ some p → set ps i p ≡ ps
set_same [] i p h = refl
set_same (x ∷ ps) zero p h = let e : x ≡ p = cc in rw e refl
set_same (x ∷ ps) (suc i) p h = ap (λ l. x ∷ l) (set_same ps i p h)

chksigs_quiet :
    (sigvec : List ℕ) (pending cursig : ℕ)
    → pending ≡ 0
    → chksigs sigvec pending cursig ≡ goes_on pending cursig
unfolding chksigs
chksigs_quiet sigvec pending cursig h = let e : (pending == 0) ≡ true = ground arith in rw e refl

-- Without a pending signal nothing happens.
check_signals_none :
    (k : Kernel) (me : PTab)
    → get_elem? k.ptab k.udata.u_ptab ≡ some me
    → me.p_pending ≡ 0
    → check_signals k ≡ ok tt k
unfolding check_signals obey
check_signals_none k me at none' =
    rw
      (
        at,
        chksigs_quiet k.udata.u_sigvec me.p_pending k.udata.u_cursig none',
        set_same k.ptab k.udata.u_ptab me at,
      )
      refl

-- The state after a child has been reaped.
abbrev pub reaped : ℕ → ℕ → PTab → Kernel → Kernel
reaped statloc i p k = put_udata (charged p k.udata) (
    put_slot i (record p { p_status = p_empty })
      (if statloc == 0 then k else put_bytes statloc (bytes_of_words (p.p_exitval ∷ [])) k))

reap_lem :
    (k : Kernel) (statloc i : ℕ) (p : PTab)
    → get_elem? k.ptab i ≡ some p
    → reap statloc i k ≡ ok p.p_pid (reaped statloc i p k)
unfolding reap
reap_lem k statloc i p at = elim (Bool-cases (statloc == 0)) [
  | inl e ↦ rw (at, e) refl
  | inr e ↦ rw (at, e) refl
]

wait_round_reaps :
    (k : Kernel) (statloc i : ℕ) (me p : PTab)
    → get_elem? k.ptab k.udata.u_ptab ≡ some me
    → me.p_pending ≡ 0
    → k.udata.u_cursig ≡ 0
    → IsFirstZombie k.udata.u_ptab k.ptab i p
    → wait_round statloc k ≡ ok (some p.p_pid) (reaped statloc i p k)
unfolding wait_round
wait_round_reaps k statloc i me p at none' quiet z =
    let e : (k.udata.u_cursig == 0) ≡ true = ground arith in
    rw
      (
        check_signals_none k me at none',
        e,
        find_zombie_first k.udata.u_ptab k.ptab i p z,
        reap_lem k statloc i p z.at,
      )
      refl

pub wait_reaped :
    (others : Others) (k : Kernel) (statloc i : ℕ) (me p : PTab)
    → statloc ≤ k.udata_at
    → get_elem? k.ptab k.udata.u_ptab ≡ some me
    → me.p_pending ≡ 0
    → k.udata.u_cursig ≡ 0
    → i ≢ k.udata.u_ptab
    → IsFirstZombie k.udata.u_ptab k.ptab i p
    → Returns (wait others statloc k) (λ r k'.
      (r ≡ p.p_pid)
      × (k'.ptab ≡ set k.ptab i (record p { p_status = p_empty }))
      × (statloc ≢ 0 → k'.memory ≡ store k.memory statloc (bytes_of_words (p.p_exitval ∷ [])))
      × (k'.udata ≡ charged p k.udata))
unfolding wait
wait_reaped others k statloc i me p room at none' quiet ne z =
    let self = k.udata.u_ptab in
    let status = z.zombie in
    let a : ltb k.udata_at statloc ≡ false = ground arith in
    let b : has_child self 0 k.ptab ≡ true =
      has_child_found self 0 i k.ptab p z.at (λ e. absurd (omega arith)) z.parent
        (λ e. ne (omega arith)) in
    record {
      value = p.p_pid;
      state = reaped statloc i p k;
      result =
          rw (a, b)
            (sleep_loop_first (wait_round statloc) (slot_address k self) others k
              (reaped statloc i p k) p.p_pid (wait_round_reaps k statloc i me p at none' quiet z));
      post = elim (Bool-cases (statloc == 0)) [
        | inl e ↦ (refl, rw e refl, λ some'. absurd (some' (ground arith)), refl)
        | inr e ↦ (refl, rw e refl, λ some'. rw e refl, refl)
      ];
    }

-- The times of a child, where `doexit` has put them.
abbrev pub own_time : PTab → Time
own_time p = record { t_time = p.p_wait; t_date = p.p_priority }

abbrev pub system_time : PTab → Time
system_time p = record { t_time = p.p_pending; t_date = p.p_ignored }

-- A parent without pending signals, some of whose children have exited, gets the number of the first of
-- them in the table: that one's slot is empty afterwards and no other has changed, its exit value, low
-- byte first, is where the parent wanted it, and the times that the entry holds are added, tick by tick,
-- to the parent's times for children, where these sums fit; nothing else of the user data has changed.
pub wait-reaps :
    (others : Others) (k : Kernel) (statloc i : ℕ) (me p : PTab)
    → statloc ≤ k.udata_at
    → get_elem? k.ptab k.udata.u_ptab ≡ some me
    → me.p_pending ≡ 0
    → k.udata.u_cursig ≡ 0
    → i ≢ k.udata.u_ptab
    → IsFirstZombie k.udata.u_ptab k.ptab i p
    → AreSmall k.udata.u_cutime (own_time p)
    → AreSmall k.udata.u_cstime (system_time p)
    → Returns (wait others statloc k) (λ r k'.
      (r ≡ p.p_pid)
      × (k'.ptab ≡ set k.ptab i (record p { p_status = p_empty }))
      × (statloc ≢ 0
          → k'.memory ≡ store k.memory statloc (p.p_exitval % 256 ∷ p.p_exitval / 256 ∷ []))
      × IsSum k'.udata.u_cutime k.udata.u_cutime (own_time p)
      × IsSum k'.udata.u_cstime k.udata.u_cstime (system_time p)
      × (k'.udata
          ≡ record (k.udata) { u_cutime = k'.udata.u_cutime; u_cstime = k'.udata.u_cstime }))
wait-reaps others k statloc i me p room at none' quiet ne z one two =
    Returns.weaken (wait_reaped others k statloc i me p room at none' quiet ne z)
      λ r k' (pid, table, memory, same). (
        pid,
        table,
        memory,
        rw same (addtick-IsSum k.udata.u_cutime (own_time p) one),
        rw same (addtick-IsSum k.udata.u_cstime (system_time p) two),
        rw same refl,
      )

-- ===== src/Process/Alloc.antt =====
-- `ptab_alloc` of uzi-nes-port/kernel/process.c: the slot was unused and the number is new.
use uzi_build.Prelude.{
  ℕ, zero, suc, ◌+◌, ◌-◌, ◌≤◌, ◌<◌, ◌≡◌, refl, ◌≢◌, inl, inr, Bool, true, false, List, [], ◌∷◌,
  none, some, arith, sym, ◌∙◌, leb, ◌==◌, ◌||◌, if◌then◌else◌, length, get_elem?, set, Bool-cases,
  Option-cases, get_elem?-set_self, get_elem?-set_ne,
}
use uzi_build.Kernel.{PTab}
use uzi_build.Process.{
  p_empty, p_forking, empty_slot, next_pid, pid_taken, free_pid, forking, ptab_alloc,
}

-- The number that is tried in round `j`, counted from 0, after the last number `n`.
abbrev tried : ℕ → ℕ → ℕ
tried n j = if leb 32001 (n + j) then n + j + 1 - 32001 else n + j + 1

-- The numbers that the processes of the table have.
abbrev pids : List PTab → List ℕ
pids [] = []
pids (p ∷ ps) = if p.p_status == p_empty then pids ps else p.p_pid ∷ pids ps

abbrev has : ℕ → List ℕ → Bool
has n [] = false
has n (m ∷ l) = m == n || has n l

pid_taken-has : (n : ℕ) (ps : List PTab) → pid_taken n ps ≡ has n (pids ps)
unfolding pid_taken
pid_taken-has n [] = refl
pid_taken-has n (p ∷ ps) = ground (arith, pid_taken-has n ps)

length-pids : (ps : List PTab) → length (pids ps) ≤ length ps
length-pids [] = omega arith
length-pids (p ∷ ps) = ground (arith, length-pids ps)

-- The first occurrence of a number taken out.
without : ℕ → List ℕ → List ℕ
without n [] = []
without n (m ∷ l) = if m == n then l else m ∷ without n l

length-without : (n : ℕ) (l : List ℕ) → has n l ≡ true → suc (length (without n l)) ≡ length l
unfolding without
length-without n [] h = cc
length-without n (m ∷ l) h = ground (arith, length-without n l)

has-without : (n k : ℕ) (l : List ℕ) → k ≢ n → has k (without n l) ≡ has k l
unfolding without
has-without n k [] ne = refl
has-without n k (m ∷ l) ne = ground (arith, has-without n k l)

-- Each failed try uses up one of the numbers `l` that the rest of the tries can meet.
free_pid-found :
    (fuel n : ℕ) (l : List ℕ) (ps : List PTab)
    → n ≤ 32001
    → length l < fuel
    → fuel ≤ 32001
    → ((j : ℕ) → j < fuel → has (tried n j) l ≡ pid_taken (tried n j) ps)
    → (m : ℕ) × (free_pid fuel n ps ≡ some m) × (pid_taken m ps ≡ false) × (0 < m) × (m ≤ 32001)
unfolding free_pid
free_pid-found zero n l ps pn pl pf meets = absurd (omega arith)
free_pid-found (suc fuel) n l ps pn pl pf meets = elim (Bool-cases (pid_taken (next_pid n) ps)) [
  | inr unused ↦ (next_pid n, rw unused, unused, ground arith, ground arith)
  | inl taken ↦
      let first : tried n 0 ≡ next_pid n = ground arith in
      let met : has (next_pid n) l ≡ true = rw first at (meets 0 (omega arith)) ∙ taken in
      let rest =
        free_pid-found fuel (next_pid n) (without (next_pid n) l) ps (ground arith)
          (omega (arith, length-without (next_pid n) l met)) (omega arith) (λ j p. later j p) in
      rw taken rest
]
  where
    later :
        (j : ℕ)
        → j < fuel
        → has (tried (next_pid n) j) (without (next_pid n) l) ≡ pid_taken (tried (next_pid n) j) ps
    later j p =
        let shift : tried (next_pid n) j ≡ tried n (suc j) = ground arith in
        let other : tried n (suc j) ≢ next_pid n = ground arith in
        rw (shift, has-without (next_pid n) (tried n (suc j)) l other) (meets (suc j) (omega arith))

empty_slot-get_elem? :
    (ps : List PTab) (i : ℕ)
    → empty_slot ps ≡ some i
    → (p : PTab) × (get_elem? ps i ≡ some p) × (p.p_status ≡ p_empty)
unfolding empty_slot
empty_slot-get_elem? [] i h = cc
empty_slot-get_elem? (p ∷ ps) i h = elim (Bool-cases (p.p_status == p_empty)) [
  | inl free ↦ (p, ground arith, ground arith)
  | inr used ↦ elim (Option-cases (empty_slot ps)) [
    | inl e ↦ cc
    | inr (j, e) ↦
        let (q, at, idle) = empty_slot-get_elem? ps j e in
        let i_is : i ≡ suc j = ground arith in (q, rw i_is at, idle)
  ]
]

-- In a table of at most 32000 entries with an unused slot, and with a last number of at most 32001,
-- `ptab_alloc` succeeds: the slot it returns was unused and now holds a process in state P_FORKING
-- with a number from 1 to 32001 that no process of the table had, which is also the new last number,
-- and with all other fields 0, no parent, no signals and no alarm; every other slot is as it was.
pub ptab_alloc_new :
    (nextpid i : ℕ) (ps : List PTab)
    → empty_slot ps ≡ some i
    → length ps ≤ 32000
    → nextpid ≤ 32001
    → (pid : ℕ) × (ps' : List PTab) × (ptab_alloc nextpid ps ≡ some (i, pid, ps'))
      × (pid_taken pid ps ≡ false)
      × ((0 < pid) × (pid ≤ 32001))
      × ((p : PTab) × (get_elem? ps i ≡ some p) × (p.p_status ≡ p_empty))
      × (get_elem? ps' i
          ≡ some (record {
            p_status = p_forking;
            p_pid = pid;
            p_uid = 0;
            p_pptr = none;
            p_swap = 0;
            p_alarm = 0;
            p_exitval = 0;
            p_wait = 0;
            p_priority = 0;
            p_pending = 0;
            p_ignored = 0;
          }))
      × ((j : ℕ) → i ≢ j → get_elem? ps' j ≡ get_elem? ps j)
unfolding ptab_alloc
ptab_alloc_new nextpid i ps free small last =
    let (pid, run, new, lo, hi) =
      free_pid-found (length ps + 1) nextpid (pids ps) ps last (omega (arith, length-pids ps))
        (omega arith) (λ j p. sym (pid_taken-has (tried nextpid j) ps)) in
    let (p, at, idle) = empty_slot-get_elem? ps i free in
    (
      pid,
      set ps i (forking pid),
      rw (free, run),
      new,
      (lo, hi),
      (p, at, idle),
      get_elem?-set_self ps i p (forking pid) at,
      λ j ne. get_elem?-set_ne ps i j (forking pid) ne,
    )

-- Without an unused slot it returns a null pointer.
ptab_alloc-none :
    (nextpid : ℕ) (ps : List PTab) → empty_slot ps ≡ none → ptab_alloc nextpid ps ≡ none
unfolding ptab_alloc
ptab_alloc-none nextpid ps full = rw full

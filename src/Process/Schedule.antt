-- ===== src/Process/Schedule.antt =====
-- `getproc` of uzi-nes-port/kernel/process.c is a round robin.
use uzi_build.Prelude.{
  ℕ, zero, suc, ◌+◌, ◌-◌, ◌≤◌, ◌<◌, ◌≡◌, refl, ◌≢◌, ◌⊎◌, inl, inr, false, List, arith, ap, sym, leb,
  ◌==◌, if◌then◌else◌, length, Bool-cases,
}
use uzi_build.Kernel.{PTab}
use uzi_build.Process.{p_running, p_ready, Pick, chosen, looking, next_slot, status_at, getproc}

-- The slot that is looked at in round `r`, counted from 0.
abbrev pub visited : ℕ → ℕ → ℕ → ℕ
visited n pp r = if leb n (pp + 1 + r) then pp + 1 + r - n else pp + 1 + r

-- The rounds find nothing, or stop at the first ready slot.
abbrev Outcome : List PTab → ℕ → ℕ → Pick → Type 0
Outcome ps rounds pp result =
    ((result ≡ looking)
      × ((r : ℕ) → r < rounds → status_at ps (visited (length ps) pp r) ≢ p_ready))
    ⊎ ((r : ℕ) × (r < rounds)
        × (result ≡ chosen (visited (length ps) pp r))
        × (status_at ps (visited (length ps) pp r) ≡ p_ready)
        × ((q : ℕ) → q < r → status_at ps (visited (length ps) pp q) ≢ p_ready))

-- One more round in front of those from the next slot on.
Outcome-next :
    (ps : List PTab) (rounds pp : ℕ) (result : Pick)
    → pp < length ps
    → suc rounds ≤ length ps
    → status_at ps (next_slot pp ps) ≢ p_ready
    → Outcome ps rounds (next_slot pp ps) result
    → Outcome ps (suc rounds) pp result
Outcome-next ps rounds pp result p q no_now (inl (e, nothing)) = inl (e, all)
  where
    all : (r : ℕ) → r < suc rounds → status_at ps (visited (length ps) pp r) ≢ p_ready
    all zero h = let at : visited (length ps) pp 0 ≡ next_slot pp ps = ground arith in rw at no_now
    all (suc r) h =
        let at : visited (length ps) pp (suc r) ≡ visited (length ps) (next_slot pp ps) r =
          ground arith in
        rw at (nothing r (omega arith))
Outcome-next ps rounds pp result p q no_now (inr (r, h, e, ready, before)) =
    let at : visited (length ps) pp (suc r) ≡ visited (length ps) (next_slot pp ps) r =
      ground arith in
    inr (suc r, omega arith, rw at e, rw at ready, earlier)
  where
    earlier : (k : ℕ) → k < suc r → status_at ps (visited (length ps) pp k) ≢ p_ready
    earlier zero s =
        let at : visited (length ps) pp 0 ≡ next_slot pp ps = ground arith in rw at no_now
    earlier (suc k) s =
        let at : visited (length ps) pp (suc k) ≡ visited (length ps) (next_slot pp ps) k =
          ground arith in
        rw at (before k (omega arith))

getproc-Outcome :
    (ps : List PTab) (rounds pp : ℕ)
    → pp < length ps
    → rounds ≤ length ps
    → ((i : ℕ) → status_at ps i ≢ p_running)
    → Outcome ps rounds pp (getproc rounds pp ps)
unfolding getproc
getproc-Outcome ps zero pp p q none_runs = inl (refl, λ r h. absurd (omega arith))
getproc-Outcome ps (suc rounds) pp p q none_runs =
    let still : (status_at ps (next_slot pp ps) == p_running) ≡ false =
      ground (arith, none_runs (next_slot pp ps)) in
    elim (Bool-cases (status_at ps (next_slot pp ps) == p_ready)) [
      | inl ready ↦
          let at : visited (length ps) pp 0 ≡ next_slot pp ps = ground arith in
          rw (still, ready)
            (inr (
              0,
              omega arith,
              ap chosen (sym at),
              rw at (ground arith),
              λ k h. absurd (omega arith),
            ))
      | inr no_now ↦
          rw (still, no_now)
            (Outcome-next ps rounds pp _ p q (ground arith)
              (getproc-Outcome ps rounds (next_slot pp ps) (ground arith) (omega arith) none_runs))
    ]

-- In a table in which nothing is marked running and some process is ready, one turn round the table is
-- enough for `getproc`, from any slot: it chooses a ready process, the first in the order that starts
-- behind that slot and goes round.
pub getproc_round_robin :
    (ps : List PTab) (pp j : ℕ)
    → pp < length ps
    → ((i : ℕ) → status_at ps i ≢ p_running)
    → j < length ps
    → status_at ps j ≡ p_ready
    → (r : ℕ) × (r < length ps)
      × (getproc (length ps) pp ps ≡ chosen (visited (length ps) pp r))
      × (status_at ps (visited (length ps) pp r) ≡ p_ready)
      × ((q : ℕ) → q < r → status_at ps (visited (length ps) pp q) ≢ p_ready)
getproc_round_robin ps pp j p none_runs h ready =
    pick (getproc-Outcome ps (length ps) pp p (omega arith) none_runs)
  where
    turn : ℕ
    turn = if leb (pp + 1) j then j - (pp + 1) else j + length ps - (pp + 1)

    pick :
        Outcome ps (length ps) pp (getproc (length ps) pp ps)
        → (r : ℕ) × (r < length ps)
          × (getproc (length ps) pp ps ≡ chosen (visited (length ps) pp r))
          × (status_at ps (visited (length ps) pp r) ≡ p_ready)
          × ((q : ℕ) → q < r → status_at ps (visited (length ps) pp q) ≢ p_ready)
    pick (inr found) = found
    pick (inl (e, nothing)) =
        let at : visited (length ps) pp turn ≡ j = ground arith in
        absurd (nothing turn (ground arith) (rw at ready))

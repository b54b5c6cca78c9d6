-- ===== src/Process/Sleep.antt =====
-- `psleep` and `wakeup` of uzi-nes-port/kernel/process.c.
use uzi_build.Prelude.{ℕ, zero, suc, ◌≡◌, ◌≢◌, List, [], ◌∷◌, some, arith, get_elem?, ◌≤◌}
use uzi_build.Kernel.{PTab}
use uzi_build.Process.{p_running, p_ready, woken, psleep, wakeup}

get_elem?-wakeup :
    (event : ℕ) (ps : List PTab) (i : ℕ) (p : PTab)
    → get_elem? ps i ≡ some p
    → get_elem? (wakeup event ps) i ≡ some (woken event p)
unfolding wakeup
get_elem?-wakeup event [] i p h = cc
get_elem?-wakeup event (x ∷ ps) zero p h = let e : x ≡ p = cc in rw e
get_elem?-wakeup event (x ∷ ps) (suc i) p h = get_elem?-wakeup event ps i p h

-- A process that has gone to sleep is made ready, and waits for nothing any more, by the wakeup for its
-- event, and stays as it is at the wakeup for any other event.
pub wakeup-psleep :
    (self event other i : ℕ) (p q : PTab) (ps : List PTab)
    → psleep self event p ≡ some q
    → get_elem? ps i ≡ some q
    → other ≢ event
    → (get_elem? (wakeup event ps) i ≡ some (record q { p_status = p_ready; p_wait = 0 }))
      × (get_elem? (wakeup other ps) i ≡ some q)
unfolding psleep
wakeup-psleep self event other i p q ps slept at ne = (
  ground (arith, get_elem?-wakeup event ps i q at),
  ground (arith, get_elem?-wakeup other ps i q at),
)

-- No wakeup touches a process that runs or a slot that is unused.
pub wakeup-running :
    (event i : ℕ) (p : PTab) (ps : List PTab)
    → get_elem? ps i ≡ some p
    → p.p_status ≤ p_running
    → get_elem? (wakeup event ps) i ≡ some p
wakeup-running event i p ps at low = ground (arith, get_elem?-wakeup event ps i p at)

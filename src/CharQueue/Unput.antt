-- ===== src/CharQueue/Unput.antt =====
-- `uninsq` of uzi-nes-port/drivers/devio.c, which is to take back the last character inserted. Its
-- test `--q_tail <= q_base` also holds when `q_tail` comes to rest on `q_base` itself.
use uzi_build.Prelude.{
  ℕ, ◌+◌, ◌-◌, ◌<◌, ◌≡◌, ◌≢◌, some, arith, get_or, set, get_or-set_self, get_or-set_ne,
}
use uzi_build.CharQueue.{SQueue, insq, uninsq}
use uzi_build.CharQueue.Inv.{IsValid}

-- On a valid queue that is not full, where the inserted character did not go into slot 0 of the
-- array, `uninsq` right after `insq` gives that character back and restores the counter and the
-- tail.
pub uninsq-insq :
    {q : SQueue} (c : ℕ)
    → IsValid q
    → q.q_count < q.q_size
    → q.q_tail ≢ q.q_base
    → let r = uninsq (insq q c).1 in
      (r.0 ≡ some c) × (r.1.q_count ≡ q.q_count) × (r.1.q_tail ≡ q.q_tail)
unfolding insq uninsq
uninsq-insq {q} c v room ne = ground (arith, get_or-set_self q.chars (q.q_tail - q.q_base) c 0)

-- The queue between the two calls, when the tail stood on slot 0.
inserted : (q : SQueue) → ℕ → SQueue
inserted q c = record q { chars = set q.chars 0 c; q_count = q.q_count + 1; q_tail = q.q_base + 1 }

insq_slot_zero :
    {q : SQueue} (c : ℕ)
    → IsValid q
    → q.q_count < q.q_size
    → 1 < q.q_size
    → q.q_tail ≡ q.q_base
    → (insq q c).1 ≡ inserted q c
unfolding insq inserted
insq_slot_zero {q} c v room two e =
    let at_zero : q.q_tail - q.q_base ≡ 0 = omega arith in rw at_zero (ground arith)

-- On a valid queue of two or more characters that is not full, where the inserted character went
-- into slot 0 of the array, `uninsq` right after `insq` returns the old content of the last slot
-- instead and leaves the tail on that slot: the queue is then not valid.
pub uninsq-insq_slot_zero :
    {q : SQueue} (c : ℕ)
    → IsValid q
    → q.q_count < q.q_size
    → 1 < q.q_size
    → q.q_tail ≡ q.q_base
    → let r = uninsq (insq q c).1 in
      (r.0 ≡ some (get_or q.chars (q.q_size - 1) 0)) × (¬ (IsValid r.1))
unfolding uninsq inserted
uninsq-insq_slot_zero {q} c v room two e =
    rw (insq_slot_zero c v room two e)
      (ground (arith, get_or-set_ne q.chars 0 (q.q_size - 1) c 0), λ w. ground (arith, w.tail_at))

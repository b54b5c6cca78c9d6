-- ===== src/CharQueue/Inv.antt =====
-- The representation invariant of `struct s_queue` in uzi-nes-port/drivers/devio.c: what the
-- pointers and the counter say of one another, and that the three operations keep it.
use uzi_build.Prelude.{ℕ, ◌+◌, ◌-◌, ◌≤◌, ◌<◌, ◌≡◌, arith, leb, if◌then◌else◌, length, length-set}
use uzi_build.CharQueue.{SQueue, insq, remq}

-- The offset of `q_head`, and the slot that is `i` places behind it round the array.
abbrev pub front : SQueue → ℕ
front q = q.q_head - q.q_base

abbrev pub slot : ℕ → ℕ → ℕ → ℕ
slot size h i = if leb size (h + i) then h + i - size else h + i

pub record IsValid (q : SQueue) : Type 0 where
  pub size_pos : 0 < q.q_size
  pub size_small : q.q_size < 32768
  pub base_pos : 0 < q.q_base
  pub fits : q.q_base + q.q_size < 65536
  pub stored : length q.chars ≡ q.q_size
  pub head_lo : q.q_base ≤ q.q_head
  pub head_hi : q.q_head < q.q_base + q.q_size
  pub count_le : q.q_count ≤ q.q_size
  pub tail_at : q.q_tail ≡ q.q_base + slot q.q_size (front q) q.q_count

-- `insq` keeps the queue valid, whether it stores the character or refuses it.
pub insq-IsValid : {q : SQueue} (c : ℕ) → IsValid q → IsValid (insq q c).1
unfolding insq
insq-IsValid {q} c v = ground (arith, length-set q.chars (q.q_tail - q.q_base) c)

-- `remq` keeps the queue valid, whether it takes a character or finds none.
pub remq-IsValid : {q : SQueue} → IsValid q → IsValid (remq q).1
unfolding remq
remq-IsValid v = ground arith

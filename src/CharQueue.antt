-- ===== src/CharQueue.antt =====
-- The character queues of uzi-nes-port/drivers/devio.c: `struct s_queue`, `insq`, `remq`, `uninsq`
-- and `fullq`. The pointers are addresses; `chars` is the array of `q_size` characters at `q_base`.
-- Each body runs with interrupts off, so it is one step.
pub mod Inv
pub mod Fifo
pub mod Unput
use uzi_build.Prelude.{
  ℕ, ◌-◌, Bool, List, Option, none, some, add16, sub16, signed_lt, leb, ◌==◌, if◌then◌else◌, get_or,
  set,
}

pub record SQueue : Type 0 where
  pub q_base : ℕ
  pub q_head : ℕ
  pub q_tail : ℕ
  pub q_size : ℕ
  pub q_count : ℕ
  pub q_wakeup : ℕ
  pub chars : List ℕ

-- `*p` and `*p = c` for a pointer into the array.
abbrev pub char_at : SQueue → ℕ → ℕ
char_at q p = get_or q.chars (p - q.q_base) 0

abbrev pub put_char : SQueue → ℕ → ℕ → List ℕ
put_char q p c = set q.chars (p - q.q_base) c

abbrev pub limit : SQueue → ℕ
limit q = add16 q.q_base q.q_size

-- `if (++p >= q_base + q_size) p = q_base`
abbrev pub advance : SQueue → ℕ → ℕ
advance q p = if leb (limit q) (add16 p 1) then q.q_base else add16 p 1

-- The number is the result of the call.
pub insq : SQueue → ℕ → ℕ × SQueue
insq q c = if q.q_count == q.q_size then (0, q) else (
  1,
  record q {
    chars = put_char q q.q_tail c;
    q_count = add16 q.q_count 1;
    q_tail = advance q q.q_tail;
  },
)

-- The option is what goes through `cp`: nothing when the call returns 0.
pub remq : SQueue → Option ℕ × SQueue
remq q = if q.q_count == 0 then (none, q) else (
  some (char_at q q.q_head),
  record q { q_count = sub16 q.q_count 1; q_head = advance q q.q_head },
)

-- `if (--q_tail <= q_base) q_tail = q_base + q_size - 1`
abbrev pub retreat : SQueue → ℕ → ℕ
retreat q p = if leb (sub16 p 1) q.q_base then sub16 (limit q) 1 else sub16 p 1

pub uninsq : SQueue → Option ℕ × SQueue
uninsq q = if q.q_count == 0 then (none, q) else (
  some (char_at q (retreat q q.q_tail)),
  record q { q_count = sub16 q.q_count 1; q_tail = retreat q q.q_tail },
)

pub fullq : SQueue → Bool
fullq q = signed_lt q.q_wakeup q.q_count

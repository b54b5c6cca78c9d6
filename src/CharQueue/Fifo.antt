-- ===== src/CharQueue/Fifo.antt =====
-- The ring of uzi-nes-port/drivers/devio.c against a bounded first-in first-out queue.
use mathlib.Core.Path.{ap₂}
use uzi_build.Prelude.{
  sub16, leb, ℕ, zero, suc, ◌+◌, ◌-◌, ◌<◌, ◌≡◌, refl, ap, ◌∙◌, List, [], ◌∷◌, ◌++◌, Option, none,
  some, arith, ◌==◌, if◌then◌else◌, get_or, set, length, length-append, get_or-set_self,
  get_or-set_ne, Bool-cases, inl, inr, add16,
}
use uzi_build.CharQueue.{SQueue, insq, remq, advance}
use uzi_build.CharQueue.Inv.{IsValid, front, slot}

-- f 0, ..., f (n - 1)
abbrev pub tabulate : ℕ → (ℕ → ℕ) → List ℕ
tabulate zero f = []
tabulate (suc n) f = tabulate n f ++ (f n ∷ [])

length-tabulate : (n : ℕ) (f : ℕ → ℕ) → length (tabulate n f) ≡ n
length-tabulate zero f = refl
length-tabulate (suc n) f =
    omega (arith, length-append (tabulate n f) (f n ∷ []), length-tabulate n f)

tabulate-eq : (n : ℕ) (f g : ℕ → ℕ) → ((i : ℕ) → i < n → f i ≡ g i) → tabulate n f ≡ tabulate n g
tabulate-eq zero f g h = refl
tabulate-eq (suc n) f g h = cc (tabulate-eq n f g (λ i p. h i (omega arith)), h n (omega arith))

tabulate-cons : (n : ℕ) (f : ℕ → ℕ) → tabulate (suc n) f ≡ f 0 ∷ tabulate n (λ i. f (suc i))
tabulate-cons zero f = refl
tabulate-cons (suc n) f = ap (λ l. l ++ (f (suc n) ∷ [])) (tabulate-cons n f)

-- The character `i` places behind offset `h`, going round an array of `size`.
abbrev pub at : List ℕ → ℕ → ℕ → ℕ → ℕ
at chars size h i = get_or chars (slot size h i) 0

-- The characters of the queue, the oldest first.
abbrev pub contents : SQueue → List ℕ
contents q = tabulate q.q_count (at q.chars q.q_size (front q))

-- Storing a character just past `n` characters adds it at their end.
tabulate-set :
    (chars : List ℕ) (size h n c : ℕ)
    → length chars ≡ size
    → h < size
    → n < size
    → tabulate (suc n) (at (set chars (slot size h n) c) size h)
      ≡ tabulate n (at chars size h) ++ (c ∷ [])
tabulate-set chars size h n c stored hh hn = cc (
  tabulate-eq n (at (set chars (slot size h n) c) size h) (at chars size h)
      (λ i p. get_or-set_ne chars (slot size h n) (slot size h i) c 0 (ground arith)),
  get_or-set_self chars (slot size h n) c 0 (ground arith),
)

-- The offset behind `h`.
abbrev behind : ℕ → ℕ → ℕ
behind size h = if leb size (h + 1) then 0 else h + 1

tabulate-behind :
    (chars : List ℕ) (size h n : ℕ)
    → h < size
    → n < size
    → tabulate (suc n) (at chars size h)
      ≡ get_or chars h 0 ∷ tabulate n (at chars size (behind size h))
tabulate-behind chars size h n hh hn =
    tabulate-cons n (at chars size h)
    ∙ ap₂ ◌∷◌ (ap (λ k. get_or chars k 0) (ground arith)) (
        tabulate-eq n (λ i. at chars size h (suc i)) (at chars size (behind size h))
          λ i p. ap (λ k. get_or chars k 0) (ground arith))

-- The abstract queue of at most `size` characters.
unfoldable pub enqueue : ℕ → List ℕ → ℕ → ℕ × List ℕ
enqueue size l c = if length l == size then (0, l) else (1, l ++ (c ∷ []))

unfoldable pub dequeue : List ℕ → Option ℕ × List ℕ
dequeue [] = (none, [])
dequeue (c ∷ l) = (some c, l)

-- On a valid queue `insq` answers as the bounded queue does, 0 when it is full and 1 otherwise, and
-- leaves the characters that the bounded queue holds.
pub insq_refines :
    {q : SQueue} (c : ℕ)
    → IsValid q
    → ((insq q c).0, contents (insq q c).1) ≡ enqueue q.q_size (contents q) c
unfolding insq enqueue
insq_refines {q} c v = elim (Bool-cases (q.q_count == q.q_size)) [
  | inl full ↦ rw (full, length-tabulate q.q_count (at q.chars q.q_size (front q)), full)
  | inr room ↦
      let put : q.q_tail - q.q_base ≡ slot q.q_size (front q) q.q_count = ground arith in
      let count : add16 q.q_count 1 ≡ suc q.q_count = ground arith in
      rw (room, length-tabulate q.q_count (at q.chars q.q_size (front q)), room, put, count)
        (ap (λ l. (1, l))
          (tabulate-set q.chars q.q_size (front q) q.q_count c v.stored (omega arith)
            (ground arith)))
]

-- On a valid queue `remq` takes the character that the bounded queue would give, the oldest, or none
-- from an empty queue, and leaves the rest in order.
pub remq_refines :
    {q : SQueue} → IsValid q → ((remq q).0, contents (remq q).1) ≡ dequeue (contents q)
unfolding remq dequeue
remq_refines {q} v = elim (Bool-cases (q.q_count == 0)) [
  | inl none_left ↦ let count : q.q_count ≡ 0 = ground arith in rw (none_left, count)
  | inr more ↦
      let n = q.q_count - 1 in
      let count : q.q_count ≡ suc n = ground arith in
      let same : suc n - 1 ≡ n = omega arith in
      let taken : sub16 q.q_count 1 ≡ n = ground arith in
      let next : advance q q.q_head - q.q_base ≡ behind q.q_size (front q) = ground arith in
      rw
        (
          more,
          taken,
          next,
          count,
          tabulate-behind q.chars q.q_size (front q) n (omega arith) (omega arith),
        )
        (ap
          (λ k. (
            some (get_or q.chars (front q) 0),
            tabulate k (at q.chars q.q_size (behind q.q_size (front q))),
          ))
          same)
]

-- ===== src/Tests/Queues.antt =====
-- The character queues of uzi-nes-port/drivers/devio.c on a queue of four characters.
use uzi_build.Prelude.{ℕ, ◌≡◌, refl, [], ◌∷◌, some, arith}
use uzi_build.CharQueue.{SQueue, insq, remq, uninsq}
use uzi_build.CharQueue.Inv.{IsValid}
use uzi_build.CharQueue.Fifo.{contents, enqueue, dequeue, insq_refines, remq_refines}
use uzi_build.Kernel.{Kernel}
use uzi_build.Kernel.Returns.{Returns}
use uzi_build.Kernel.Memory.{fetch}
use uzi_build.Terminal.{tty_read}
use uzi_build.Terminal.Line.{tty_read_lem}
use uzi_build.Tests.Sample.{user, sample}
use uzi_build.CharQueue.Unput.{uninsq-insq, uninsq-insq_slot_zero}

-- It begins at address 100, and two characters wait.
abbrev waiting : ℕ → ℕ → SQueue
waiting head tail = record {
  q_base = 100;
  q_head = head;
  q_tail = tail;
  q_size = 4;
  q_count = 2;
  q_wakeup = 3;
  chars = 65 ∷ 66 ∷ 67 ∷ 68 ∷ [];
}

waiting-IsValid : IsValid (waiting 101 103)
waiting-IsValid = record {
  size_pos = omega arith;
  size_small = omega arith;
  base_pos = omega arith;
  fits = omega arith;
  stored = refl;
  head_lo = omega arith;
  head_hi = omega arith;
  count_le = omega arith;
  tail_at = refl;
}

wrapped-IsValid : IsValid (waiting 102 100)
wrapped-IsValid = record {
  size_pos = omega arith;
  size_small = omega arith;
  base_pos = omega arith;
  fits = omega arith;
  stored = refl;
  head_lo = omega arith;
  head_hi = omega arith;
  count_le = omega arith;
  tail_at = refl;
}

insq_refines_example :
    ((insq (waiting 101 103) 70).0, contents (insq (waiting 101 103) 70).1)
    ≡ enqueue 4 (66 ∷ 67 ∷ []) 70
insq_refines_example = insq_refines {q = waiting 101 103} 70 waiting-IsValid

remq_refines_example :
    ((remq (waiting 101 103)).0, contents (remq (waiting 101 103)).1) ≡ dequeue (66 ∷ 67 ∷ [])
remq_refines_example = remq_refines {q = waiting 101 103} waiting-IsValid

uninsq-insq_example :
    let r = uninsq (insq (waiting 101 103) 70).1 in
    (r.0 ≡ some 70) × (r.1.q_count ≡ 2) × (r.1.q_tail ≡ 103)
uninsq-insq_example =
    uninsq-insq {q = waiting 101 103} 70 waiting-IsValid (omega arith) (λ e. absurd (omega arith))

uninsq-insq_slot_zero_example :
    let r = uninsq (insq (waiting 102 100) 70).1 in (r.0 ≡ some 68) × (¬ (IsValid r.1))
uninsq-insq_slot_zero_example =
    uninsq-insq_slot_zero {q = waiting 102 100} 70 wrapped-IsValid (omega arith) (omega arith) refl

-- `B`, a newline and `C` have been typed.
abbrev typed : SQueue
typed = record {
  q_base = 100;
  q_head = 103;
  q_tail = 102;
  q_size = 4;
  q_count = 3;
  q_wakeup = 3;
  chars = 10 ∷ 67 ∷ 68 ∷ 66 ∷ [];
}

typed-IsValid : IsValid typed
typed-IsValid = record {
  size_pos = omega arith;
  size_small = omega arith;
  base_pos = omega arith;
  fits = omega arith;
  stored = refl;
  head_lo = omega arith;
  head_hi = omega arith;
  count_le = omega arith;
  tail_at = refl;
}

abbrev reader : Kernel
reader = record sample { ttyinq = typed; udata = record user { u_base = 30000; u_count = 80 } }

tty_read_lem_example : Returns (tty_read 5000 [] reader) (λ r k'.
    (r ≡ 2)
    × (fetch k'.memory 30000 2 ≡ 66 ∷ 10 ∷ [])
    × (contents k'.ttyinq ≡ 67 ∷ [])
    × IsValid k'.ttyinq)
tty_read_lem_example =
    tty_read_lem reader 5000 [] (66 ∷ []) (67 ∷ []) typed-IsValid refl
      ((λ e. absurd (omega arith)), tt) (λ e. absurd (omega arith)) (omega arith) (omega arith)

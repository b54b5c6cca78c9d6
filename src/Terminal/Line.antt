-- ===== src/Terminal/Line.antt =====
-- A line typed at the terminal of uzi-nes-port/drivers/devtty.c, read by `tty_read`.
use uzi_build.Prelude.{
  ℕ, zero, suc, ◌+◌, ◌≡◌, ◌≢◌, ◌<◌, ◌≤◌, refl, sym, ap, inl, inr, Bool-cases, ◌∙◌, true, false,
  ◌&&◌, List, [], ◌∷◌, ◌++◌, some, arith, ◌==◌, ltb, length, length-append, get_or, add16,
}
use uzi_build.Kernel.{Kernel, ok}
use uzi_build.Kernel.Returns
use uzi_build.Kernel.Returns.{Returns}
use uzi_build.Kernel.Memory.{fetch, store, put_bytes, fetch-store, store-cons}
use uzi_build.CharQueue.{remq}
use uzi_build.CharQueue.Inv.{IsValid, remq-IsValid}
use uzi_build.CharQueue.Fifo.{contents, dequeue, remq_refines}
use uzi_build.Process.Waiting.{Others}
use uzi_build.Terminal.{newline, end_of_input, take_char, await, step_base, read_chars, tty_read}

-- No character of the list ends a line.
abbrev pub IsOneLine : List ℕ → Type 0
IsOneLine [] = Unit {0}
IsOneLine (c ∷ cs) = (c ≢ newline) × IsOneLine cs

-- What is left after a line has been read to the place `base`.
pub record Line (k : Kernel) (n : ℕ) (line rest : List ℕ) (r : ℕ) (k' : Kernel) : Type 0 where
  pub count : r ≡ n + length line + 1
  pub memory : k'.memory ≡ store k.memory k.udata.u_base (line ++ (newline ∷ []))
  pub waiting : contents k'.ttyinq ≡ rest
  pub valid : IsValid k'.ttyinq

-- The state after a character has been taken.
abbrev taken : ℕ → Kernel → Kernel
taken c k = put_bytes k.udata.u_base (c ∷ []) (record k { ttyinq = (remq k.ttyinq).1 })

await_first :
    (k k' : Kernel) (event c : ℕ) (others : Others)
    → take_char k ≡ ok (some c) k'
    → await take_char event others k ≡ ok (some (c, others)) k'
unfolding await
await_first k k' event c [] h = rw h refl
await_first k k' event c (resume ∷ others) h = rw h refl

taken_lem :
    (k : Kernel) (event c : ℕ) (others : Others) (rest : List ℕ)
    → IsValid k.ttyinq
    → contents k.ttyinq ≡ c ∷ rest
    → (await take_char event others k ≡ ok (some (c, others)) (taken c k))
      × (contents (remq k.ttyinq).1 ≡ rest)
unfolding take_char dequeue
taken_lem k event c others rest v h =
    let both : ((remq k.ttyinq).0, contents (remq k.ttyinq).1) ≡ (some c, rest) =
      remq_refines v ∙ ap dequeue h in
    let first : (remq k.ttyinq).0 ≡ some c = ap (λ x. x.0) both in
    (await_first k (taken c k) event c others (rw first refl), ap (λ x. x.1) both)

not_end : (n c : ℕ) → (n ≡ 0 → c ≢ end_of_input) → (n == 0 && c == end_of_input) ≡ false
not_end n c h = elim (Bool-cases (n == 0)) [
  | inl e ↦ (let z : n ≡ 0 = ground arith in let ne = h z in ground arith)
  | inr e ↦ rw e refl
]

read_chars_lem :
    (rounds : ℕ) (event : ℕ) (others : Others) (n : ℕ) (k : Kernel) (line rest : List ℕ)
    → IsValid k.ttyinq
    → contents k.ttyinq ≡ line ++ (newline ∷ rest)
    → IsOneLine line
    → (n ≡ 0 → get_or line 0 0 ≢ end_of_input)
    → n + length line < k.udata.u_count
    → k.udata.u_count < 65536
    → length line < rounds
    → Returns (read_chars rounds event others n k) (λ r k'. Line k n line rest r k')
unfolding read_chars
read_chars_lem zero event others n k line rest v h all start room fits enough = absurd (omega arith)
read_chars_lem (suc rounds) event others n k [] rest v h all start room fits enough =
    let (got, left) = taken_lem k event newline others rest v h in
    let more : ltb n k.udata.u_count ≡ true = ground arith in
    let plain : (n == 0 && newline == end_of_input) ≡ false = ground arith in
    rw (more, got, plain)
      (record {
        value = add16 n 1;
        state = taken newline k;
        result = refl;
        post = record {
          count = omega arith;
          memory = refl;
          waiting = left;
          valid = remq-IsValid v;
        };
      })
read_chars_lem (suc rounds) event others n k (c ∷ line) rest v h (ne, all) start room fits enough =
    let (got, left) = taken_lem k event c others (line ++ (newline ∷ rest)) v h in
    let more : ltb n k.udata.u_count ≡ true = ground arith in
    let plain : (n == 0 && c == end_of_input) ≡ false = not_end n c start in
    let inside : (c == newline) ≡ false = ground arith in
    let next : add16 n 1 ≡ n + 1 = omega arith in
    rw (more, got, plain, inside, next)
      (Returns.weaken
        (read_chars_lem rounds event others (n + 1) (step_base (taken c k)) line rest
          (remq-IsValid v) left all (λ z. absurd (omega arith)) (omega arith) fits (omega arith))
        λ r k' l.
          let count = l.count in
          record {
            count = omega arith;
            memory = l.memory ∙ sym (store-cons k.memory k.udata.u_base c (line ++ (newline ∷ [])));
            waiting = l.waiting;
            valid = l.valid;
          })

-- When a whole line waits in a valid queue, which does not start with an end of input and, with its
-- newline, is not longer than the reader asks for, and the place for it is within the memory, `tty_read`
-- comes back without sleep: it returns the length of the line with its newline, the line is in the
-- memory of the reader, and what was typed behind it still waits, in order.
pub tty_read_lem :
    (k : Kernel) (event : ℕ) (others : Others) (line rest : List ℕ)
    → IsValid k.ttyinq
    → contents k.ttyinq ≡ line ++ (newline ∷ rest)
    → IsOneLine line
    → get_or line 0 0 ≢ end_of_input
    → length line < k.udata.u_count
    → k.udata.u_base + k.udata.u_count ≤ 65535
    → Returns (tty_read event others k) (λ r k'.
      (r ≡ length line + 1)
      × (fetch k'.memory k.udata.u_base (length line + 1) ≡ line ++ (newline ∷ []))
      × (contents k'.ttyinq ≡ rest)
      × IsValid k'.ttyinq)
unfolding tty_read
tty_read_lem k event others line rest v h all start room fits =
    Returns.weaken
      (read_chars_lem (suc k.udata.u_count) event others 0 k line rest v h all (λ z. start)
        (omega arith) (omega arith) (omega arith))
      λ r k' l.
        let long : length (line ++ (newline ∷ [])) ≡ length line + 1 =
          length-append line (newline ∷ []) in
        let back = fetch-store k.memory k.udata.u_base (line ++ (newline ∷ [])) (omega arith) in
        ((let count = l.count in omega arith), rw (l.memory) (rw long at back), l.waiting, l.valid)

-- ===== src/Ppu/Queue/Room.antt =====
-- The write buffer of uzi-nes-port/ppu/ppu_databuf.c never overflows.
use uzi_build.Prelude.{
  ℕ, ◌+◌, ◌<◌, ◌≤◌, ◌≡◌, sym, ◌∙◌, inl, inr, List, ◌++◌, ltb, arith, take, drop, length, get_or,
  set, length-append, length-set, length-take, length-drop, get_or-set_self, Bool-cases,
  Option-cases,
}
use uzi_build.Ppu.Queue.{
  PpuDesc, Databuf, datalen, desc_bytes, desc_size, buf_size, copy_to, calc_desc_weight, queued,
  again, bad, queue_descriptor, max_cycles, base_cycles,
}

-- The position lies in the buffer, and a 0 stands there: the interrupt handler stops at it.
pub record IsTerminated (b : Databuf) : Type 0 where
  pub size : length b.bytes ≡ buf_size
  pub within : b.databuf_pos < buf_size
  pub stop : get_or b.bytes b.databuf_pos 0 ≡ 0

length-copy_to :
    (n : ℕ) (xs buf : List ℕ) → n + length xs ≤ length buf → length (copy_to n xs buf) ≡ length buf
length-copy_to n xs buf p = omega (
  arith,
  length-append (take n buf) (xs ++ drop (n + length xs) buf),
  length-append xs (drop (n + length xs) buf),
  length-take n buf,
  length-drop (n + length xs) buf,
)

-- The buffer with a descriptor and its data.
appended : PpuDesc → List ℕ → Databuf → Databuf
appended d src b = record {
  bytes =
      set (copy_to b.databuf_pos (desc_bytes d ++ take (datalen d) src) b.bytes)
        (b.databuf_pos + desc_size + datalen d) 0;
  databuf_pos = b.databuf_pos + desc_size + datalen d;
}

appended-IsTerminated :
    (d : PpuDesc) (src : List ℕ) (b : Databuf)
    → IsTerminated b
    → datalen d ≤ length src
    → b.databuf_pos + desc_size + datalen d + 1 ≤ buf_size
    → IsTerminated (appended d src b)
unfolding appended
appended-IsTerminated d src b v enough p =
    let xs = desc_bytes d ++ take (datalen d) src in
    let pos = b.databuf_pos + desc_size + datalen d in
    let long : length xs ≡ desc_size + datalen d =
      omega
        (arith, length-append (desc_bytes d) (take (datalen d) src), length-take (datalen d) src) in
    let size : length (copy_to b.databuf_pos xs b.bytes) ≡ 65 =
      length-copy_to b.databuf_pos xs b.bytes (omega (arith, v.size)) ∙ v.size in
    record {
      size = length-set (copy_to b.databuf_pos xs b.bytes) pos 0 ∙ size;
      within = omega arith;
      stop = get_or-set_self (copy_to b.databuf_pos xs b.bytes) pos 0 0 (omega arith);
    }

-- A descriptor that is queued with as many bytes of data as it takes keeps the buffer's size, ends within
-- it, and is followed by a 0.
pub queue_descriptor-IsTerminated :
    (d : PpuDesc) (src : List ℕ) (b b' : Databuf)
    → IsTerminated b
    → datalen d ≤ length src
    → queue_descriptor d src b ≡ queued b'
    → IsTerminated b'
unfolding queue_descriptor appended
queue_descriptor-IsTerminated d src b b' v enough h =
    elim (Bool-cases (ltb buf_size (b.databuf_pos + desc_size + datalen d + 1))) [
      | inl e ↦ let no : again ≡ queued b' = rw e at h in cc
      | inr e ↦ elim (Option-cases (calc_desc_weight d)) [
        | inl q ↦ let no : bad ≡ queued b' = rw (e, q) at h in cc
        | inr (w, q) ↦ elim (Bool-cases (ltb max_cycles (w + base_cycles))) [
          | inl z ↦ let no : again ≡ queued b' = rw (e, q, z) at h in cc
          | inr z ↦
              let is : queued (appended d src b) ≡ queued b' = rw (e, q, z) at h in
              let eq : appended d src b ≡ b' = cc in
              rw (sym eq) (appended-IsTerminated d src b v enough (ground arith))
        ]
      ]
    ]

-- ===== src/Transfer/RoundTrip.antt =====
-- What `writei` of uzi-nes-port/kernel/scall1.c has written to a file, read back by `readi`.
use uzi_build.Prelude.{
  ℕ, zero, suc, ◌+◌, ◌-◌, ◌*◌, ◌≡◌, ◌≤◌, ◌<◌, refl, sym, ap, ◌∙◌, true, List, [], ◌∷◌, take, some,
  arith, ◌==◌, ◌&&◌, ◌||◌, ltb, leb, length, get_elem?, get_or, min,
}
use uzi_build.Kernel.{Kernel, Cinode}
use uzi_build.Kernel.Returns
use uzi_build.Kernel.Returns.{Returns}
use uzi_build.Buffer.Obtain.{Ready, Ready-same}
use uzi_build.FreeList.Super.{Quiet}
use uzi_build.Inode.Table.{f_reg, f_dir, getmode}
use uzi_build.Files.Offset.Position.{position}
use uzi_build.Process.Waiting.{Others}
use uzi_build.Devices.{Drivers}
use uzi_build.Transfer.{put_count, put_offset, readi, writei}
use uzi_build.Transfer.Borrow.{contents}
use uzi_build.Transfer.Slices.{slice, slice-cong, take-slice, file_byte}
use uzi_build.Transfer.Patch.{overlay}
use uzi_build.Transfer.Rounds.{IsWhole}
use uzi_build.Transfer.Reading.{readi-file}
use uzi_build.Transfer.Writing.{HasBlocks}
use uzi_build.Transfer.WriteFile.{writei-file}

take_whole : (xs : List ℕ) (n : ℕ) → length xs ≡ n → take n xs ≡ xs
take_whole [] zero e = refl
take_whole [] (suc n) e = refl
take_whole (x ∷ xs) zero e = absurd (omega arith)
take_whole (x ∷ xs) (suc n) e = ap (λ l. x ∷ l) (take_whole xs n (omega arith))

-- Read where they have been laid, the bytes are those given.
overlay-slice :
    (byte byte' : ℕ → ℕ) (at m : ℕ) (src : List ℕ) (n : ℕ)
    → length src ≡ n
    → at + n ≤ m
    → ((p : ℕ) → p < m → byte' p ≡ overlay byte at n src p)
    → slice byte' at n ≡ src
overlay-slice byte byte' at m src n len room h =
    slice-cong byte' (λ j. get_or src j 0) at 0 n
      (λ j lt.
        let inside : (leb at (at + j) && ltb (at + j) (at + n)) ≡ true = ground arith in
        let back : at + j - at ≡ 0 + j = omega arith in
        h (at + j) (omega arith) ∙ rw (inside, back) refl)
    ∙ sym (take-slice src 0 n (omega arith))
    ∙ take_whole src n len

-- At the position where the write began.
abbrev rewound : Kernel → Kernel → Kernel
rewound k k' = put_offset k.udata.u_offset (put_count k.udata.u_count k')

Ready-rewound : (k k' : Kernel) (d m : ℕ) → Ready k' d m → Ready (rewound k k') d m
Ready-rewound k k' d m r = Ready-same refl refl refl d m r

-- Under the conditions of `writei-file`, `writei` comes back, and `readi` from the position where the
-- write began comes back with the bytes that were written.
pub writei-readi :
    (dev_tab : Drivers) (others : Others) (k : Kernel) (i m : ℕ) (c : Cinode) (src : List ℕ)
    → get_elem? k.i_tab i ≡ some c
    → (getmode c == f_dir || getmode c == f_reg) ≡ true
    → Quiet k c.c_dev
    → IsWhole k c.c_dev
    → HasBlocks c m
    → c.c_node.i_size.o_blkno < 65536
    → c.c_node.i_size.o_offset < 512
    → k.udata.u_offset.o_offset < 512
    → position k.udata.u_offset + k.udata.u_count ≤ 512 * m
    → length src ≡ k.udata.u_count
    → Returns (writei dev_tab others i src k) (λ r k'.
      Returns
        (readi dev_tab others i (put_offset k.udata.u_offset (put_count k.udata.u_count k')))
        (λ bytes k''. bytes ≡ src))
unfolding getmode
writei-readi dev_tab others k i m c src h kind quiet whole has fits short within room len =
    Returns.weaken
      (writei-file dev_tab others k i m c src h kind quiet whole has fits short within room len)
      λ r k' w.
        let direct = has.direct in
        let n = k.udata.u_count in
        let size = w.size in
        let limit : min n (position (w.inode.c_node.i_size) - position k.udata.u_offset) ≡ n =
          omega arith in
        Returns.weaken
          (readi-file dev_tab others (rewound k k') i w.inode w.at (rw (w.mode) kind)
            (rw (w.dev) (λ b. Ready-rewound k k' c.c_dev b (w.ready c.c_dev b (quiet b))))
            (rw (w.dev) w.whole) w.fits w.short within (omega arith) (omega arith))
          λ bytes k'' (is, same).
            (rw limit at is)
            ∙ rw (w.dev, w.addr)
                (overlay-slice (file_byte (contents k c)) (file_byte (contents k' c))
                  (position k.udata.u_offset) (512 * m) src n len room w.bytes)

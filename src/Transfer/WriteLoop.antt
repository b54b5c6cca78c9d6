-- ===== src/Transfer/WriteLoop.antt =====
-- The loop of `writei` in uzi-nes-port/kernel/scall1.c on a file that has its blocks.
use uzi_build.Prelude.{
  ℕ, zero, suc, ◌+◌, ◌-◌, ◌*◌, ◌≡◌, ◌≤◌, ◌<◌, refl, ap, ◌∙◌, inl, inr, false, List, some, arith,
  ◌==◌, ◌&&◌, ltb, leb, if◌then◌else◌, length, get_elem?, get_or, take, drop, Bool-cases, sub16,
  length-take, length-drop,
}
use uzi_build.Kernel.{Kernel, Cinode}
use uzi_build.Kernel.Returns
use uzi_build.Kernel.Returns.{Returns}
use uzi_build.Buffer.{ndevs, block_size}
use uzi_build.Buffer.View.{view}
use uzi_build.Buffer.Obtain.{Ready}
use uzi_build.Buffer.Use.{Rewritten, rewrite_block-Rewritten}
use uzi_build.FreeList.Super.{Quiet}
use uzi_build.Inode.Table.{f_bdev, getmode}
use uzi_build.Inode.Blocks.{nullblk}
use uzi_build.Inode.Blocks.Reading.{bmap-direct}
use uzi_build.Files.Offset.{min_int, addoff}
use uzi_build.Files.Offset.Position.{position, addoff_forward}
use uzi_build.Transfer.{patch_block, move_on, copy_in}
use uzi_build.Transfer.Borrow.{contents}
use uzi_build.Transfer.Slices.{file_byte}
use uzi_build.Transfer.Patch.{overlay}
use uzi_build.Transfer.Rounds.{IsWhole, next_amount, Ready-move_on}
use uzi_build.Transfer.Writing.{HasBlocks, overlay-overlay, one_block, patched, patch_block-length}

-- After `n` bytes have been written to a file of which `m` blocks are there.
pub record Written (k : Kernel) (c : Cinode) (m n : ℕ) (src : List ℕ) (k' : Kernel) : Type 0 where
  pub tables : k' ≡ record k {
    bufpool = k'.bufpool;
    bufclock = k'.bufclock;
    disk = k'.disk;
    udata = record (k.udata) { u_base = k'.udata.u_base; u_offset = k'.udata.u_offset };
  }
  pub moved : position k'.udata.u_offset ≡ position k.udata.u_offset + n
  pub within : k'.udata.u_offset.o_offset < 512
  pub bytes :
      (p : ℕ)
      → p < 512 * m
      → file_byte (contents k' c) p
        ≡ overlay (file_byte (contents k c)) (position k.udata.u_offset) n src p
  pub elsewhere :
      (d b : ℕ)
      → d < ndevs
      → ((j : ℕ) → j < m → (d == c.c_dev && b == get_or c.c_node.i_addr j 0) ≡ false)
      → view k' d b ≡ view k d b
  pub whole : IsWhole k' c.c_dev
  pub ready : (d b : ℕ) → Ready k d b → Ready k' d b

unwritten :
    (k : Kernel) (c : Cinode) (m : ℕ) (src : List ℕ)
    → IsWhole k c.c_dev
    → k.udata.u_offset.o_offset < 512
    → Written k c m 0 src k
unwritten k c m src whole within = record {
  tables = refl;
  moved = omega arith;
  within = within;
  bytes = λ p lt.
      let out : (leb (position k.udata.u_offset) p && ltb p (position k.udata.u_offset + 0))
          ≡ false =
        ground arith in
      rw out refl;
  elsewhere = λ d b p other. refl;
  whole = whole;
  ready = λ d b r. r;
}

-- Blocks stay 512 bytes long.
Rewritten-IsWhole :
    (k k₁ : Kernel) (dev nb o : ℕ) (new : List ℕ)
    → dev < ndevs
    → IsWhole k dev
    → o + length new ≤ 512
    → Rewritten k dev nb (patch_block (view k dev nb) o new) k₁
    → IsWhole k₁ dev
Rewritten-IsWhole k k₁ dev nb o new p whole fits w b = elim (Bool-cases (dev == dev && b == nb)) [
  | inl e ↦
      let z : b ≡ nb = ground arith in
      rw (z, w.seen) (patch_block-length (view k dev nb) new o (whole nb) fits)
  | inr e ↦ ap length (w.seen_others dev b p e) ∙ whole b
]

overlay-same :
    (f g : ℕ → ℕ) (at n : ℕ) (new : List ℕ) (p : ℕ)
    → f p ≡ g p
    → overlay f at n new p ≡ overlay g at n new p
overlay-same f g at n new p e =
    ap (λ v. if leb at p && ltb p (at + n) then get_or new (p - at) 0 else v) e

-- One round and the rest.
joined :
    (k k₁ k' : Kernel) (c : Cinode) (m a n : ℕ) (src : List ℕ)
    → HasBlocks c m
    → c.c_dev < ndevs
    → IsWhole k c.c_dev
    → k.udata.u_offset.o_offset + a ≤ 512
    → k.udata.u_offset.o_offset < 512
    → length src ≡ n
    → a ≤ n
    → position k.udata.u_offset + n ≤ 512 * m
    → 0 < a
    → Rewritten k c.c_dev
        (get_or c.c_node.i_addr k.udata.u_offset.o_blkno 0)
        (patch_block
          (view k c.c_dev (get_or c.c_node.i_addr k.udata.u_offset.o_blkno 0))
          k.udata.u_offset.o_offset
          (take a src))
        k₁
    → Written (move_on false a k₁) c m (n - a) (drop a src) k'
    → Written k c m n src k'
unfolding move_on
joined k k₁ k' c m a n src has dev whole fits within len le room pos w rest =
    let off = k.udata.u_offset in
    let direct = has.direct in
    let same : k₁.udata ≡ k.udata = rw (w.tables) refl in
    let (there, in_block) = addoff_forward off a within (omega arith) (omega arith) in
    let from : position (addoff k₁.udata.u_offset a) ≡ position off + a = rw same there in
    let taken : length (take a src) ≡ a = length-take a src ∙ omega arith in
    record {
      tables = rw (rest.tables, w.tables) refl;
      moved = rest.moved ∙ rw from (omega arith);
      within = rest.within;
      bytes = λ p lt.
          let at = position off in
          let byte = file_byte (contents k c) in
          let first =
            one_block k k₁ c m off.o_blkno off.o_offset p (take a src) has dev (omega arith) whole
              (rw taken fits) w lt in
          let after : file_byte (contents k' c) p
              ≡ overlay (file_byte (contents k₁ c)) (at + a) (n - a) (drop a src) p =
            rw from at (rest.bytes p lt) in
          after
          ∙ overlay-same (file_byte (contents k₁ c)) (overlay byte at a (take a src)) (at + a)
              (n - a) (drop a src) p (rw taken at first)
          ∙ overlay-overlay byte at a n src p le;
      elsewhere = λ d b p other.
          rest.elsewhere d b p other ∙ w.seen_others d b p (other off.o_blkno (omega arith));
      whole = rest.whole;
      ready = λ d b r. rest.ready d b (Ready-move_on k₁ a d b (w.ready d b r));
    }

-- For a file whose first blocks are there, with enough rounds, the loop comes back with the bytes written.
pub copy_in_lem :
    (rounds : ℕ) (k : Kernel) (i m n : ℕ) (c : Cinode) (src : List ℕ)
    → get_elem? k.i_tab i ≡ some c
    → (getmode c == f_bdev) ≡ false
    → Quiet k c.c_dev
    → IsWhole k c.c_dev
    → HasBlocks c m
    → k.udata.u_offset.o_offset < 512
    → position k.udata.u_offset + n ≤ 512 * m
    → length src ≡ n
    → n < rounds
    → Returns (copy_in rounds false c.c_dev i n src k) (λ r k'. Written k c m n src k')
unfolding copy_in move_on
copy_in_lem zero k i m n c src h kind quiet whole has within room len enough = absurd (omega arith)
copy_in_lem (suc rounds) k i m n c src h kind quiet whole has within room len enough =
    elim (Bool-cases (n == 0)) [
      | inl e ↦
          let z : n ≡ 0 = ground arith in
          rw z (record {
            value = tt;
            state = k;
            result = refl;
            post = unwritten k c m src whole within;
          })
      | inr e ↦
          let off = k.udata.u_offset in
          let a = min_int n (sub16 block_size off.o_offset) in
          let direct = has.direct in
          let (some_left, le, in_block) =
            next_amount n off.o_offset (ground arith) (omega arith) within in
          let bounded : ltb block_size (off.o_offset + a) ≡ false = ground arith in
          let lt : off.o_blkno < m = omega arith in
          let nb = get_or c.c_node.i_addr off.o_blkno 0 in
          let there : (nb == 0) ≡ false = (let ne = has.present off.o_blkno lt in ground arith) in
          let fine : (nb == nullblk) ≡ false = (let ne = has.real off.o_blkno lt in ground arith) in
          let p = (quiet 0).device in
          let taken : length (take a src) ≡ a = length-take a src ∙ omega arith in
          let how : ℕ = (if a == block_size then 1 else 0) in
          rw (e, bmap-direct k i off.o_blkno 0 c h kind (omega arith) there, fine, bounded)
            (Returns.bind _
              (rewrite_block-Rewritten k c.c_dev nb how 1
                (λ old. patch_block old off.o_offset (take a src))
                (patch_block (view k c.c_dev nb) off.o_offset (take a src)) (quiet nb) (omega arith)
                (ground arith)
                (λ old same.
                  patched old (view k c.c_dev nb) (take a src) off.o_offset how same
                    (λ ne. let eq : a ≡ 512 = ground arith in (omega arith, omega arith))))
              λ r k₁ w.
                let same : k₁.udata ≡ k.udata = rw (w.tables) refl in
                let less : sub16 n a ≡ n - a = omega arith in
                let (moved, below) = addoff_forward off a within (omega arith) (omega arith) in
                let from : position (addoff k₁.udata.u_offset a) ≡ position off + a =
                  rw same moved in
                Returns.weaken
                  (copy_in_lem rounds (move_on false a k₁) i m (sub16 n a) c (drop a src)
                    (rw (w.tables) h) kind
                    (λ b. Ready-move_on k₁ a c.c_dev b (w.ready c.c_dev b (quiet b)))
                    (Rewritten-IsWhole k k₁ c.c_dev nb off.o_offset (take a src) p whole
                      (rw taken in_block) w)
                    has (rw same below) (rw from (omega arith)) (length-drop a src ∙ omega arith)
                    (omega arith))
                  λ v k' d.
                    joined k k₁ k' c m a n src has p whole in_block within len le room some_left w
                      (rw less at d))
    ]

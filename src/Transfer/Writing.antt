-- ===== src/Transfer/Writing.antt =====
-- What the loop of `writei` in uzi-nes-port/kernel/scall1.c does to a file that has its blocks: those named in
-- the inode itself.
use uzi_build.Prelude.{
  ℕ, ◌+◌, ◌-◌, ◌*◌, ◌/◌, ◌%◌, ◌≡◌, ◌≢◌, ◌≤◌, ◌<◌, refl, sym, ap, ◌∙◌, inl, inr, true, false, List,
  [], ◌∷◌, ◌++◌, arith, ◌==◌, ◌&&◌, ltb, leb, length, get_or, take, drop, Bool-cases, length-take,
  length-drop, length-append,
}
use uzi_build.Kernel.{Kernel, Cinode}
use uzi_build.Buffer.{ndevs}
use uzi_build.Buffer.View.{view}
use uzi_build.Buffer.Use.{Rewritten}
use uzi_build.Inode.Blocks.{nullblk}
use uzi_build.Inode.Blocks.Reading.{mapped}
use uzi_build.Transfer.{patch, patch_block}
use uzi_build.Transfer.Borrow.{contents}
use uzi_build.Transfer.Slices.{file_byte}
use uzi_build.Transfer.Patch.{overlay, get_or-take, get_or-drop, get_or-patch}
use uzi_build.Transfer.Rounds.{IsWhole}

-- The first `m` blocks of the file are there, named in the inode, and no two are the same.
pub record HasBlocks (c : Cinode) (m : ℕ) : Type 0 where
  pub direct : m ≤ 18
  pub present : (j : ℕ) → j < m → get_or c.c_node.i_addr j 0 ≢ 0
  pub real : (j : ℕ) → j < m → get_or c.c_node.i_addr j 0 ≢ nullblk
  pub apart :
      (a b : ℕ) → a < m → b < m → get_or c.c_node.i_addr a 0 ≡ get_or c.c_node.i_addr b 0 → a ≡ b

pub contents-direct :
    (k : Kernel) (c : Cinode) (m bn : ℕ)
    → HasBlocks c m
    → bn < m
    → contents k c bn ≡ view k c.c_dev (get_or c.c_node.i_addr bn 0)
unfolding mapped
contents-direct k c m bn has p =
    let le = has.direct in
    let small : ltb bn 18 ≡ true = ground arith in
    let there : (get_or c.c_node.i_addr bn 0 == 0) ≡ false =
      (let ne = has.present bn p in ground arith) in
    let fine : (get_or c.c_node.i_addr bn 0 == nullblk) ≡ false =
      (let ne = has.real bn p in ground arith) in
    rw (small, there, fine) refl

-- A part and then the rest of some bytes laid over others.
pub overlay-overlay :
    (byte : ℕ → ℕ) (at a n : ℕ) (src : List ℕ) (p : ℕ)
    → a ≤ n
    → overlay (overlay byte at a (take a src)) (at + a) (n - a) (drop a src) p
      ≡ overlay byte at n src p
overlay-overlay byte at a n src p le =
    ground (arith, get_or-take a src (p - at), get_or-drop a src (p - (at + a)))

-- A place in a block and in the file.
overlay_inside :
    (blocks : ℕ → List ℕ) (bn o n p : ℕ) (new : List ℕ)
    → (p / 512 == bn) ≡ true
    → overlay (λ q. get_or (blocks bn) q 0) o n new (p % 512)
      ≡ overlay (file_byte blocks) (512 * bn + o) n new p
overlay_inside blocks bn o n p new e =
    let here : p / 512 ≡ bn = ground arith in
    let q : p ≡ 512 * bn + p % 512 = omega arith in
    let shift : p - (512 * bn + o) ≡ p % 512 - o = omega arith in
    let low : leb (512 * bn + o) p ≡ leb o (p % 512) = ground arith in
    let high : ltb p (512 * bn + o + n) ≡ ltb (p % 512) (o + n) = ground arith in
    rw (here, shift, low, high) refl

overlay_outside :
    (blocks : ℕ → List ℕ) (bn o n p : ℕ) (new : List ℕ)
    → (p / 512 == bn) ≡ false
    → o + n ≤ 512
    → get_or (blocks (p / 512)) (p % 512) 0 ≡ overlay (file_byte blocks) (512 * bn + o) n new p
overlay_outside blocks bn o n p new e fits =
    let out : (leb (512 * bn + o) p && ltb p (512 * bn + o + n)) ≡ false = ground arith in
    rw out refl

-- One block of the file changed.
pub one_block :
    (k k₁ : Kernel) (c : Cinode) (m bn o p : ℕ) (new : List ℕ)
    → HasBlocks c m
    → c.c_dev < ndevs
    → bn < m
    → IsWhole k c.c_dev
    → o + length new ≤ 512
    → Rewritten k c.c_dev
        (get_or c.c_node.i_addr bn 0)
        (patch_block (view k c.c_dev (get_or c.c_node.i_addr bn 0)) o new)
        k₁
    → p < 512 * m
    → file_byte (contents k₁ c) p
      ≡ overlay (file_byte (contents k c)) (512 * bn + o) (length new) new p
one_block k k₁ c m bn o p new has dev lt whole fits w inside = elim (Bool-cases (p / 512 == bn)) [
  | inl e ↦
      let here : p / 512 ≡ bn = ground arith in
      let is = contents-direct k c m bn has lt in
      let read : file_byte (contents k₁ c) p
          ≡ get_or (patch_block (contents k c bn) o new) (p % 512) 0 =
        rw (here, contents-direct k₁ c m bn has lt, w.seen, is) refl in
      read
      ∙ get_or-patch (contents k c bn) new o (p % 512) (rw is (whole (get_or c.c_node.i_addr bn 0)))
          fits (omega arith)
      ∙ overlay_inside (contents k c) bn o (length new) p new e
  | inr e ↦
      let q : p / 512 < m = omega arith in
      let a = get_or c.c_node.i_addr bn 0 in
      let b = get_or c.c_node.i_addr (p / 512) 0 in
      let other : (c.c_dev == c.c_dev && b == a) ≡ false =
        (let ne : b ≢ a = (λ z. let f = has.apart (p / 512) bn q lt z in ground arith) in
          ground arith) in
      let same : contents k₁ c (p / 512) ≡ contents k c (p / 512) =
        contents-direct k₁ c m (p / 512) has q
        ∙ w.seen_others c.c_dev b dev other
        ∙ sym (contents-direct k c m (p / 512) has q) in
      ap (λ l. get_or l (p % 512) 0) same
      ∙ overlay_outside (contents k c) bn o (length new) p new e fits
]

take-all : (xs ys : List ℕ) → take (length xs) (xs ++ ys) ≡ xs
take-all [] ys = refl
take-all (x ∷ xs) ys = ap (λ l. x ∷ l) (take-all xs ys)

-- The 512 bytes of a whole block replace it, and else the block's own bytes stay around the new ones.
pub patched :
    (old see new : List ℕ) (o rewrite : ℕ)
    → (rewrite ≡ 0 → old ≡ see)
    → (rewrite ≢ 0 → (o ≡ 0) × (length new ≡ 512))
    → patch_block old o new ≡ patch_block see o new
unfolding patch_block patch
patched old see new o rewrite same all = elim (Bool-cases (rewrite == 0)) [
  | inl e ↦ let z : rewrite ≡ 0 = ground arith in rw (same z) refl
  | inr e ↦
      let ne : rewrite ≢ 0 = ground arith in
      let (z, l) = all ne in
      rw z (
        ap (λ t. take t (new ++ drop (0 + length new) old)) (sym l)
        ∙ take-all new (drop (0 + length new) old)
        ∙ sym (take-all new (drop (0 + length new) see))
        ∙ ap (λ t. take t (new ++ drop (0 + length new) see)) l)
]

pub patch_block-length :
    (old new : List ℕ) (o : ℕ)
    → length old ≡ 512
    → o + length new ≤ 512
    → length (patch_block old o new) ≡ 512
unfolding patch_block patch
patch_block-length old new o whole fits =
    let rest = drop (o + length new) old in
    omega (
      arith,
      length-take 512 (take o old ++ (new ++ rest)),
      length-append (take o old) (new ++ rest),
      length-append new rest,
      length-take o old,
      length-drop (o + length new) old,
    )

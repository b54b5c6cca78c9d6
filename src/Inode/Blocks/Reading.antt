-- ===== src/Inode/Blocks/Reading.antt =====
-- `bmap` of uzi-nes-port/fs/filesys.c for a reader: where the blocks of a file lie.
use uzi_build.Prelude.{
  ℕ, ◌-◌, ◌/◌, ◌%◌, ◌≡◌, ◌<◌, true, false, arith, refl, sym, ap, ◌∙◌, inl, inr, List, Option, none,
  some, ◌==◌, ltb, if◌then◌else◌, get_elem?, get_or, Bool-cases,
}
use uzi_build.Kernel.{Kernel, Cinode, ok, ◌>>=◌}
use uzi_build.Kernel.Returns
use uzi_build.Kernel.Returns.{Returns}
use uzi_build.Kernel.Bytes.{word_at}
use uzi_build.Buffer.View.{view}
use uzi_build.Buffer.Obtain.{Ready, bread-Obtained}
use uzi_build.Buffer.Use.{Undisturbed, brelse-Undisturbed}
use uzi_build.FreeList.Super.{Quiet}
use uzi_build.Inode.Table.{f_bdev, getmode}
use uzi_build.Inode.Blocks.{slot_block, entry_block, indirect_block, or_null, block_or_null, bmap}

-- An address, where 0 is none.
abbrev pub address : ℕ → Option ℕ
address w = if w == 0 then none else some w

abbrev pub through : Option ℕ → (ℕ → Option ℕ) → Option ℕ
through none f = none
through (some nb) f = f nb

-- Where block `bn` of a file lies, on a device whose blocks hold what `see` says: 18 blocks are named in the
-- inode, 256 in one block, and 256 times 256 in blocks named in a block.
unfoldable pub mapped : (ℕ → List ℕ) → List ℕ → ℕ → Option ℕ
mapped see addr bn =
    if ltb bn 18
    then address (get_or addr bn 0)
    else if ltb (bn - 18) 256
    then through (address (get_or addr 18 0)) (λ nb. address (word_at (see nb) (bn - 18)))
    else through (address (get_or addr 19 0)) (λ nb.
      through (address (word_at (see nb) ((bn - 18 - 256) / 256 % 256)))
        (λ mid. address (word_at (see mid) ((bn - 18 - 256) % 256))))

entry_block-read :
    (k : Kernel) (dev nb n : ℕ)
    → Ready k dev nb
    → Returns
        (entry_block dev nb n 1 k)
        (λ r k'. (r ≡ address (word_at (view k dev nb) n)) × Undisturbed k k')
unfolding entry_block
entry_block-read k dev nb n ready =
    Returns.bind _ (bread-Obtained k dev nb 0 ready) λ r k₁ (i, e, o).
      elim (Bool-cases (word_at o.buf.bf_data n == 0)) [
        | inl z ↦
            rw (e, o.at, z, sym (o.contents refl), z)
              (Returns.bind _ (brelse-Undisturbed k dev nb i k₁ ready o)
                λ v k' u. record { value = none; state = k'; result = refl; post = (refl, u) })
        | inr z ↦
            rw (e, o.at, z, sym (o.contents refl), z)
              (Returns.bind _ (brelse-Undisturbed k dev nb i k₁ ready o) λ v k' u. record {
                value = some (word_at o.buf.bf_data n);
                state = k';
                result = refl;
                post = (refl, u);
              })
      ]

slot_block-read :
    (k : Kernel) (i n : ℕ) (c : Cinode)
    → get_elem? k.i_tab i ≡ some c
    → slot_block i n 1 k ≡ ok (address (get_or c.c_node.i_addr n 0)) k
unfolding slot_block
slot_block-read k i n c h = elim (Bool-cases (get_or c.c_node.i_addr n 0 == 0)) [
  | inl z ↦ rw (h, z)
  | inr z ↦ rw (h, z)
]

pub Undisturbed-refl : (k : Kernel) → Undisturbed k k
Undisturbed-refl k = record { tables = refl; seen = λ d n p. refl; ready = λ d n r. r }

pub Undisturbed-then : {k k₁ k₂ : Kernel} → Undisturbed k k₁ → Undisturbed k₁ k₂ → Undisturbed k k₂
Undisturbed-then u v = record {
  tables = rw (v.tables, u.tables);
  seen = λ d n p. v.seen d n p ∙ u.seen d n p;
  ready = λ d n r. v.ready d n (u.ready d n r);
}

-- One step through an indirect block.
step-read :
    (k k₁ : Kernel) (dev n : ℕ) (nb : Option ℕ)
    → Quiet k dev
    → Undisturbed k k₁
    → Returns
        (or_null nb (λ b. entry_block dev b n 1) k₁)
        (λ r k'. (r ≡ through nb (λ b. address (word_at (view k dev b) n))) × Undisturbed k k')
step-read k k₁ dev n none quiet u = record {
  value = none;
  state = k₁;
  result = refl;
  post = (refl, u);
}
step-read k k₁ dev n (some b) quiet u =
    Returns.weaken (entry_block-read k₁ dev b n (u.ready dev b (quiet b))) λ r k' (e, v).
      (e ∙ ap (λ l. address (word_at l n)) (u.seen dev b (quiet b).device), Undisturbed-then u v)

-- Two steps, through a block of blocks.
steps-read :
    (k : Kernel) (dev m n : ℕ) (nb : Option ℕ)
    → Quiet k dev
    → Returns
        (or_null nb
          (λ b.
            entry_block dev b m 1 >>= (λ mid. or_null mid (λ second. entry_block dev second n 1)))
          k)
        (λ r k'.
          (r
            ≡ through nb (λ b.
              through
                (address (word_at (view k dev b) m))
                (λ mid. address (word_at (view k dev mid) n))))
          × Undisturbed k k')
steps-read k dev m n none quiet = record {
  value = none;
  state = k;
  result = refl;
  post = (refl, Undisturbed-refl k);
}
steps-read k dev m n (some b) quiet =
    Returns.bind _ (entry_block-read k dev b m (quiet b))
      λ r k₁ (e, u). rw e (step-read k k₁ dev n (address (word_at (view k dev b) m)) quiet u)

-- For an inode of the table whose device can be read, `bmap` without leave to allocate returns the place of
-- the block as the addresses in the inode and the indirect blocks have it, NULLBLK where there is none,
-- and the block number itself for a block device; no block looks different and no table changes.
pub bmap_reads :
    (k : Kernel) (i bn : ℕ) (c : Cinode)
    → get_elem? k.i_tab i ≡ some c
    → Quiet k c.c_dev
    → Returns (bmap i bn 1 k) (λ r k'.
      (r ≡ (
        if getmode c == f_bdev
        then bn
        else block_or_null (mapped (view k c.c_dev) c.c_node.i_addr bn)))
      × Undisturbed k k')
unfolding bmap mapped indirect_block
bmap_reads k i bn c h quiet = elim (Bool-cases (getmode c == f_bdev)) [
  | inl z ↦
      rw (h, z) (record { value = bn; state = k; result = refl; post = (refl, Undisturbed-refl k) })
  | inr z ↦ elim (Bool-cases (ltb bn 18)) [
    | inl d ↦
        rw (h, z, d, slot_block-read k i bn c h)
          (record {
            value = block_or_null (address (get_or c.c_node.i_addr bn 0));
            state = k;
            result = refl;
            post = (refl, Undisturbed-refl k);
          })
    | inr d ↦ elim (Bool-cases (ltb (bn - 18) 256)) [
      | inl s ↦
          rw (h, z, d, s, slot_block-read k i 18 c h)
            (Returns.bind _
              (step-read k k c.c_dev (bn - 18) (address (get_or c.c_node.i_addr 18 0)) quiet
                (Undisturbed-refl k))
              λ r k' (e, u). record {
                value = block_or_null r;
                state = k';
                result = refl;
                post = (ap block_or_null e, u);
              })
      | inr s ↦
          rw (h, z, d, s, slot_block-read k i 19 c h)
            (Returns.bind _
              (steps-read k c.c_dev ((bn - 18 - 256) / 256 % 256) ((bn - 18 - 256) % 256)
                (address (get_or c.c_node.i_addr 19 0)) quiet)
              λ r k' (e, u). record {
                value = block_or_null r;
                state = k';
                result = refl;
                post = (ap block_or_null e, u);
              })
    ]
  ]
]

slot_block_there :
    (k : Kernel) (i n rwflg : ℕ) (c : Cinode)
    → get_elem? k.i_tab i ≡ some c
    → (get_or c.c_node.i_addr n 0 == 0) ≡ false
    → slot_block i n rwflg k ≡ ok (some (get_or c.c_node.i_addr n 0)) k
unfolding slot_block
slot_block_there k i n rwflg c h there = rw (h, there)

-- A direct block that the file has is found, with or without leave to allocate.
pub bmap-direct :
    (k : Kernel) (i bn rwflg : ℕ) (c : Cinode)
    → get_elem? k.i_tab i ≡ some c
    → (getmode c == f_bdev) ≡ false
    → bn < 18
    → (get_or c.c_node.i_addr bn 0 == 0) ≡ false
    → bmap i bn rwflg k ≡ ok (get_or c.c_node.i_addr bn 0) k
unfolding bmap
bmap-direct k i bn rwflg c h kind p there =
    let direct : ltb bn 18 ≡ true = ground arith in
    rw (h, kind, direct, slot_block_there k i bn rwflg c h there)

-- ===== src/Path/Search.antt =====
-- What `srch_dir` of uzi-nes-port/fs/filesys.c finds in a directory.
use uzi_build.Prelude.{
  ℕ, zero, suc, ◌+◌, ◌*◌, ◌/◌, ◌%◌, ◌≡◌, ◌≤◌, ◌<◌, refl, sym, ap, ◌∙◌, true, false, List, none,
  some, arith, ◌==◌, get_elem?,
}
use native.Mathlib.Decide.{dec_lt}
use uzi_build.Kernel.{Kernel, Cinode, ok}
use uzi_build.Kernel.Bytes.{word_at}
use uzi_build.Buffer.Use.{Undisturbed}
use uzi_build.FreeList.Super.{Quiet}
use uzi_build.Inode.Table.{f_bdev, getmode}
use uzi_build.Inode.Blocks.Reading.{Undisturbed-then, Undisturbed-refl}
use uzi_build.Inode.Open.{i_open}
use uzi_build.Path.{find_entry, search_blocks, srch_dir}
use uzi_build.Path.Blocks.{
  dir_block, dir_bytes, HasNoGap, no_gap, is_named, number, block_count, find_entry_first,
  find_entry-none, block_read, blocks_same, in_block, named_same,
}

found_in :
    (n : ℕ) (k : Kernel) (wd blk e : ℕ) (c : Cinode) (name : List ℕ)
    → get_elem? k.i_tab wd ≡ some c
    → (getmode c == f_bdev) ≡ false
    → Quiet k c.c_dev
    → 32 * blk ≤ e
    → e < 32 * (blk + n)
    → is_named name (dir_block k c) e ≡ true
    → ((i : ℕ) → 32 * blk ≤ i → i < e → is_named name (dir_block k c) i ≡ false)
    → (k' : Kernel) × Undisturbed k k'
      × (search_blocks wd c.c_dev name blk n k ≡ i_open c.c_dev (number (dir_block k c) e) k')
unfolding search_blocks
found_in zero k wd blk e c name h kind quiet lo hi here before = absurd (omega arith)
found_in (suc n) k wd blk e c name h kind quiet lo hi here before =
    let bytes = dir_block k c blk in
    let (k₁, u, run) =
      block_read
        (λ b. elim (find_entry name b 0 32) [
          | some inum ↦ i_open c.c_dev inum
          | none ↦ search_blocks wd c.c_dev name (blk + 1) n
        ])
        k wd blk c h kind quiet in
    elim (dec_lt e (32 * (blk + 1))) [
      | yes lt ↦
          let i = e % 32 in
          let split : e ≡ 32 * blk + i = omega arith in
          let q : e / 32 ≡ blk = omega arith in
          let this : find_entry name bytes 0 32 ≡ some (word_at bytes (8 * i)) =
            find_entry_first name bytes 0 32 i (omega arith) (omega arith)
              (sym (in_block name (dir_block k c) blk i (omega arith))
                ∙ ap (λ x. is_named name (dir_block k c) x) (sym split)
                ∙ here)
              (λ j p r.
                sym (in_block name (dir_block k c) blk j (omega arith))
                ∙ before (32 * blk + j) (omega arith) (omega arith)) in
          (k₁, u, run ∙ rw (this, q) refl)
      | no ge ↦
          let this : find_entry name bytes 0 32 ≡ none = find_entry-none name bytes 0 32 (λ j p r.
            sym (in_block name (dir_block k c) blk j (omega arith))
            ∙ before (32 * blk + j) (omega arith) (omega arith)) in
          let same = blocks_same k k₁ c u (quiet 0).device in
          let (k₂, v, rest) =
            found_in n k₁ wd (blk + 1) e c name (rw (u.tables) h) kind
              (λ b. u.ready c.c_dev b (quiet b)) (omega arith) (omega arith)
              (ap (λ bl. is_named name bl e) same ∙ here)
              (λ i p q. ap (λ bl. is_named name bl i) same ∙ before i (omega arith) q) in
          (
            k₂,
            Undisturbed-then u v,
            run ∙ rw this (rest ∙ ap (λ bl. i_open c.c_dev (number bl e) k₂) same),
          )
    ]

-- In a directory of the inode table whose device can be read and all of whose blocks are there, the
-- first entry that bears the name is found: `srch_dir` comes to `i_open` on the number in that entry, in
-- a state in which no block looks different and no table has changed.
pub srch_dir-finds :
    (k : Kernel) (wd e : ℕ) (c : Cinode) (name : List ℕ)
    → get_elem? k.i_tab wd ≡ some c
    → (getmode c == f_bdev) ≡ false
    → Quiet k c.c_dev
    → HasNoGap k c (block_count c)
    → e < 32 * block_count c
    → is_named name (dir_bytes k c) e ≡ true
    → ((i : ℕ) → i < e → is_named name (dir_bytes k c) i ≡ false)
    → (k' : Kernel) × Undisturbed k k'
      × (srch_dir wd name k ≡ i_open c.c_dev (number (dir_bytes k c) e) k')
unfolding srch_dir
srch_dir-finds k wd e c name h kind quiet full hi here before =
    let n = block_count c in
    let same = λ (i : ℕ) (p : i ≤ e). no_gap k c n (i / 32) full (omega arith) in
    let (k', u, run) =
      found_in n k wd 0 e c name h kind quiet (omega arith) (omega arith)
        (named_same name e (dir_block k c) (dir_bytes k c) (sym (same e (omega arith))) ∙ here)
        (λ i p q.
          named_same name i (dir_block k c) (dir_bytes k c) (sym (same i (omega arith)))
          ∙ before i q) in
    (
      k',
      u,
      rw h (
          run
          ∙ ap (λ b. i_open c.c_dev (word_at b (8 * (e % 32))) k') (sym (same e (omega arith)))),
    )

missing_in :
    (n : ℕ) (k : Kernel) (wd blk : ℕ) (c : Cinode) (name : List ℕ)
    → get_elem? k.i_tab wd ≡ some c
    → (getmode c == f_bdev) ≡ false
    → Quiet k c.c_dev
    → ((i : ℕ) → 32 * blk ≤ i → i < 32 * (blk + n) → is_named name (dir_block k c) i ≡ false)
    → (k' : Kernel) × Undisturbed k k' × (search_blocks wd c.c_dev name blk n k ≡ ok none k')
unfolding search_blocks
missing_in zero k wd blk c name h kind quiet nowhere = (k, Undisturbed-refl k, refl)
missing_in (suc n) k wd blk c name h kind quiet nowhere =
    let (k₁, u, run) =
      block_read
        (λ b. elim (find_entry name b 0 32) [
          | some inum ↦ i_open c.c_dev inum
          | none ↦ search_blocks wd c.c_dev name (blk + 1) n
        ])
        k wd blk c h kind quiet in
    let this : find_entry name (dir_block k c blk) 0 32 ≡ none =
      find_entry-none name (dir_block k c blk) 0 32 (λ j p r.
        sym (in_block name (dir_block k c) blk j (omega arith))
        ∙ nowhere (32 * blk + j) (omega arith) (omega arith)) in
    let same = blocks_same k k₁ c u (quiet 0).device in
    let (k₂, v, rest) =
      missing_in n k₁ wd (blk + 1) c name (rw (u.tables) h) kind (λ b. u.ready c.c_dev b (quiet b))
        (λ i p q. ap (λ bl. is_named name bl i) same ∙ nowhere i (omega arith) (omega arith)) in
    (k₂, Undisturbed-then u v, run ∙ rw this rest)

-- In such a directory, all of whose blocks are there, without an entry of that name `srch_dir` comes
-- back with none, and nothing looks different.
pub srch_dir-misses :
    (k : Kernel) (wd : ℕ) (c : Cinode) (name : List ℕ)
    → get_elem? k.i_tab wd ≡ some c
    → (getmode c == f_bdev) ≡ false
    → Quiet k c.c_dev
    → HasNoGap k c (block_count c)
    → ((i : ℕ) → i < 32 * block_count c → is_named name (dir_bytes k c) i ≡ false)
    → (k' : Kernel) × Undisturbed k k' × (srch_dir wd name k ≡ ok none k')
unfolding srch_dir
srch_dir-misses k wd c name h kind quiet full nowhere =
    let (k', u, run) = missing_in (block_count c) k wd 0 c name h kind quiet (λ i p q.
      named_same name i (dir_block k c) (dir_bytes k c)
        (sym (no_gap k c (block_count c) (i / 32) full (omega arith)))
      ∙ nowhere i (omega arith)) in
    (k', u, rw h run)

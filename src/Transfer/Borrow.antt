-- ===== src/Transfer/Borrow.antt =====
-- A block of a file read by `readi` of uzi-nes-port/kernel/scall1.c, from its own buffer or, where the file has
-- no block, from one of zeroes.
use uzi_build.Prelude.{ℕ, refl, inl, inr, List, ◌==◌, if◌then◌else◌, replicate, Bool-cases}
use uzi_build.Kernel.{Kernel, Cinode}
use uzi_build.Kernel.Returns
use uzi_build.Kernel.Returns.{Returns}
use uzi_build.Buffer.{block_size}
use uzi_build.Buffer.View.{view}
use uzi_build.Buffer.Obtain.{bread-Obtained}
use uzi_build.Buffer.Use.{brelse-Undisturbed}
use uzi_build.FreeList.Super.{Quiet}
use uzi_build.Inode.Blocks.{nullblk, block_or_null}
use uzi_build.Inode.Blocks.Reading.{mapped}
use uzi_build.Transfer.{block_buf}
use uzi_build.Buffer.Zero.{Borrowed, zerobuf-Borrowed}

-- What is read at the block number that `bmap` answers.
abbrev pub shown : Kernel → ℕ → ℕ → List ℕ
shown k dev pblk = if pblk == nullblk then replicate block_size 0 else view k dev pblk

-- The contents of block `bn` of a file: zeroes where it has none.
abbrev pub contents : Kernel → Cinode → ℕ → List ℕ
contents k c bn = shown k c.c_dev (block_or_null (mapped (view k c.c_dev) c.c_node.i_addr bn))

pub block_buf-Borrowed :
    (k : Kernel) (dev pblk : ℕ)
    → Quiet k dev
    → Returns (block_buf dev pblk k) (λ i k₁. Borrowed k (shown k dev pblk) i k₁)
unfolding block_buf
block_buf-Borrowed k dev pblk quiet = elim (Bool-cases (pblk == nullblk)) [
  | inl e ↦ rw e (zerobuf-Borrowed k dev 0 (quiet 0))
  | inr e ↦ rw e (
      Returns.bind _ (bread-Obtained k dev pblk 0 (quiet pblk)) λ r k₁ (i, s, o). rw s (record {
        value = i;
        state = k₁;
        result = refl;
        post = record {
          buf = o.buf;
          at = o.at;
          shows = o.contents refl;
          same = o.tables;
          back = brelse-Undisturbed k dev pblk i k₁ (quiet pblk) o;
        };
      }))
]

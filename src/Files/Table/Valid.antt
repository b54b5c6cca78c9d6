-- ===== src/Files/Table/Valid.antt =====
-- A descriptor that leads through an entry of the open file table to an inode, and what `getinode` of
-- uzi-nes-port/fs/filesys.c makes of it.
use uzi_build.Prelude.{
  ℕ, ◌≡◌, ◌<◌, refl, true, false, some, not, arith, ◌==◌, leb, get_elem?, all_below,
  all_below-apply,
}
use uzi_build.Kernel.{Kernel, Oft, Cinode, ok}
use uzi_build.Inode.Table.{itabsize, cmagic, magic}
use uzi_build.Files.Table.{oftsize, uftsize, is_unused, getinode}

-- Descriptor `d` names entry `f`, which names inode `i`, in use in the table.
pub record IsOpen (k : Kernel) (d f i : ℕ) (o : Oft) (c : Cinode) : Type 0 where
  pub descriptor : d < uftsize
  pub file : get_elem? k.udata.u_files d ≡ some f
  pub entry : f < oftsize
  pub open_file : get_elem? k.of_tab f ≡ some o
  pub to_inode : o.o_inode ≡ some i
  pub slot : i < itabsize
  pub inode : get_elem? k.i_tab i ≡ some c
  pub sound : c.c_magic ≡ cmagic

pub used : (f : ℕ) → f < oftsize → is_unused f ≡ false
unfolding all_below
used f p = let t = all_below-apply oftsize (λ g. not (is_unused g)) f refl p in ground arith

magic_lem :
    (k : Kernel) (i : ℕ) (c : Cinode)
    → get_elem? k.i_tab i ≡ some c
    → c.c_magic ≡ cmagic
    → magic i k ≡ ok tt k
unfolding magic
magic_lem k i c h s = let e : (c.c_magic == cmagic) ≡ true = ground arith in rw (h, e) refl

pub getinode_open :
    (k : Kernel) (d f i : ℕ) (o : Oft) (c : Cinode)
    → IsOpen k d f i o c
    → getinode d k ≡ ok (some i) k
unfolding getinode
getinode_open k d f i o c open' =
    let a : leb uftsize d ≡ false = (let p = open'.descriptor in ground arith) in
    let b : leb oftsize f ≡ false = (let p = open'.entry in ground arith) in
    let e : leb itabsize i ≡ false = (let p = open'.slot in ground arith) in
    rw
      (
        a,
        open'.file,
        used f open'.entry,
        b,
        open'.open_file,
        open'.to_inode,
        e,
        magic_lem k i c open'.inode open'.sound,
      )
      refl

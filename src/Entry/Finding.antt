-- ===== src/Entry/Finding.antt =====
-- The search of `ch_link` in uzi-nes-port/fs/filesys.c, and where it ends.
use uzi_build.Prelude.{
  ℕ, zero, suc, ◌+◌, ◌-◌, ◌*◌, ◌≡◌, ◌≤◌, ◌<◌, refl, ap, ◌∙◌, inl, inr, true, false, Bool, not, List,
  [], ◌∷◌, ◌++◌, some, arith, ◌==◌, if◌then◌else◌, length, get_elem?, drop, Bool-cases, min,
  replicate,
}
use mathlib.Core.Path.{fun_ext}
use uzi_build.Kernel.{Kernel, Cinode}
use uzi_build.Kernel.Returns
use uzi_build.Kernel.Returns.{Returns}
use uzi_build.Buffer.{ndevs, block_size}
use uzi_build.Buffer.View.{view}
use uzi_build.Buffer.Obtain.{Ready, Ready-same}
use uzi_build.FreeList.Super.{Quiet}
use uzi_build.Inode.Table.{f_dir, getmode}
use uzi_build.Inode.Blocks.{nullblk, block_or_null}
use uzi_build.Inode.Blocks.Reading.{mapped}
use uzi_build.Files.Offset.Position.{position}
use uzi_build.Path.{namecomp}
use uzi_build.Process.Waiting.{Others}
use uzi_build.Devices.{Drivers}
use uzi_build.Transfer.{patch, readi}
use uzi_build.Transfer.Borrow.{contents}
use uzi_build.Transfer.Slices.{slice, file_byte}
use uzi_build.Transfer.Rounds.{IsWhole}
use uzi_build.Transfer.Reading.{Read, readi-file}
use uzi_build.Entry.{want_entry, find_slot, entry_name}

-- Whether entry `e` of a directory with these bytes bears the name.
abbrev pub bears : List ℕ → (ℕ → ℕ) → ℕ → Bool
bears name byte e = not (namecomp name (slice byte (suc (suc (16 * e))) 14) == 0)

-- A directory of `m` blocks in the inode table, whose device can be read.
pub record IsDirectory (k : Kernel) (wd : ℕ) (c : Cinode) (m : ℕ) : Type 0 where
  pub at : get_elem? k.i_tab wd ≡ some c
  pub kind : getmode c ≡ f_dir
  pub quiet : Quiet k c.c_dev
  pub whole : IsWhole k c.c_dev
  pub blkno : c.c_node.i_size.o_blkno ≡ m
  pub offset : c.c_node.i_size.o_offset ≡ 0
  pub small : m ≤ 18

-- What a search leaves behind.
pub record Searched (k k' : Kernel) : Type 0 where
  pub tables : k' ≡ record k {
    bufpool = k'.bufpool;
    bufclock = k'.bufclock;
    disk = k'.disk;
    udata = record (k.udata) {
      u_base = k'.udata.u_base;
      u_offset = k'.udata.u_offset;
      u_count = k'.udata.u_count;
    };
  }
  pub seen : (d b : ℕ) → d < ndevs → view k' d b ≡ view k d b
  pub ready : (d b : ℕ) → Ready k d b → Ready k' d b

Searched-then : {k k₁ k₂ : Kernel} → Searched k k₁ → Searched k₁ k₂ → Searched k k₂
Searched-then a b = record {
  tables = rw (b.tables, a.tables) refl;
  seen = λ d n p. b.seen d n p ∙ a.seen d n p;
  ready = λ d n r. b.ready d n (a.ready d n r);
}

Read-Searched : {k k' : Kernel} (at n : ℕ) → Read (want_entry at k) n k' → Searched k k'
unfolding want_entry
Read-Searched at n r = record {
  tables = rw (r.tables) refl;
  seen = r.seen;
  ready = λ d b h. r.ready d b (Ready-same refl refl refl d b h);
}

pub contents_same :
    (k k' : Kernel) (c : Cinode)
    → ((d b : ℕ) → d < ndevs → view k' d b ≡ view k d b)
    → c.c_dev < ndevs
    → contents k' c ≡ contents k c
contents_same k k' c seen p =
    let e : view k' c.c_dev ≡ view k c.c_dev = fun_ext (λ b. seen c.c_dev b p) in
    ap
      (λ see. λ (bn : ℕ).
        let pblk = block_or_null (mapped see c.c_node.i_addr bn) in
        if pblk == nullblk then replicate block_size 0 else see pblk)
      e

pub IsDirectory-Searched :
    {k k' : Kernel} {wd m : ℕ} {c : Cinode}
    → Searched k k'
    → IsDirectory k wd c m
    → IsDirectory k' wd c m
IsDirectory-Searched {c} s d = record {
  at = rw (s.tables) (d.at);
  kind = d.kind;
  quiet = λ b. s.ready c.c_dev b (d.quiet b);
  whole = λ b. ap length (s.seen c.c_dev b (d.quiet 0).device) ∙ d.whole b;
  blkno = d.blkno;
  offset = d.offset;
  small = d.small;
}

append_nil : (xs : List ℕ) → xs ++ [] ≡ xs
append_nil [] = refl
append_nil (x ∷ xs) = ap (λ l. x ∷ l) (append_nil xs)

drop_all : (n : ℕ) (xs : List ℕ) → length xs ≤ n → drop n xs ≡ []
drop_all zero [] h = refl
drop_all zero (x ∷ xs) h = absurd (omega arith)
drop_all (suc n) [] h = refl
drop_all (suc n) (x ∷ xs) h = drop_all n xs (omega arith)

replaced : (old new : List ℕ) → length old ≤ length new → patch old 0 new ≡ new
unfolding patch
replaced old new h =
    ap (λ l. new ++ l) (drop_all (0 + length new) old (omega arith)) ∙ append_nil new

-- What holds at the end of the search.
pub record Found (k : Kernel) (e : ℕ) (k' : Kernel) : Type 0 where
  pub searched : Searched k k'
  pub behind : position k'.udata.u_offset ≡ 16 * e + 16
  pub within : k'.udata.u_offset.o_offset < 512
  pub count : k'.udata.u_count ≡ 16

-- An entry is read whole.
entry_read :
    (dev_tab : Drivers) (others : Others) (at wd m e : ℕ) (k : Kernel) (c : Cinode) (junk : List ℕ)
    → IsDirectory k wd c m
    → e < 32 * m
    → position k.udata.u_offset ≡ 16 * e
    → k.udata.u_offset.o_offset < 512
    → Returns
        (readi dev_tab others wd (want_entry at k))
        (λ bytes k'. (bytes ≡ slice (file_byte (contents k c)) (16 * e) 16) × Found k e k')
unfolding want_entry
entry_read dev_tab others at wd m e k c junk d inside here within =
    let kind = d.kind in
    let blkno = d.blkno in
    let offset = d.offset in
    let small = d.small in
    let limit : min 16 (position c.c_node.i_size - position k.udata.u_offset) ≡ 16 = omega arith in
    Returns.weaken
      (readi-file dev_tab others (want_entry at k) wd c d.at (ground arith)
        (λ b. Ready-same refl refl refl c.c_dev b (d.quiet b)) d.whole (omega arith) (omega arith)
        within (omega arith) (omega arith))
      λ bytes k' (is, rd).
        let rd' = (rw limit at rd) in
        let moved = rd'.moved in
        let count : k'.udata.u_count ≡ 16 = rw (rd'.tables) refl in
        (
          is ∙ rw (limit, here) refl,
          record {
            searched = Read-Searched at 16 rd';
            behind = omega arith;
            within = rd'.within;
            count = count;
          },
        )

pub find_slot_lem :
    (rounds : ℕ) (dev_tab : Drivers) (others : Others) (at wd m e e₀ : ℕ) (k : Kernel) (c : Cinode)
    (old junk : List ℕ)
    → IsDirectory k wd c m
    → e < 32 * m
    → e₀ ≤ e
    → bears old (file_byte (contents k c)) e ≡ true
    → ((i : ℕ) → e₀ ≤ i → i < e → bears old (file_byte (contents k c)) i ≡ false)
    → position k.udata.u_offset ≡ 16 * e₀
    → k.udata.u_offset.o_offset < 512
    → length junk ≤ 16
    → e - e₀ < rounds
    → Returns (find_slot dev_tab others at rounds wd old junk k) (λ cur k'. Found k e k')
unfolding find_slot
find_slot_lem zero dev_tab others at wd m e e₀ k c old junk d inside le here before pos within short
      enough =
    absurd (omega arith)
find_slot_lem (suc rounds) dev_tab others at wd m e e₀ k c old junk d inside le here before pos
      within short enough =
    Returns.bind _ (entry_read dev_tab others at wd m e₀ k c junk d (omega arith) pos within)
      λ bytes k₁ (is, f).
        let byte = file_byte (contents k c) in
        let long : length bytes ≡ 16 = rw is refl in
        let cur : patch junk 0 bytes ≡ bytes = replaced junk bytes (omega arith) in
        let named : not (namecomp old (entry_name (patch junk 0 bytes)) == 0) ≡ bears old byte e₀ =
          rw (cur, is) refl in
        let some' : (k₁.udata.u_count == 0) ≡ false = (let n = f.count in ground arith) in
        elim (Bool-cases (e₀ == e)) [
          | inl z ↦
              let z' : e₀ ≡ e = ground arith in
              let yes : not (namecomp old (entry_name (patch junk 0 bytes)) == 0) ≡ true =
                named ∙ ap (λ x. bears old byte x) z' ∙ here in
              rw (some', yes)
                (record {
                  value = patch junk 0 bytes;
                  state = k₁;
                  result = refl;
                  post = rw z' at f;
                })
          | inr z ↦
              let ne : e₀ < e = ground arith in
              let no : not (namecomp old (entry_name (patch junk 0 bytes)) == 0) ≡ false =
                named ∙ before e₀ (omega arith) ne in
              let same = contents_same k k₁ c f.searched.seen (d.quiet 0).device in
              let behind = f.behind in
              rw (some', no)
                (Returns.weaken
                  (find_slot_lem rounds dev_tab others at wd m e (suc e₀) k₁ c old
                    (patch junk 0 bytes) (IsDirectory-Searched f.searched d) inside ne
                    (ap (λ bl. bears old (file_byte bl) e) same ∙ here)
                    (λ i p q. ap (λ bl. bears old (file_byte bl) i) same ∙ before i (omega arith) q)
                    (omega arith) f.within (rw cur (omega arith)) (omega arith))
                  λ cur' k' g. record {
                    searched = Searched-then f.searched g.searched;
                    behind = g.behind;
                    within = g.within;
                    count = g.count;
                  })
        ]

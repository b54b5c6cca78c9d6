-- ===== src/Transfer/Rounds.antt =====
-- The loop of `readi` in uzi-nes-port/kernel/scall1.c on a file: what its rounds deliver, and what they leave
-- behind.
use uzi_build.Prelude.{
  ℕ, zero, suc, ◌+◌, ◌-◌, ◌≡◌, ◌<◌, ◌≤◌, refl, sym, ap, ◌∙◌, inl, inr, false, List, [], ◌++◌, some,
  arith, ◌==◌, ltb, length, get_elem?, replicate, take, drop, Bool-cases, sub16,
}
use mathlib.Core.Path.{fun_ext}
use uzi_build.Kernel.{Kernel, Cinode}
use uzi_build.Kernel.Returns
use uzi_build.Kernel.Returns.{Returns}
use uzi_build.Buffer.{ndevs, block_size}
use uzi_build.Buffer.View.{view}
use uzi_build.Buffer.Obtain.{Ready, Ready-same}
use uzi_build.Buffer.Use.{Undisturbed}
use uzi_build.FreeList.Super.{Quiet}
use uzi_build.Inode.Table.{f_bdev, getmode}
use uzi_build.Inode.Blocks.{nullblk, block_or_null}
use uzi_build.Inode.Blocks.Reading.{mapped, bmap_reads, Undisturbed-then}
use uzi_build.Files.Offset.{min_int, addoff}
use uzi_build.Files.Offset.Position.{position, addoff_forward}
use uzi_build.Buffer.Zero.{Borrowed}
use uzi_build.Transfer.{move_on, copy_out}
use uzi_build.Transfer.Borrow.{shown, contents, block_buf-Borrowed}
use uzi_build.Transfer.Slices.{slice, file_byte, slice-plus, take-file}

-- Every block of the device is seen as 512 bytes.
abbrev pub IsWhole : Kernel → ℕ → Type 0
IsWhole k dev = (n : ℕ) → length (view k dev n) ≡ 512

-- After `n` bytes: `u_base` and `u_offset` have moved on, and besides that only the pool and what is on
-- the devices may differ, in such a way that no block looks different.
pub record Advanced (k : Kernel) (n : ℕ) (k' : Kernel) : Type 0 where
  pub tables : k' ≡ record k {
    bufpool = k'.bufpool;
    bufclock = k'.bufclock;
    disk = k'.disk;
    udata = record (k.udata) { u_base = k'.udata.u_base; u_offset = k'.udata.u_offset };
  }
  pub moved : position k'.udata.u_offset ≡ position k.udata.u_offset + n
  pub within : k'.udata.u_offset.o_offset < 512
  pub seen : (d m : ℕ) → d < ndevs → view k' d m ≡ view k d m
  pub ready : (d m : ℕ) → Ready k d m → Ready k' d m

replicate-length : (n : ℕ) → length {A = ℕ} (replicate n 0) ≡ n
replicate-length zero = refl
replicate-length (suc n) = let e = replicate-length n in omega arith

shown-length : (k : Kernel) (dev pblk : ℕ) → IsWhole k dev → length (shown k dev pblk) ≡ 512
shown-length k dev pblk whole = elim (Bool-cases (pblk == nullblk)) [
  | inl e ↦ rw e (replicate-length 512)
  | inr e ↦ rw e (whole pblk)
]

-- Moving on is between two states that differ in `udata` only.
pub Ready-move_on : (k : Kernel) (amount d m : ℕ) → Ready k d m → Ready (move_on false amount k) d m
unfolding move_on
Ready-move_on k amount d m r = Ready-same refl refl refl d m r

-- One step and the rest.
step :
    (k k₁ k' : Kernel) (amount n : ℕ)
    → Undisturbed k k₁
    → k.udata.u_offset.o_offset < 512
    → amount < 32768
    → position k.udata.u_offset + amount < 33554432
    → Advanced (move_on false amount k₁) n k'
    → Advanced k (amount + n) k'
unfolding move_on
step k k₁ k' amount n u small pos fits a =
    let same : k₁.udata ≡ k.udata = rw (u.tables) refl in
    let (there, in_block) = addoff_forward k.udata.u_offset amount small pos fits in
    let from : position (addoff k₁.udata.u_offset amount) ≡ position k.udata.u_offset + amount =
      rw same there in
    record {
      tables = rw (a.tables, u.tables) refl;
      moved = a.moved ∙ rw from (omega arith);
      within = a.within;
      seen = λ d m p. a.seen d m p ∙ u.seen d m p;
      ready = λ d m r. a.ready d m (Ready-move_on k₁ amount d m (u.ready d m r));
    }

-- How much the next round takes.
pub next_amount :
    (toread o : ℕ)
    → 0 < toread
    → toread < 32768
    → o < 512
    → (0 < min_int toread (sub16 block_size o))
      × (min_int toread (sub16 block_size o) ≤ toread)
      × (o + min_int toread (sub16 block_size o) ≤ 512)
unfolding min_int
next_amount toread o some_left small within = ground arith

contents_same :
    (k k' : Kernel) (c : Cinode) (bn : ℕ)
    → ((d m : ℕ) → d < ndevs → view k' d m ≡ view k d m)
    → c.c_dev < ndevs
    → contents k' c bn ≡ contents k c bn
contents_same k k' c bn seen p =
    let e : view k' c.c_dev ≡ view k c.c_dev = fun_ext (λ m. seen c.c_dev m p) in rw e refl

-- The bytes of one round.
piece :
    (k k₁ k₂ : Kernel) (c : Cinode) (pblk r amount : ℕ)
    → Undisturbed k k₁
    → c.c_dev < ndevs
    → IsWhole k c.c_dev
    → pblk ≡ block_or_null (mapped (view k c.c_dev) c.c_node.i_addr k.udata.u_offset.o_blkno)
    → (b : Borrowed k₁ (shown k₁ c.c_dev pblk) r k₂) → k.udata.u_offset.o_offset < 512
    → k.udata.u_offset.o_offset + amount ≤ 512
    → take amount (drop k.udata.u_offset.o_offset b.buf.bf_data)
      ≡ slice (file_byte (contents k c)) (position k.udata.u_offset) amount
piece k k₁ k₂ c pblk r amount u p whole is b within fits =
    let off = k.udata.u_offset in
    let e : view k₁ c.c_dev ≡ view k c.c_dev = fun_ext (λ m. u.seen c.c_dev m p) in
    let read : b.buf.bf_data ≡ contents k c off.o_blkno = b.shows ∙ rw (e, is) refl in
    rw read (
      take-file (contents k c) off.o_blkno off.o_offset amount
        (shown-length k c.c_dev
          (block_or_null (mapped (view k c.c_dev) c.c_node.i_addr off.o_blkno)) whole)
        within fits)

-- What the loop delivers from a state on, and leaves behind.
abbrev Delivers : Kernel → Cinode → ℕ → List ℕ → Kernel → Type 0
Delivers k c n bytes k' =
    (bytes ≡ slice (file_byte (contents k c)) (position k.udata.u_offset) n) × Advanced k n k'

-- What the rounds after one deliver, from where that one began.
joined :
    (k k₃ k' : Kernel) (c : Cinode) (amount toread : ℕ) (first rest : List ℕ)
    → Undisturbed k k₃
    → c.c_dev < ndevs
    → k.udata.u_offset.o_offset < 512
    → amount < 32768
    → amount ≤ toread
    → position k.udata.u_offset + toread < 33554432
    → first ≡ slice (file_byte (contents k c)) (position k.udata.u_offset) amount
    → Delivers (move_on false amount k₃) c (toread - amount) rest k'
    → Delivers k c toread (first ++ rest) k'
unfolding move_on
joined k k₃ k' c amount toread first rest u p within small le fits is (more, a) =
    let off = k.udata.u_offset in
    let same : k₃.udata ≡ k.udata = rw (u.tables) refl in
    let (there, in_block) = addoff_forward off amount within small (omega arith) in
    let from : position (addoff k₃.udata.u_offset amount) ≡ position off + amount = rw same there in
    let e : contents k₃ c ≡ contents k c = fun_ext (λ bn. contents_same k k₃ c bn u.seen p) in
    let whole : amount + (toread - amount) ≡ toread = omega arith in
    let tail : rest ≡ slice (file_byte (contents k c)) (position off + amount) (toread - amount) =
      rw (from, e) at more in
    (
      rw (is, tail)
          (sym (slice-plus (file_byte (contents k c)) (position off) amount (toread - amount))
            ∙ rw whole refl),
      rw whole at (step k k₃ k' amount (toread - amount) u within small (omega arith) a),
    )

unmoved : (k : Kernel) → k.udata.u_offset.o_offset < 512 → Advanced k 0 k
unmoved k within = record {
  tables = refl;
  moved = omega arith;
  within = within;
  seen = λ d m p. refl;
  ready = λ d m r. r;
}

-- From an offset within its block, with enough rounds, the loop comes back with the bytes of the file from
-- there on, as many as are asked for.
pub copy_out_lem :
    (rounds : ℕ) (k : Kernel) (i toread : ℕ) (c : Cinode)
    → get_elem? k.i_tab i ≡ some c
    → (getmode c == f_bdev) ≡ false
    → Quiet k c.c_dev
    → IsWhole k c.c_dev
    → k.udata.u_offset.o_offset < 512
    → toread < 32768
    → position k.udata.u_offset + toread < 33554432
    → toread < rounds
    → Returns (copy_out rounds false c.c_dev i toread k) (λ bytes k'.
      (bytes ≡ slice (file_byte (contents k c)) (position k.udata.u_offset) toread)
      × Advanced k toread k')
unfolding copy_out move_on
copy_out_lem zero k i toread c h kind quiet whole within small fits enough = absurd (omega arith)
copy_out_lem (suc rounds) k i toread c h kind quiet whole within small fits enough =
    elim (Bool-cases (toread == 0)) [
      | inl e ↦
          let z : toread ≡ 0 = ground arith in
          rw z (record { value = []; state = k; result = refl; post = (refl, unmoved k within) })
      | inr e ↦
          let off = k.udata.u_offset in
          let amount = min_int toread (sub16 block_size off.o_offset) in
          let (some_left, le, in_block) =
            next_amount toread off.o_offset (ground arith) small within in
          let bounded : ltb block_size (off.o_offset + amount) ≡ false = ground arith in
          rw e (
            Returns.bind _ (bmap_reads k i off.o_blkno c h quiet) λ pblk k₁ (is, u₁).
              Returns.bind _
                (block_buf-Borrowed k₁ c.c_dev pblk (λ n. u₁.ready c.c_dev n (quiet n)))
                λ r k₂ b.
                  rw (b.at, bounded)
                    (Returns.bind _ b.back λ v k₃ u₃.
                      let u = Undisturbed-then u₁ u₃ in
                      let p = (quiet 0).device in
                      let same : k₃.udata ≡ k.udata = rw (u.tables) refl in
                      let less : sub16 toread amount ≡ toread - amount = omega arith in
                      let (there, below) =
                        addoff_forward off amount within (omega arith) (omega arith) in
                      let from : position (addoff k₃.udata.u_offset amount)
                          ≡ position off + amount =
                        rw same there in
                      let first = take amount (drop off.o_offset b.buf.bf_data) in
                      let got =
                        piece k k₁ k₂ c pblk r amount u₁ p whole (rw kind at is) b within
                          in_block in
                      Returns.bind _
                        (copy_out_lem rounds (move_on false amount k₃) i (sub16 toread amount) c
                          (rw (u.tables) h) kind
                          (λ n. Ready-move_on k₃ amount c.c_dev n (u.ready c.c_dev n (quiet n)))
                          (λ n. ap length (u.seen c.c_dev n p) ∙ whole n) (rw same below)
                          (omega arith) (rw from (omega arith)) (omega arith))
                        λ bytes k₄ d. record {
                          value = first ++ bytes;
                          state = k₄;
                          result = refl;
                          post =
                              joined k k₃ k₄ c amount toread first bytes u p within (omega arith) le
                                fits got (rw less at d);
                        }))
    ]

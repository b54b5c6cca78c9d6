-- ===== src/Buffer/Failure.antt =====
-- A read that fails in `bread` of uzi-nes-port/drivers/devio.c. The buffer has its new name before the
-- device is asked, and keeps it after the device has answered -1.
use uzi_build.Prelude.{
  ℕ, zero, suc, ◌<◌, ◌%◌, ◌≡◌, refl, true, false, List, [], ◌∷◌, none, some, arith, ◌==◌, leb,
  add16, get_elem?, set, get_elem?-set_self,
}
use uzi_build.Kernel.{Kernel, Blkbuf, ok, set_error}
use uzi_build.Kernel.Returns.{Returns}
use uzi_build.Buffer.{
  ndevs, eio, holds, bfind, clean, fill, freebuf, bread, bdread, put_buf, oldest_buf,
}
use uzi_build.Buffer.View.{bfind-cons_none}
use uzi_build.Buffer.Read.{grabbed, grab_lem}

-- The buffer as the failed read leaves it.
abbrev pub misnamed : ℕ → ℕ → Blkbuf → Blkbuf
misnamed dev blk b = record b { bf_dev = dev; bf_blk = blk }

freebuf_clean :
    (k : Kernel) (i : ℕ) (b : Blkbuf)
    → oldest_buf k.bufclock 0 none 0 k.bufpool ≡ some i
    → get_elem? k.bufpool i ≡ some b
    → b.bf_dirty ≡ 0
    → freebuf k ≡ ok i k
unfolding freebuf clean
freebuf_clean k i b oldest h fresh =
    let skip : (b.bf_dirty == 0) ≡ true = ground arith in rw (oldest, freebuf, h, skip)

failed_fill :
    (k : Kernel) (dev blk i : ℕ) (b : Blkbuf)
    → get_elem? k.bufpool i ≡ some b
    → k.fault dev blk ≡ true
    → dev < ndevs
    → fill dev blk 0 i k ≡ ok none (set_error eio (put_buf i (misnamed dev blk b) k))
unfolding fill bdread
failed_fill k dev blk i b h bad p =
    let byte : dev % 256 ≡ dev = omega arith in
    let small : leb ndevs dev ≡ false = ground arith in
    let at = get_elem?-set_self k.bufpool i b (misnamed dev blk b) h in rw (h, byte, at, small, bad)

-- The first buffer of a name that the pool did not have is the one that has just got it.
bfind-set_new :
    (bs : List Blkbuf) (d n i : ℕ) (b b' : Blkbuf)
    → bfind d n bs ≡ none
    → get_elem? bs i ≡ some b
    → holds d n b' ≡ true
    → bfind d n (set bs i b') ≡ some i
unfolding bfind
bfind-set_new [] d n i b b' e h p = cc
bfind-set_new (x ∷ bs) d n zero b b' e h p = rw p
bfind-set_new (x ∷ bs) d n (suc i) b b' e h p =
    let (other, rest) = bfind-cons_none d n x bs e in
    rw (other, bfind-set_new bs d n i b b' rest h p)

-- When the device fails to read a block that is in no buffer, and the buffer chosen for it is clean,
-- `bread` returns a null pointer with EIO; but the next `bread` of the block asks no device and returns
-- the chosen buffer, with the contents of the block that it was last used for.
pub bread_after_failure :
    (k : Kernel) (dev blk i : ℕ) (b : Blkbuf)
    → dev < ndevs
    → k.fault dev blk ≡ true
    → bfind dev blk k.bufpool ≡ none
    → oldest_buf k.bufclock 0 none 0 k.bufpool ≡ some i
    → get_elem? k.bufpool i ≡ some b
    → b.bf_busy ≡ 0
    → b.bf_dirty ≡ 0
    → Returns (bread dev blk 0 k) (λ r k₁.
      (r ≡ none)
      × (k₁.udata.u_error ≡ eio)
      × Returns (bread dev blk 0 k₁) (λ r' k₂.
        (r' ≡ some i)
        × (k₂.udata.u_error ≡ eio)
        × ((b' : Blkbuf) × (get_elem? k₂.bufpool i ≡ some b') × (b'.bf_data ≡ b.bf_data))))
unfolding bread
bread_after_failure k dev blk i b p bad new oldest h idle fresh =
    let k₁ = set_error eio (put_buf i (misnamed dev blk b) k) in
    let found = bfind-set_new k.bufpool dev blk i b (misnamed dev blk b) new h (ground arith) in
    let at = get_elem?-set_self k.bufpool i b (misnamed dev blk b) h in
    let quiet : (b.bf_busy == 0) ≡ true = ground arith in
    record {
      value = none;
      state = k₁;
      result =
          rw (new, bread, freebuf_clean k i b oldest h fresh, failed_fill k dev blk i b h bad p);
      post = (
        refl,
        refl,
        record {
          value = some i;
          state = record k₁ {
            bufpool = set k₁.bufpool i (grabbed k.bufclock (misnamed dev blk b));
            bufclock = add16 k.bufclock 1;
          };
          result = rw (found, bread, at, quiet, grab_lem k₁ i (misnamed dev blk b) at);
          post = (
            refl,
            refl,
            (
              grabbed k.bufclock (misnamed dev blk b),
              get_elem?-set_self k₁.bufpool i (misnamed dev blk b)
                  (grabbed k.bufclock (misnamed dev blk b)) at,
              refl,
            ),
          );
        },
      );
    }

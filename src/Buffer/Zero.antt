-- ===== src/Buffer/Zero.antt =====
-- A buffer of zeroes (`zerobuf` of uzi-nes-port/drivers/devio.c) taken from the pool and given back: it is
-- named after no device, so nothing looks different.
use uzi_build.Prelude.{
  ℕ, zero, suc, ◌<◌, ◌≡◌, refl, ◌≢◌, inl, inr, List, [], ◌∷◌, none, some, arith, ◌∙◌, sym, ◌==◌,
  get_elem?, set, get_elem?-set_self, get_elem?-set_ne, set-set, replicate, Bool-cases,
  Option-cases,
}
use uzi_build.Kernel.{Kernel, Blkbuf}
use uzi_build.Kernel.Returns
use uzi_build.Kernel.Returns.{Returns}
use uzi_build.Buffer.{ndevs, block_size, holds, bfind, put_buf, brelse, bfree, zerobuf}
use uzi_build.Buffer.View.{Disk, lookup, IsCoherent, lookup_unfound}
use uzi_build.Buffer.WriteBack.{cleaned}
use uzi_build.Buffer.Evict.{SameTables, Evicted, freebuf-Evicted}
use uzi_build.Buffer.Obtain.{Ready}
use uzi_build.Buffer.Use.{Undisturbed}

-- Named after no device, and clean.
pub record IsForeign (b : Blkbuf) : Type 0 where
  pub far : b.bf_dev ≡ 255
  pub clean : b.bf_dirty ≡ 0

bfind-set_foreign :
    (bs : List Blkbuf) (i d n : ℕ) (b : Blkbuf)
    → IsForeign b
    → d < ndevs
    → bfind d n bs ≡ none
    → bfind d n (set bs i b) ≡ none
unfolding bfind
bfind-set_foreign [] i d n b f p h = refl
bfind-set_foreign (x ∷ bs) zero d n b f p h = ground (arith, f.far)
bfind-set_foreign (x ∷ bs) (suc i) d n b f p h = elim (Bool-cases (holds d n x)) [
  | inl e ↦ ground (arith, e)
  | inr e ↦ elim (Option-cases (bfind d n bs)) [
    | inl none' ↦ rw (e, bfind-set_foreign bs i d n b f p none')
    | inr (j, found) ↦ ground (arith, e, found)
  ]
]

-- A clean idle buffer becomes foreign: no block of a device looks different.
lookup-set_foreign :
    (disk : Disk) (bs : List Blkbuf) (i d n : ℕ) (b b' : Blkbuf)
    → get_elem? bs i ≡ some b
    → b.bf_dirty ≡ 0
    → b.bf_busy ≡ 0
    → IsForeign b'
    → IsCoherent disk bs
    → d < ndevs
    → lookup disk (set bs i b') d n ≡ lookup disk bs d n
lookup-set_foreign disk [] i d n b b' h fresh idle f c p = refl
lookup-set_foreign disk (x ∷ bs) zero d n b b' h fresh idle f (s, apart, c) p =
    ground (arith, s.agrees, apart, lookup_unfound disk bs d n, f.far)
lookup-set_foreign disk (x ∷ bs) (suc i) d n b b' h fresh idle f (s, apart, c) p =
    ground (arith, lookup-set_foreign disk bs i d n b b' h fresh idle f c p)

set_foreign-IsCoherent :
    (disk : Disk) (bs : List Blkbuf) (i : ℕ) (b : Blkbuf)
    → IsForeign b
    → IsCoherent disk bs
    → IsCoherent disk (set bs i b)
set_foreign-IsCoherent disk [] i b f c = tt
set_foreign-IsCoherent disk (x ∷ bs) zero b f (s, apart, c) = (
  record {
    agrees = λ p q r. absurd (let e = f.far in omega arith);
    owned = λ q. absurd (q f.clean);
    flag = let e = f.clean in omega arith;
  },
  λ p. absurd (let e = f.far in omega arith),
  c,
)
set_foreign-IsCoherent disk (x ∷ bs) (suc i) b f (s, apart, c) = (
  s,
  λ p. bfind-set_foreign bs i x.bf_dev x.bf_blk b f p (apart p),
  set_foreign-IsCoherent disk bs i b f c,
)

-- The buffer that `zerobuf` makes of one, and the state after it has been given back.
abbrev zeroes : Blkbuf → Blkbuf
zeroes b = record b { bf_dev = 255; bf_data = replicate block_size 0 }

abbrev returned : Blkbuf → Blkbuf
returned b = record (zeroes b) { bf_dirty = 0; bf_busy = 0 }

given_back :
    (k k₁ : Kernel) (i : ℕ) (b : Blkbuf)
    → Evicted k i b k₁
    → b.bf_busy ≡ 0
    → Undisturbed k (put_buf i (returned (cleaned b)) k₁)
given_back k k₁ i b ev idle =
    let z = returned (cleaned b) in
    let f : IsForeign z = record { far = refl; clean = refl } in
    record {
      tables = rw (ev.tables) refl;
      seen = λ d n p.
          lookup-set_foreign k₁.disk k₁.bufpool i d n (cleaned b) z ev.entry refl idle f ev.coherent
            p
          ∙ ev.seen d n;
      ready = λ d n r. record {
        coherent = set_foreign-IsCoherent k₁.disk k₁.bufpool i z f ev.coherent;
        no_fault = rw (ev.tables) (r.no_fault);
        device = r.device;
        spare = i;
        spare_buf = z;
        spare_at = get_elem?-set_self k₁.bufpool i (cleaned b) z ev.entry;
        spare_idle = refl;
        released = λ j x at named. elim (Bool-cases (i == j)) [
          | inl e ↦
              let same : i ≡ j = ground arith in
              let here = get_elem?-set_self k₁.bufpool i (cleaned b) z ev.entry in
              let is : x ≡ z = cc in rw is refl
          | inr e ↦
              let ne : i ≢ j = ground arith in
              r.released j x (sym (get_elem?-set_ne k₁.bufpool i j z ne ∙ ev.others j ne) ∙ at)
                named
        ];
      };
    }

-- A buffer in a caller's hands that shows some bytes, and can be given back with nothing changed.
pub record Borrowed (k : Kernel) (bytes : List ℕ) (i : ℕ) (k₁ : Kernel) : Type 0 where
  pub buf : Blkbuf
  pub at : get_elem? k₁.bufpool i ≡ some buf
  pub shows : buf.bf_data ≡ bytes
  pub same : SameTables k k₁
  pub back : Returns (brelse i k₁) (λ r k'. Undisturbed k k')

zeroes-Borrowed :
    (k k₁ : Kernel) (i : ℕ) (b : Blkbuf)
    → Evicted k i b k₁
    → b.bf_busy ≡ 0
    → Borrowed k (replicate block_size 0) i (put_buf i (zeroes (cleaned b)) k₁)
unfolding brelse bfree
zeroes-Borrowed k k₁ i b ev idle =
    let z = zeroes (cleaned b) in
    let at = get_elem?-set_self k₁.bufpool i (cleaned b) z ev.entry in
    record {
      buf = z;
      at = at;
      shows = refl;
      same = rw (ev.tables) refl;
      back = record {
        value = 0;
        state = put_buf i (returned (cleaned b)) k₁;
        result = rw (at, set-set k₁.bufpool i z (returned (cleaned b)));
        post = given_back k k₁ i b ev idle;
      };
    }

-- With an idle buffer, devices that answer and a coherent pool, `zerobuf` returns a buffer of 512 zeroes that
-- can be given back with nothing changed.
pub zerobuf-Borrowed :
    (k : Kernel) (dev blk : ℕ)
    → Ready k dev blk
    → Returns (zerobuf k) (λ i k₁. Borrowed k (replicate block_size 0) i k₁)
unfolding zerobuf
zerobuf-Borrowed k dev blk ready =
    Returns.bind _
      (freebuf-Evicted k ready.spare ready.spare_buf ready.spare_at ready.spare_idle ready.coherent
        ready.no_fault)
      λ i k₁ (o, ev). record {
        value = i;
        state = put_buf i (zeroes (cleaned o.buf)) k₁;
        result = rw (ev.entry);
        post = zeroes-Borrowed k k₁ i o.buf ev o.idle;
      }

-- ===== src/Process/Death/Exit.antt =====
-- A process that ends by `doexit` of uzi-nes-port/kernel/scall2.c, and what its parent gets from `_wait`.
use uzi_build.Prelude.{
  ℕ, zero, suc, ◌+◌, ◌-◌, ◌≡◌, ◌≢◌, ◌<◌, refl, ap, ◌∙◌, inl, inr, true, false, List, [], ◌∷◌, some,
  arith, ◌==◌, ltb, get_elem?, get_elem?-set_self, set, map, Bool-cases,
}
use uzi_build.Kernel.{Kernel, PTab, Cinode, ok, left}
use uzi_build.Inode.Table.{cmagic, magic, put_inode, getmode, f_pipe}
use uzi_build.Inode.Blocks.{i_deref, retire}
use uzi_build.Files.Table.{uftsize}
use uzi_build.Process.{p_empty, p_running, p_zombie, woken, wakeup}
use uzi_build.Signals.{update_at}
use uzi_build.Process.Waiting.{slot_address}
use uzi_build.Process.Death.{
  close_files, is_child, adopt, exit_value, with_times, summed, parent_event, doexit,
}

-- Without an open descriptor there is nothing to close.
close_none :
    (n j : ℕ) (k : Kernel)
    → ((i : ℕ) → i < j + n → get_elem? k.udata.u_files i ≡ some 255)
    → close_files j n k ≡ ok tt k
unfolding close_files
close_none zero j k h = refl
close_none (suc n) j k h =
    rw (h j (omega arith), close_none n (j + 1) k (λ i p. h i (omega arith))) refl

-- An inode with another reference only loses one.
i_deref_shared :
    (k : Kernel) (i : ℕ) (c : Cinode)
    → get_elem? k.i_tab i ≡ some c
    → c.c_magic ≡ cmagic
    → 1 < c.c_refs
    → (getmode c == f_pipe) ≡ false
    → i_deref i k ≡ ok tt (put_inode i (record c { c_refs = c.c_refs - 1 }) k)
unfolding i_deref retire magic
i_deref_shared k i c at sound shared plain =
    let a : (c.c_magic == cmagic) ≡ true = ground arith in
    let b : (c.c_refs == 0) ≡ false = ground arith in
    let d : (c.c_refs - 1 == 0) ≡ false = ground arith in
    let there = get_elem?-set_self k.i_tab i c (record c { c_refs = c.c_refs - 1 }) at in
    rw (at, a, at, b, plain, d, there, d) refl

pub get_elem?-map :
    (f : PTab → PTab) (ps : List PTab) (i : ℕ) (p : PTab)
    → get_elem? ps i ≡ some p
    → get_elem? (map f ps) i ≡ some (f p)
get_elem?-map f [] i p h = cc
get_elem?-map f (x ∷ ps) zero p h = let e : x ≡ p = cc in rw e refl
get_elem?-map f (x ∷ ps) (suc i) p h = get_elem?-map f ps i p h

-- A process with no open descriptor, not the first one and not its own parent, whose directory others use too.
pub record IsLeaving (k : Kernel) (pa : ℕ) (p : PTab) (c : Cinode) : Type 0 where
  pub at : get_elem? k.ptab k.udata.u_ptab ≡ some p
  pub running : p.p_status ≡ p_running
  pub parent : p.p_pptr ≡ some pa
  pub other : pa ≢ k.udata.u_ptab
  pub not_first : k.udata.u_ptab ≢ k.initproc
  pub closed : (i : ℕ) → i < uftsize → get_elem? k.udata.u_files i ≡ some 255
  pub directory : get_elem? k.i_tab k.udata.u_cwd ≡ some c
  pub sound : c.c_magic ≡ cmagic
  pub shared : 1 < c.c_refs
  pub plain : (getmode c == f_pipe) ≡ false

-- Its entry with the exit value and its times.
abbrev pub marked : ℕ → PTab → PTab
marked value p = record p { p_exitval = value }

abbrev pub timed : Kernel → ℕ → PTab → PTab
timed k value p = with_times (summed k.udata).u_utime (summed k.udata).u_stime (marked value p)

abbrev pub gone : Kernel → ℕ → PTab → PTab
gone k value p = record (timed k value p) { p_status = p_zombie }

abbrev pub handed_over : Kernel → ℕ → ℕ → PTab → List PTab
handed_over k self value p = map (adopt self k.initproc) (set k.ptab self (marked value p))

abbrev pub exit_table : Kernel → ℕ → ℕ → ℕ → PTab → List PTab
exit_table k self pa value p =
    set (wakeup (slot_address k pa) (set (handed_over k self value p) self (timed k value p))) self
      (gone k value p)

abbrev pub ended : Kernel → ℕ → ℕ → ℕ → PTab → Cinode → Kernel
ended k self pa value p c =
    record (put_inode k.udata.u_cwd (record c { c_refs = c.c_refs - 1 }) k) {
      ptab = exit_table k self pa value p;
      udata = summed k.udata;
    }

kept_entry :
    (k : Kernel) (self pa value : ℕ) (p : PTab)
    → get_elem? k.ptab self ≡ some p
    → p.p_pptr ≡ some pa
    → pa ≢ self
    → get_elem? (handed_over k self value p) self ≡ some (marked value p)
kept_entry k self pa value p at parent ne =
    let own : is_child self p ≡ false = rw parent (ground arith) in
    get_elem?-map (adopt self k.initproc) (set k.ptab self (marked value p)) self (marked value p)
      (get_elem?-set_self k.ptab self p (marked value p) at)
    ∙ (elim (Bool-cases (p.p_status == p_empty)) [ inl e ↦ rw (e) refl | inr e ↦ rw (e, own) refl ])

pub timed_entry :
    (k : Kernel) (self pa value : ℕ) (p : PTab) (event : ℕ)
    → get_elem? k.ptab self ≡ some p
    → p.p_status ≡ p_running
    → p.p_pptr ≡ some pa
    → pa ≢ self
    → get_elem? (wakeup event (set (handed_over k self value p) self (timed k value p))) self
      ≡ some (timed k value p)
unfolding wakeup
timed_entry k self pa value p event at running parent ne =
    let low : ltb p_running p.p_status ≡ false = ground arith in
    get_elem?-map (woken event) (set (handed_over k self value p) self (timed k value p)) self
      (timed k value p)
      (get_elem?-set_self (handed_over k self value p) self (marked value p) (timed k value p)
        (kept_entry k self pa value p at parent ne))
    ∙ rw low refl

update_at-there :
    (ps : List PTab) (i : ℕ) (p : PTab) (f : PTab → PTab)
    → get_elem? ps i ≡ some p
    → update_at ps i f ≡ set ps i (f p)
update_at-there ps i p f h = rw (update_at, h) refl

last_table :
    (k : Kernel) (self pa value : ℕ) (p : PTab) (event : ℕ)
    → event ≡ slot_address k pa
    → get_elem?
        (wakeup (slot_address k pa) (set (handed_over k self value p) self (timed k value p)))
        self
      ≡ some (timed k value p)
    → update_at
        (wakeup event (set (handed_over k self value p) self (timed k value p)))
        self
        (λ q. record q { p_status = p_zombie })
      ≡ exit_table k self pa value p
last_table k self pa value p event e at = rw e (update_at-there _ self _ _ at)

pub doexit_ok :
    (k : Kernel) (pa val val2 : ℕ) (p : PTab) (c : Cinode)
    → IsLeaving k pa p c
    → doexit val val2 k ≡ left (ended k k.udata.u_ptab pa (exit_value val val2) p c)
unfolding doexit
doexit_ok k pa val val2 p c l =
    let self = k.udata.u_ptab in
    let value = exit_value val val2 in
    let first : (self == k.initproc) ≡ false = (let ne = l.not_first in ground arith) in
    let close = close_none uftsize 0 k (λ i q. l.closed i q) in
    let kept = kept_entry k self pa value p l.at l.parent l.other in
    let timed' =
      timed_entry k self pa value p (slot_address k pa) l.at l.running l.parent l.other in
    let deref =
      i_deref_shared (record k { ptab = handed_over k self value p }) k.udata.u_cwd c l.directory
        l.sound l.shared l.plain in
    rw (close, l.at, deref, kept, first)
      (ap
        (λ tab. left (record (put_inode k.udata.u_cwd (record c { c_refs = c.c_refs - 1 }) k) {
          ptab = tab;
          udata = summed k.udata;
        }))
        (last_table k self pa value p (parent_event k (marked value p)) (rw (l.parent) refl)
          timed'))

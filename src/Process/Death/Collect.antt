-- ===== src/Process/Death/Collect.antt =====
-- What the parent of a process that ends by `doexit` of uzi-nes-port/kernel/scall2.c gets from `_wait`.
use uzi_build.Prelude.{
  ℕ, zero, suc, ◌+◌, ◌*◌, ◌%◌, ◌/◌, ◌^◌, ◌≡◌, bit_and, bit_and_byte, bit_or_above, ◌≢◌, ◌<◌, ◌≤◌,
  refl, sym, ap, ◌∙◌, inl, inr, not, ◌&&◌, List, [], ◌∷◌, some, arith, ◌==◌, ltb, get_elem?,
  get_elem?-set_self, get_elem?-set_ne, set, Bool-cases,
}
use uzi_build.Kernel.{Kernel, PTab, Time, UData, Cinode, left}
use uzi_build.Clock.{ticks_per_min, addtick}
use uzi_build.Clock.Ticks.{total, addtick-IsSum}
use uzi_build.Kernel.Memory.{store}
use uzi_build.Kernel.Returns
use uzi_build.Kernel.Returns.{Returns}
use uzi_build.Process.{p_empty, p_running, p_zombie, woken, wakeup}
use uzi_build.Process.Waiting.{Others, slot_address}
use uzi_build.Process.Death.Reaping.{IsFirstZombie, wait_reaped}
use uzi_build.Process.Death.{is_child, adopt, exit_value, doexit, wait}
use uzi_build.Process.Death.Exit.{
  IsLeaving, marked, timed, gone, handed_over, exit_table, ended, get_elem?-map, timed_entry,
  doexit_ok,
}

-- An entry of another process.
other_entry :
    (k : Kernel) (self pa value j : ℕ) (p q : PTab)
    → get_elem? k.ptab j ≡ some q
    → j ≢ self
    → get_elem? (exit_table k self pa value p) j
      ≡ some (woken (slot_address k pa) (adopt self k.initproc q))
unfolding wakeup
other_entry k self pa value j p q at ne =
    let ne' : self ≢ j = λ e. ne (sym e) in
    let a : get_elem? (set k.ptab self (marked value p)) j ≡ some q =
      get_elem?-set_ne k.ptab self j (marked value p) ne' ∙ at in
    let b : get_elem? (handed_over k self value p) j ≡ some (adopt self k.initproc q) =
      get_elem?-map (adopt self k.initproc) (set k.ptab self (marked value p)) j q a in
    let tab = set (handed_over k self value p) self (timed k value p) in
    let d : get_elem? tab j ≡ some (adopt self k.initproc q) =
      get_elem?-set_ne (handed_over k self value p) self j (timed k value p) ne' ∙ b in
    get_elem?-set_ne (wakeup (slot_address k pa) tab) self j (gone k value p) ne'
    ∙ get_elem?-map (woken (slot_address k pa)) tab j (adopt self k.initproc q) d

own_entry :
    (k : Kernel) (self pa value : ℕ) (p : PTab)
    → get_elem?
        (wakeup (slot_address k pa) (set (handed_over k self value p) self (timed k value p)))
        self
      ≡ some (timed k value p)
    → get_elem? (exit_table k self pa value p) self ≡ some (gone k value p)
own_entry k self pa value p at =
    get_elem?-set_self
      (wakeup (slot_address k pa) (set (handed_over k self value p) self (timed k value p))) self
      (timed k value p) (gone k value p) at

-- What a wakeup leaves as it is.
woken_kept :
    (event : ℕ) (q : PTab)
    → ((woken event q).p_pending ≡ q.p_pending)
      × ((woken event q).p_pptr ≡ q.p_pptr)
      × ((woken event q).p_status ≡ p_zombie → q.p_status ≡ p_zombie)
woken_kept event q = elim (Bool-cases (ltb p_running q.p_status && q.p_wait == event)) [
  | inl e ↦ rw e (refl, refl, λ h. absurd (omega arith))
  | inr e ↦ rw e (refl, refl, λ h. h)
]

adopt_kept :
    (self init pa : ℕ) (q : PTab)
    → ((adopt self init q).p_pending ≡ q.p_pending)
      × ((adopt self init q).p_status ≡ q.p_status)
      × (init ≢ pa → (adopt self init q).p_pptr ≡ some pa → q.p_pptr ≡ some pa)
adopt_kept self init pa q = elim (Bool-cases (not (q.p_status == p_empty) && is_child self q)) [
  | inl e ↦ rw e (refl, refl, λ ne h. absurd (ne cc))
  | inr e ↦ rw e (refl, refl, λ ne h. h)
]

entry_below :
    (ps : List PTab) (i j : ℕ) (p : PTab)
    → get_elem? ps i ≡ some p
    → j < i
    → (q : PTab) × (get_elem? ps j ≡ some q)
entry_below [] i j p h lt = cc
entry_below (x ∷ ps) zero j p h lt = absurd (omega arith)
entry_below (x ∷ ps) (suc i) zero p h lt = (x, refl)
entry_below (x ∷ ps) (suc i) (suc j) p h lt = entry_below ps i j p h (omega arith)

-- The table after the end of a process, as its parent finds it.
gone-IsFirstZombie :
    (k : Kernel) (self pa value : ℕ) (p : PTab)
    → get_elem? (exit_table k self pa value p) self ≡ some (gone k value p)
    → get_elem? k.ptab self ≡ some p
    → p.p_pptr ≡ some pa
    → k.initproc ≢ pa
    → ((j : ℕ) (q : PTab)
        → j < self
        → get_elem? k.ptab j ≡ some q
        → q.p_status ≡ p_zombie
        → q.p_pptr ≢ some pa)
    → IsFirstZombie pa (exit_table k self pa value p) self (gone k value p)
gone-IsFirstZombie k self pa value p own at parent ne before = record {
  at = own;
  zombie = refl;
  parent = parent;
  first = λ j q lt h status whose.
      let (q₀, there) = entry_below k.ptab self j p at lt in
      let e = other_entry k self pa value j p q₀ there (λ z. absurd (omega arith)) in
      let is : q ≡ woken (slot_address k pa) (adopt self k.initproc q₀) = cc in
      let (a, b, c) = woken_kept (slot_address k pa) (adopt self k.initproc q₀) in
      let (a', b', c') = adopt_kept self k.initproc pa q₀ in
      before j q₀ lt there (sym b' ∙ c (ap (λ x. x.p_status) (sym is) ∙ status))
        (c' ne (sym b ∙ ap (λ x. x.p_pptr) (sym is) ∙ whose));
}

-- The exit value in bytes.
exit_value_lem : (val val2 : ℕ) → exit_value val val2 ≡ val2 % 256 + 256 * (val % 256)
exit_value_lem val val2 =
    let low : bit_and val2 255 < 2 ^ 8 = omega (arith, bit_and_byte val2) in
    let high : val * 256 % 65536 ≡ val % 256 * 2 ^ 8 = omega arith in
    let sum = bit_or_above 8 (bit_and val2 255) (val % 256) low in
    let byte = bit_and_byte val2 in rw (high, sum) (omega arith)

-- The sum of three counts.
abbrev pub IsSum3 : Time → Time → Time → Time → Type 0
IsSum3 t a b c = (total t ≡ total a + total b + total c) × (t.t_time < ticks_per_min)

-- Three counts whose sum can be had.
pub record AreSmall3 (a b c : Time) : Type 0 where
  pub first : a.t_time < ticks_per_min
  pub second : b.t_time < ticks_per_min
  pub third : c.t_time < ticks_per_min
  pub minutes : a.t_date + b.t_date + c.t_date + 2 < 65536

added_twice : (a b c : Time) → AreSmall3 a b c → IsSum3 (addtick a (addtick b c)) a b c
added_twice a b c s =
    let second = s.second in
    let third = s.third in
    let minutes = s.minutes in
    let (sum, short) =
      addtick-IsSum b c (record { first = s.second; second = s.third; minutes = omega arith }) in
    let (sum', short') =
      addtick-IsSum a (addtick b c)
        (record { first = s.first; second = short; minutes = omega arith }) in
    (omega arith, short')

-- A process that has closed its files and whose working directory others use too ends, and its parent is
-- not the first process, has no pending signal, and no child that has exited in an earlier slot of the
-- table. `doexit` does not come back. In the state that it leaves, with the parent's user data and
-- memory in place, `_wait` comes back without sleep: it returns the number of the process; the two bytes
-- where the parent wanted it hold the low bytes of the second and the first argument of `doexit`; the
-- user and system times of the process and those of the children it had waited for are added, tick by
-- tick, to the parent's times for children, where these sums fit; nothing else of the parent's user data
-- has changed, and the slot is empty.
pub doexit-wait :
    (others : Others) (k : Kernel) (val val2 statloc : ℕ) (p me : PTab) (c : Cinode) (u : UData)
    (memory : ℕ → ℕ)
    → IsLeaving k u.u_ptab p c
    → get_elem? k.ptab u.u_ptab ≡ some me
    → me.p_pending ≡ 0
    → u.u_cursig ≡ 0
    → k.initproc ≢ u.u_ptab
    → statloc ≤ k.udata_at
    → ((j : ℕ) (q : PTab)
        → j < k.udata.u_ptab
        → get_elem? k.ptab j ≡ some q
        → q.p_status ≡ p_zombie
        → q.p_pptr ≢ some u.u_ptab)
    → AreSmall3 u.u_cutime k.udata.u_utime k.udata.u_cutime
    → AreSmall3 u.u_cstime k.udata.u_stime k.udata.u_cstime
    → (k' : Kernel) × (doexit val val2 k ≡ left k')
      × Returns (wait others statloc (record k' { udata = u; memory = memory })) (λ pid k''.
        (pid ≡ p.p_pid)
        × (statloc ≢ 0 → k''.memory ≡ store memory statloc (val2 % 256 ∷ val % 256 ∷ []))
        × IsSum3 k''.udata.u_cutime u.u_cutime k.udata.u_utime k.udata.u_cutime
        × IsSum3 k''.udata.u_cstime u.u_cstime k.udata.u_stime k.udata.u_cstime
        × (k''.udata ≡ record u { u_cutime = k''.udata.u_cutime; u_cstime = k''.udata.u_cstime })
        × ((q : PTab) × (get_elem? k''.ptab k.udata.u_ptab ≡ some q) × (q.p_status ≡ p_empty)))
doexit-wait others k val val2 statloc p me c u memory l at none' quiet ne room before small small' =
    let self = k.udata.u_ptab in
    let pa = u.u_ptab in
    let value = exit_value val val2 in
    let tab = exit_table k self pa value p in
    let own =
      own_entry k self pa value p
        (timed_entry k self pa value p (slot_address k pa) l.at l.running l.parent l.other) in
    let me' = woken (slot_address k pa) (adopt self k.initproc me) in
    let there : get_elem? tab pa ≡ some me' = other_entry k self pa value pa p me at l.other in
    let (a, b, d) = woken_kept (slot_address k pa) (adopt self k.initproc me) in
    let (a', b', d') = adopt_kept self k.initproc pa me in
    let word = exit_value_lem val val2 in
    let lo : value % 256 ≡ val2 % 256 = omega arith in
    let hi : value / 256 ≡ val % 256 = omega arith in
    (
      ended k self pa value p c,
      doexit_ok k pa val val2 p c l,
      Returns.weaken
          (wait_reaped others (record (ended k self pa value p c) { udata = u; memory = memory })
            statloc self me' (gone k value p) room there (a ∙ a' ∙ none') quiet
            (λ e. l.other (sym e))
            (gone-IsFirstZombie k self pa value p own l.at l.parent ne before))
          λ pid k'' (one, two, three, four). (
            one,
            λ some'. three some' ∙ ap (λ bs. store memory statloc bs) (rw (lo, hi) refl),
            rw four (added_twice u.u_cutime k.udata.u_utime k.udata.u_cutime small),
            rw four (added_twice u.u_cstime k.udata.u_stime k.udata.u_cstime small'),
            rw four refl,
            (
              record (gone k value p) { p_status = p_empty },
              ap (λ t. get_elem? t self) two ∙ get_elem?-set_self tab self (gone k value p) _ own,
              refl,
            ),
          ),
    )

-- ===== src/Process/Death/Childless.antt =====
-- `_wait` of uzi-nes-port/kernel/scall2.c for a process without children.
use uzi_build.Prelude.{
  ℕ, suc, ◌+◌, ◌≡◌, ◌≤◌, refl, inl, inr, ◌⊎◌, false, not, ◌&&◌, List, [], ◌∷◌, some, arith, ◌==◌,
  ltb, get_elem?, Bool-cases, minus_one,
}
use uzi_build.Kernel.{Kernel, PTab, ok, set_error}
use uzi_build.Process.{p_empty}
use uzi_build.Process.Waiting.{Others}
use uzi_build.Process.Death.{echild, is_child, has_child, wait}
use uzi_build.Process.Death.Reaping.{is_child_eq}

has_child_none :
    (self base : ℕ) (ps : List PTab)
    → ((i : ℕ) (p : PTab)
        → get_elem? ps i ≡ some p
        → p.p_pptr ≡ some self
        → (p.p_status ≡ p_empty) ⊎ (base + i ≡ self))
    → has_child self base ps ≡ false
unfolding has_child
has_child_none self base [] h = refl
has_child_none self base (x ∷ ps) h =
    let rest =
      has_child_none self (suc base) ps
        λ i p at c. elim (h (suc i) p at c) [ inl e ↦ inl e | inr e ↦ inr (omega arith) ] in
    let here : (not (x.p_status == p_empty) && is_child self x && not (base == self)) ≡ false =
      elim (Bool-cases (is_child self x)) [
        | inr e ↦ rw e (ground arith)
        | inl e ↦ elim (h 0 x refl (is_child_eq self x e)) [
          | inl s ↦ ground arith
          | inr s ↦ ground arith
        ]
      ] in
    rw (here, rest) refl

-- A process that has no child is told so, and does not wait.
pub wait-no_child :
    (others : Others) (k : Kernel) (statloc : ℕ)
    → statloc ≤ k.udata_at
    → ((i : ℕ) (p : PTab)
        → get_elem? k.ptab i ≡ some p
        → p.p_pptr ≡ some k.udata.u_ptab
        → (p.p_status ≡ p_empty) ⊎ (i ≡ k.udata.u_ptab))
    → wait others statloc k ≡ ok minus_one (set_error echild k)
unfolding wait
wait-no_child others k statloc room alone =
    let a : ltb k.udata_at statloc ≡ false = ground arith in
    rw
      (
        a,
        has_child_none k.udata.u_ptab 0 k.ptab
            (λ i p at c. elim (alone i p at c) [ inl e ↦ inl e | inr e ↦ inr (omega arith) ]),
      )
      refl

-- ===== src/Calls/Attributes/Identity.antt =====
-- The identity of a process across `_access` of uzi-nes-port/kernel/scall1.c.
use uzi_build.Prelude.{
  ℕ, ◌≡◌, refl, inl, inr, List, ◌==◌, not, ◌&&◌, get_elem?, get_or, bit_and, Bool-cases,
  Option-cases,
}
use uzi_build.Kernel.{Kernel, Run, ok, panic, wild, left, then_run, modify, pure, ◌>>◌}
use uzi_build.Kernel.Returns.{WhenBack}
use uzi_build.Calls.Attributes.{put_ids, probe, access}

restored :
    (run : Run ℕ) (euid egid : ℕ)
    → WhenBack
        (then_run run (λ r. modify (put_ids euid egid) >> pure r))
        (λ r k'. (k'.udata.u_euid ≡ euid) × (k'.udata.u_egid ≡ egid))
restored (ok r k) euid egid = (refl, refl)
restored (panic p) euid egid = tt
restored wild euid egid = tt
restored (left k) euid egid = tt

-- Whenever `_access` comes back, whatever it answers, the process has the effective user and group that it had.
pub access_restores :
    (path : List ℕ) (mode : ℕ) (k : Kernel)
    → WhenBack
        (access path mode k)
        (λ r k'. (k'.udata.u_euid ≡ k.udata.u_euid) × (k'.udata.u_egid ≡ k.udata.u_egid))
unfolding access
access_restores path mode k =
    elim (Bool-cases (not (bit_and mode 7 == 0) && get_or path 0 0 == 0)) [
      | inl e ↦ rw e (refl, refl)
      | inr e ↦ elim (Option-cases (get_elem? k.ptab k.udata.u_ptab)) [
        | inl out ↦ rw (e, out) tt
        | inr (p, at) ↦
            rw (e, at)
              (restored (probe path mode (put_ids p.p_uid k.udata.u_gid k)) k.udata.u_euid
                k.udata.u_egid)
      ]
    ]

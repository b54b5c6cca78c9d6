-- ===== src/Signals/Handlers.antt =====
-- `_signal` of uzi-nes-port/kernel/scall2.c: the mask of ignored signals follows the handlers.
use uzi_build.Prelude.{
  ℕ, zero, suc, ◌-◌, ◌≤◌, ◌<◌, ◌≡◌, refl, ◌≢◌, ◌⊎◌, inl, inr, Bool, true, false, ◌&&◌, ◌||◌, List,
  arith, ◌==◌, not, ◌^◌, if◌then◌else◌, bit_and, bit_or, digit, digit-bit_or, digit-bit_and,
  digit_pow_self, digit_pow_ne, get_or, set, get_or-set_self, get_or-set_ne, length, sym, ltb, leb,
  signed_lt, Bool-cases, all_below, all_below-apply, ◌/◌,
}
use uzi_build.Kernel.{PTab}
use uzi_build.Signals.{nsigs, sigkill, sig_dfl, sig_ign, einval, sigmask, fails, returns, signal}

-- The digits of the complement of a mask.
complement_test : ℕ → ℕ → Bool
complement_test s i = digit (65535 - 2 ^ s) i == (if s == i then 0 else 1)

complement_table : all_below 16 (λ s. all_below 16 (complement_test s)) ≡ true
unfolding all_below complement_test
complement_table = refl

digit_complement : (s i : ℕ) → s < 16 → i < 16 → digit (65535 - 2 ^ s) i ≡ (if s == i then 0 else 1)
unfolding complement_test
digit_complement s i p q =
    let row = all_below-apply 16 (λ s. all_below 16 (complement_test s)) s complement_table p in
    let entry = all_below-apply 16 (complement_test s) i row q in ground (arith, entry)

digit-le_one : (x i : ℕ) → digit x i ≤ 1
digit-le_one x zero = omega arith
digit-le_one x (suc i) = digit-le_one (x / 2) i

-- An address that `_signal` takes for a handler.
abbrev pub Allowed : ℕ → ℕ → ℕ → Type 0
Allowed progbase udata_at func =
    (func ≡ sig_ign) ⊎ ((func ≡ sig_dfl) ⊎ ((progbase ≤ func) × (func < udata_at)))

-- For a signal from 1 to 15 other than SIGKILL and an address that is allowed, `_signal` returns the old
-- handler and installs the new one; afterwards the process ignores the signal exactly when the
-- new handler is SIG_IGN, and its treatment of every other signal below 16 is as it was.
pub signal_installs :
    (progbase udata_at : ℕ) (p : PTab) (sigvec : List ℕ) (sig func other : ℕ)
    → 0 < sig
    → sig < nsigs
    → sig ≢ sigkill
    → length sigvec ≡ nsigs
    → Allowed progbase udata_at func
    → other < nsigs
    → other ≢ sig
    → (p' : PTab) × (v : List ℕ) × (signal progbase udata_at p sigvec sig func
        ≡ returns (get_or sigvec sig 0) p' v)
      × (get_or v sig 0 ≡ func)
      × (get_or v other 0 ≡ get_or sigvec other 0)
      × (digit p'.p_ignored sig ≡ (if func == sig_ign then 1 else 0))
      × (digit p'.p_ignored other ≡ digit p.p_ignored other)
unfolding signal
signal_installs progbase udata_at p sigvec sig func other lo hi ne len allowed small apart =
    elim (Bool-cases (func == sig_ign)) [
      | inl ignore ↦ (
        record p { p_ignored = bit_or p.p_ignored (sigmask sig) },
        set sigvec sig func,
        rw (valid, ignore),
        get_or-set_self sigvec sig func 0 (omega arith),
        get_or-set_ne sigvec sig other func 0 (λ e. apart (sym e)),
        rw (digit-bit_or p.p_ignored (2 ^ sig) sig, digit_pow_self sig, ignore)
            (omega (arith, digit-le_one p.p_ignored sig)),
        rw (digit-bit_or p.p_ignored (2 ^ sig) other, digit_pow_ne sig other (λ e. apart (sym e)))
            (omega arith),
      )
      | inr heed ↦
          let inside : (not (func == sig_dfl) && (ltb func progbase || leb udata_at func)) ≡ false =
            ground arith in
          (
            record p { p_ignored = bit_and p.p_ignored (65535 - sigmask sig) },
            set sigvec sig func,
            rw (valid, heed, inside),
            get_or-set_self sigvec sig func 0 (omega arith),
            get_or-set_ne sigvec sig other func 0 (λ e. apart (sym e)),
            rw (digit-bit_and p.p_ignored (65535 - 2 ^ sig) sig, heed)
                (ground (arith, digit_complement sig sig hi hi)),
            rw (digit-bit_and p.p_ignored (65535 - 2 ^ sig) other) (
                ground
                  (arith, digit_complement sig other hi small, digit-le_one p.p_ignored other)),
          )
    ]
  where
    valid : (signed_lt sig 1 || sig == sigkill || not (signed_lt sig nsigs)) ≡ false
    valid = ground arith

-- For a 16-bit signal number that is 0, SIGKILL or at least 16, `_signal` fails with EINVAL,
-- whatever the handler.
pub signal_refuses :
    (progbase udata_at : ℕ) (p : PTab) (sigvec : List ℕ) (sig func : ℕ)
    → sig < 65536
    → (sig ≡ 0) ⊎ ((sig ≡ sigkill) ⊎ (nsigs ≤ sig))
    → signal progbase udata_at p sigvec sig func ≡ fails einval
unfolding signal
signal_refuses progbase udata_at p sigvec sig func small bad = ground arith

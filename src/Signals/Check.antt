-- ===== src/Signals/Check.antt =====
-- `chksigs` of uzi-nes-port/kernel/process.c. It is to take the caught signal out of `p_pending` and
-- writes `!sigmask(j)` for the complement of the mask.
use uzi_build.Prelude.{
  ℕ, zero, suc, ◌+◌, ◌≤◌, ◌<◌, ◌≡◌, refl, ◌≢◌, ◌⊎◌, inl, inr, true, false, List, arith, ◌==◌,
  if◌then◌else◌, bit_and, bit_and_none, get_or, ◌∙◌, Bool-cases,
}
use native.Mathlib.Decide.{dec_lt}
use uzi_build.Signals.{sig_dfl, sig_ign, sigmask, c_not, killed, goes_on, chksigs_from, chksigs}
use uzi_build.Signals.Send.{pow-pos}

-- A signal that the loop passes over: it is not pending, or ignored.
abbrev pub Passed : List ℕ → ℕ → ℕ → Type 0
Passed sigvec pending j = (bit_and (sigmask j) pending ≡ 0) ⊎ (get_or sigvec j 0 ≡ sig_ign)

nothing_pending :
    (n j : ℕ) (sigvec : List ℕ) (cursig : ℕ) → chksigs_from n j sigvec 0 cursig ≡ goes_on 0 cursig
unfolding chksigs_from
nothing_pending zero j sigvec cursig = refl
nothing_pending (suc n) j sigvec cursig =
    let clear : (bit_and (sigmask j) 0 == 0) ≡ true = rw (bit_and_none (sigmask j)) refl in
    rw clear (nothing_pending n (j + 1) sigvec cursig)

stopped :
    (n t : ℕ) (sigvec : List ℕ) (pending cursig : ℕ)
    → bit_and (sigmask t) pending ≢ 0
    → get_or sigvec t 0 ≢ sig_ign
    → chksigs_from (suc n) t sigvec pending cursig
      ≡ (if get_or sigvec t 0 == sig_dfl then killed t else goes_on 0 t)
unfolding chksigs_from
stopped n t sigvec pending cursig set caught =
    let mask : c_not (sigmask t) ≡ 0 = ground (arith, pow-pos t) in
    rw (mask, bit_and_none pending) (ground (arith, nothing_pending n (t + 1) sigvec t))

skipped :
    (n j : ℕ) (sigvec : List ℕ) (pending cursig : ℕ)
    → Passed sigvec pending j
    → chksigs_from (suc n) j sigvec pending cursig ≡ chksigs_from n (j + 1) sigvec pending cursig
unfolding chksigs_from
skipped n j sigvec pending cursig (inl clear) = rw clear
skipped n j sigvec pending cursig (inr ignored) = ground arith

-- The first signal that is not passed over decides.
pub chksigs_from-first :
    (n j t : ℕ) (sigvec : List ℕ) (pending cursig : ℕ)
    → j ≤ t
    → t < j + n
    → ((i : ℕ) → j ≤ i → i < t → Passed sigvec pending i)
    → bit_and (sigmask t) pending ≢ 0
    → get_or sigvec t 0 ≢ sig_ign
    → chksigs_from n j sigvec pending cursig
      ≡ (if get_or sigvec t 0 == sig_dfl then killed t else goes_on 0 t)
chksigs_from-first zero j t sigvec pending cursig p q pass set caught = absurd (omega arith)
chksigs_from-first (suc n) j t sigvec pending cursig p q pass set caught = elim (dec_lt j t) [
  | yes before ↦
      skipped n j sigvec pending cursig (pass j (omega arith) before)
      ∙ chksigs_from-first n (j + 1) t sigvec pending cursig (omega arith) (omega arith)
          (λ i a b. pass i (omega arith) b) set caught
  | no here ↦ let at : j ≡ t = omega arith in rw at (stopped n t sigvec pending cursig set caught)
]

-- A process with a pending signal from 1 to 15 that it does not ignore, where every lower pending signal
-- is ignored: if the signal has the default action the process ends by it; if it has a handler
-- `chksigs` notes the signal in `u_cursig` and leaves no signal pending at all, also none of the others
-- that were.
pub chksigs-first :
    (t : ℕ) (sigvec : List ℕ) (pending cursig : ℕ)
    → 1 ≤ t
    → t < 16
    → ((i : ℕ) → 1 ≤ i → i < t → Passed sigvec pending i)
    → bit_and (sigmask t) pending ≢ 0
    → get_or sigvec t 0 ≢ sig_ign
    → chksigs sigvec pending cursig
      ≡ (if get_or sigvec t 0 == sig_dfl then killed t else goes_on 0 t)
unfolding chksigs
chksigs-first t sigvec pending cursig p q pass set caught =
    let some_pending : (pending == 0) ≡ false = elim (Bool-cases (pending == 0)) [
      | inl e ↦
          let zero_is : pending ≡ 0 = ground arith in
          absurd (set (rw zero_is (bit_and_none (sigmask t))))
      | inr e ↦ e
    ] in
    rw some_pending
      (chksigs_from-first 15 1 t sigvec pending cursig p (omega arith) pass set caught)

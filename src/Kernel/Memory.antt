-- ===== src/Kernel/Memory.antt =====
-- The user's memory, as `bcopy` and assignments through a user's pointer read and write it, and `valadr` of
-- uzi-nes-port/kernel/machdep.c, which checks such a pointer.
use uzi_build.Prelude.{
  ℕ, zero, suc, ◌+◌, Bool, true, false, ◌||◌, List, [], ◌∷◌, ◌==◌, ltb, leb, if◌then◌else◌, add16,
  length, ◌≡◌, ◌≤◌, ◌<◌, refl, arith, ◌∙◌, ◌∙◌,
}
use uzi_build.Kernel.Types.{Kernel}
use uzi_build.Kernel.Monad.{M, ok, set_error}

-- `PROGBASE`
abbrev pub progbase : ℕ
progbase = 0x6000

abbrev pub efault : ℕ
efault = 14

-- `n` bytes from an address on.
pub fetch : (ℕ → ℕ) → ℕ → ℕ → List ℕ
fetch memory at zero = []
fetch memory at (suc n) = memory at ∷ fetch memory (add16 at 1) n

pub store : (ℕ → ℕ) → ℕ → List ℕ → ℕ → ℕ
store memory at [] = memory
store memory at (b ∷ bs) = store (λ a. if a == at then b else memory a) (add16 at 1) bs

abbrev pub put_bytes : ℕ → List ℕ → Kernel → Kernel
put_bytes at bytes k = record k { memory = store k.memory at bytes }

pub store-cons :
    (memory : ℕ → ℕ) (at b : ℕ) (bs : List ℕ)
    → store memory at (b ∷ bs) ≡ store (store memory at (b ∷ [])) (add16 at 1) bs
unfolding store
store-cons memory at b bs = refl

store_other :
    (memory : ℕ → ℕ) (at a : ℕ) (bs : List ℕ)
    → a < at
    → at + length bs ≤ 65536
    → store memory at bs a ≡ memory a
unfolding store
store_other memory at a [] before fits = refl
store_other memory at a (b ∷ []) before fits = let e : (a == at) ≡ false = ground arith in rw e refl
store_other memory at a (b ∷ c ∷ bs) before fits =
    let e : (a == at) ≡ false = ground arith in
    let next : add16 at 1 ≡ at + 1 = omega arith in
    rw next (
      store_other (λ x. if x == at then b else memory x) (at + 1) a (c ∷ bs) (omega arith)
        (omega arith)
      ∙ rw e refl)

-- What is stored is fetched again, within the memory.
cons_eq : {x y : ℕ} {xs ys : List ℕ} → x ≡ y → xs ≡ ys → x ∷ xs ≡ y ∷ ys
cons_eq p q = rw (p, q) refl

pub fetch-store :
    (memory : ℕ → ℕ) (at : ℕ) (bs : List ℕ)
    → at + length bs ≤ 65536
    → fetch (store memory at bs) at (length bs) ≡ bs
unfolding fetch store
fetch-store memory at [] fits = refl
fetch-store memory at (b ∷ []) fits = let e : (at == at) ≡ true = ground arith in rw e refl
fetch-store memory at (b ∷ c ∷ bs) fits =
    let e : (at == at) ≡ true = ground arith in
    let memory' = λ (x : ℕ). if x == at then b else memory x in
    let here : store memory' (add16 at 1) (c ∷ bs) at ≡ b =
      store_other memory' (add16 at 1) at (c ∷ bs) (omega arith) (omega arith) ∙ rw e refl in
    cons_eq here (fetch-store memory' (add16 at 1) (c ∷ bs) (omega arith))

-- `base + size` is an address, so it wraps.
pub valadr : ℕ → ℕ → M Bool
valadr base size k =
    if ltb base progbase || leb k.udata_at (add16 base size)
    then ok false (set_error efault k)
    else ok true k

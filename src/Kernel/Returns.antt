-- ===== src/Kernel/Returns.antt =====
-- Total correctness of a kernel routine of uzi-nes-port: it comes back, without a panic and without an
-- access outside a table, and what it returns and leaves behind satisfies a condition.
use uzi_build.Prelude.{◌≡◌}
use uzi_build.Kernel.Monad.{Run, ok, M, then_run}
use uzi_build.Kernel.Types.{Kernel}

pub record Returns {A : Type 0} (r : Run A) (P : A → Kernel → Type 0) : Type 0 where
  pub value : A
  pub state : Kernel
  pub result : r ≡ ok value state
  pub post : P value state

-- What holds if a routine comes back.
abbrev pub WhenBack : {A : Type 0} → Run A → (A → Kernel → Type 0) → Type 0
WhenBack (ok a k) P = P a k
WhenBack _ P = Unit {0}

module _ {A : Type 0} {P : A → Kernel → Type 0} where
  pub bind :
      {B : Type 0} {Q : B → Kernel → Type 0} {r : Run A} (f : A → M B)
      → Returns r P
      → ((a : A) (k : Kernel) → P a k → Returns (f a k) Q)
      → Returns (then_run r f) Q
  bind f first next =
      let rest = next first.value first.state first.post in
      record {
        value = rest.value;
        state = rest.state;
        result = rw (first.result, rest.result);
        post = rest.post;
      }

  pub weaken :
      {Q : A → Kernel → Type 0} {r : Run A}
      → Returns r P
      → ((a : A) (k : Kernel) → P a k → Q a k)
      → Returns r Q
  weaken first next = record {
    value = first.value;
    state = first.state;
    result = first.result;
    post = next first.value first.state first.post;
  }

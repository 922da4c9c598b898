-- ===== src/Ycsb/Build.antt =====
-- C++ code that returns, throws or fails an assertion, and draws from the random sources on its way.
pub mod Returned
use ltram_policy_bench.Prelude.{Option, none, some}

-- The end of a call.
pub data Made {ℓ} (A : Type ℓ) : Type ℓ where
  made : A → Made A
  thrown : Made A
  aborted : Made A

abbrev pub Build : Type 0 → Type 0 → Type 0
Build S A = S → Made (A × S)

module _ {S : Type 0} where
  abbrev pub pure : {A : Type 0} → A → Build S A
  pure a s = made (a, s)

  abbrev pub after : {A B : Type 0} → Made (A × S) → (A → Build S B) → Made (B × S)
  after (made (a, s)) f = f a s
  after thrown f = thrown
  after aborted f = aborted

  infixl 10 ◌>>=◌
  abbrev pub ◌>>=◌ : {A B : Type 0} → Build S A → (A → Build S B) → Build S B
  (m >>= f) s = after (m s) f

  -- `throw`, and an assertion that does not hold.
  abbrev pub throw : {A : Type 0} → Build S A
  throw s = thrown

  -- A conversion that throws, and a call with a failed assertion as `none`.
  abbrev pub or_throw : {A : Type 0} → Option A → Build S A
  or_throw none s = thrown
  or_throw (some a) s = made (a, s)

  abbrev pub or_abort : {A : Type 0} → Option (A × S) → Made (A × S)
  or_abort none = aborted
  or_abort (some r) = made r

  -- A draw that always returns.
  abbrev pub draw : {A : Type 0} → (S → A × S) → Build S A
  draw f s = made (f s)

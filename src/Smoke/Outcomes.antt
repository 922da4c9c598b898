-- ===== src/Smoke/Outcomes.antt =====
-- What a test of ltram_smoketest.c does to the kernel's state: it passes, it leaves by the `return
-- -EINVAL` of EXPECT, or it stores through a NULL pointer, which the kernel does not survive.
use ltram_policy_bench.Prelude.{Option, none, some, Bool, true, false}

pub data Outcome {ℓ} (A : Type ℓ) : Type ℓ where
  ok : A → Outcome A
  failed oops : Outcome A

-- The state comes back on every path: what was done before an early return stays done.
abbrev pub Act : Type 0 → Type 0 → Type 0
Act S A = S → Outcome A × S

module _ {S : Type 0} where
  abbrev pub pure : {A : Type 0} → A → Act S A
  pure a s = (ok a, s)

  abbrev pub continue : {A B : Type 0} → Outcome A → (A → Act S B) → Act S B
  continue (ok a) f s = f a s
  continue failed f s = (failed, s)
  continue oops f s = (oops, s)

  infixl 5 ◌>>=◌ ◌>>◌
  abbrev pub ◌>>=◌ : {A B : Type 0} → Act S A → (A → Act S B) → Act S B
  ◌>>=◌ m f s = let (r, s') = m s in continue r f s'

  abbrev pub ◌>>◌ : {B : Type 0} → Act S (Unit {0}) → Act S B → Act S B
  m >> n = m >>= λ _. n

  -- A call for its effect, and a call for its value.
  abbrev pub run : (S → S) → Act S (Unit {0})
  run f s = (ok tt, f s)

  abbrev pub get : {A : Type 0} → (S → A × S) → Act S A
  get f s = let (a, s') = f s in (ok a, s')

  -- EXPECT on a condition, and on a pointer.
  abbrev pub expect : Bool → Act S (Unit {0})
  expect true s = (ok tt, s)
  expect false s = (failed, s)

  abbrev pub expect_some : {A : Type 0} → Option A → Act S A
  expect_some none s = (failed, s)
  expect_some (some a) s = (ok a, s)

  -- A pointer that is used without a test.
  abbrev pub deref : {A : Type 0} → Option A → Act S A
  deref none s = (oops, s)
  deref (some a) s = (ok a, s)

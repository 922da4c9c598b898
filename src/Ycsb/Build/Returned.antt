-- ===== src/Ycsb/Build/Returned.antt =====
-- What follows when C++ code as in Ycsb/Build returns.
use ltram_policy_bench.Prelude.{◌≡◌, refl, Option, none, some, arith}
use ltram_policy_bench.Ycsb.Build.{Made, made, thrown, aborted, Build, after, or_throw}

-- A sequence that returns has a first part that returned.
pub after-made :
    {S A B : Type 0} (m : Made (A × S)) (f : A → Build S B) (x : B × S)
    → after m f ≡ made x
    → (a : A) × (s : S) × (m ≡ made (a, s)) × (f a s ≡ made x)
after-made (made (a, s)) f x h = (a, s, refl, h)
after-made thrown f x h = absurd (ground arith)
after-made aborted f x h = absurd (ground arith)

pub made-eq : {A S : Type 0} {p q : A × S} → made p ≡ made q → p.0 ≡ q.0
made-eq h = ground arith

pub or_throw-made :
    {S A B : Type 0} (o : Option A) (f : A → Build S B) (s : S) (x : B × S)
    → after (or_throw o s) f ≡ made x
    → (a : A) × (o ≡ some a) × (f a s ≡ made x)
or_throw-made none f s x h = absurd (ground arith)
or_throw-made (some a) f s x h = (a, refl, h)

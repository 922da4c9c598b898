-- ===== src/Ycsb/Generators/Virtual.antt =====
-- The generators of workloads/YCSB-C/core behind the virtual `Next` and `Last` of generator.h, with
-- const_generator.h, uniform_generator.h and skewed_latest_generator.h.
use ltram_policy_bench.Prelude.{ℕ, Option, none, some}
use ltram_policy_bench.Prelude.Words.{sub64}
use ltram_policy_bench.Ycsb.Env.{Env}
use ltram_policy_bench.Ycsb.Build.{Made, made, aborted, Build, pure, draw, or_abort, ◌>>=◌}
use ltram_policy_bench.Ycsb.Zipfian.{Zipfian, make, next}
use ltram_policy_bench.Ycsb.Generators.{
  Scrambled, scrambled_make, scrambled_next, scrambled_last, counter_last,
}

module _ (e : Env) where
  -- A uniform generator has its two bounds and its last number, a latest one its zipfian generator
  -- and its last number.
  pub data Generator : Type 0 where
    constant : ℕ → Generator
    uniform : ℕ → ℕ → ℕ → Generator
    zipfian : Zipfian e → Generator
    scrambled : Scrambled e → Generator
    latest : Zipfian e → ℕ → Generator

  abbrev pub stepped :
      {A : Type 0}
      → Option (ℕ × A × e.Source)
      → (ℕ → A → ℕ × Generator)
      → Made ((ℕ × Generator) × e.Source)
  stepped none f = aborted
  stepped (some (v, a, r)) f = made (f v a, r)

  -- `Next` of a latest generator, for the counter that it refers to.
  abbrev pub latest_next : ℕ → Zipfian e → Build e.Source (ℕ × Generator)
  latest_next basis z r =
      let max = counter_last basis in
      stepped (next e max z r) (λ v z'. (sub64 max v, latest z' (sub64 max v)))

  abbrev pub uniform_next : ℕ → ℕ → Build e.Source (ℕ × Generator)
  uniform_next lo hi r = let (v, r') = e.uniform_int lo hi r in made ((v, uniform lo hi v), r')

  -- `Next`. The first argument is the counter that a latest generator refers to.
  unfoldable pub gen_next : ℕ → Generator → Build e.Source (ℕ × Generator)
  gen_next basis (constant n) r = made ((n, constant n), r)
  gen_next basis (uniform lo hi last) r = uniform_next lo hi r
  gen_next basis (zipfian z) r = stepped (next e z.num_items z r) (λ v z'. (v, zipfian z'))
  gen_next basis (scrambled g) r = stepped (scrambled_next e g r) (λ v g'. (v, scrambled g'))
  gen_next basis (latest z last) r = latest_next basis z r

  -- `Last`
  unfoldable pub gen_last : Generator → ℕ
  gen_last (constant n) = n
  gen_last (uniform lo hi last) = last
  gen_last (zipfian z) = z.last_value
  gen_last (scrambled g) = scrambled_last e g
  gen_last (latest z last) = last

  -- The constructors; those of a uniform and of a latest generator draw once.
  unfoldable pub new_uniform : ℕ → ℕ → Build e.Source Generator
  new_uniform lo hi = do v ← draw (e.uniform_int lo hi); pure (uniform lo hi v)

  unfoldable pub new_zipfian : e.Double → ℕ → ℕ → Build e.Source Generator
  new_zipfian theta lo hi = do z ← (λ s. or_abort (make e lo hi theta s)); pure (zipfian z)

  unfoldable pub new_scrambled : e.Double → ℕ → Build e.Source Generator
  new_scrambled theta num_items = do
    g ← (λ s. or_abort (scrambled_make e 0 (sub64 num_items 1) theta s))
    pure (scrambled g)

  unfoldable pub new_latest : e.Double → ℕ → Build e.Source Generator
  new_latest theta basis = do
    z ← (λ s. or_abort (make e 0 (sub64 (counter_last basis) 1) theta s))
    p ← gen_next basis (latest z 0)
    pure p.1

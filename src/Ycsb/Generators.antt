-- ===== src/Ycsb/Generators.antt =====
-- workloads/YCSB-C/core/counter_generator.h, discrete_generator.h and scrambled_zipfian_generator.h.
-- An atomic operation, or a call under a mutex, is one step.
pub mod Bounds
pub mod Virtual
use ltram_policy_bench.Prelude.{ℕ, ◌+◌, ◌%◌, List, [], ◌∷◌, ◌++◌, Option, none, some, if◌then◌else◌}
use ltram_policy_bench.Prelude.Words.{add64, sub64}
use ltram_policy_bench.Ycsb.Env.{Env}
use ltram_policy_bench.Ycsb.Utils.{fnv_hash64}
use ltram_policy_bench.Ycsb.Zipfian.{Zipfian, make, next}

-- `CounterGenerator` is its counter.
unfoldable pub counter_next : ℕ → ℕ × ℕ
counter_next counter = (counter, add64 counter 1)

unfoldable pub counter_last : ℕ → ℕ
counter_last counter = sub64 counter 1

unfoldable pub scramble : ℕ → ℕ → ℕ → ℕ
scramble base num_items value = add64 base (fnv_hash64 value % num_items)

module _ (e : Env) where
  pub record Scrambled : Type 0 where
    pub base : ℕ
    pub num_items : ℕ
    pub generator : Zipfian e

  unfoldable pub scrambled_make : ℕ → ℕ → e.Double → e.Source → Option (Scrambled × e.Source)
  scrambled_make min max theta r = elim (make e min max theta r) [
    | none ↦ none
    | some (z, r') ↦
        some (record { base = min; num_items = add64 (sub64 max min) 1; generator = z }, r')
  ]

  unfoldable pub scrambled_next : Scrambled → e.Source → Option (ℕ × Scrambled × e.Source)
  scrambled_next g r = elim (next e g.generator.num_items g.generator r) [
    | none ↦ none
    | some (v, z, r') ↦ some (scramble g.base g.num_items v, record g { generator = z }, r')
  ]

  unfoldable pub scrambled_last : Scrambled → ℕ
  scrambled_last g = scramble g.base g.num_items g.generator.last_value

  pub record DiscreteGenerator {ℓ} (V : Type ℓ) : Type ℓ where
    pub values : List (V × e.Double)
    pub sum : e.Double

  unfoldable pub add_value {ℓ} :
      {V : Type ℓ} → V → e.Double → DiscreteGenerator V → DiscreteGenerator V
  add_value value weight d = record {
    values = d.values ++ ((value, weight) ∷ []);
    sum = e.add d.sum weight;
  }

  -- The loop of `Next`; `none` is the failed assertion after it.
  unfoldable pub choose {ℓ} : {V : Type ℓ} → e.Double → List (V × e.Double) → e.Double → Option V
  choose sum [] chooser = none
  choose sum ((value, weight) ∷ values) chooser =
      let rest = choose sum values (e.sub chooser (e.div weight sum)) in
      if e.lt chooser (e.div weight sum) then some value else rest

  unfoldable pub discrete_next {ℓ} :
      {V : Type ℓ} → DiscreteGenerator V → e.Source → Option V × e.Source
  discrete_next d r = let (u, r') = e.random_double r in (choose d.sum d.values u, r')

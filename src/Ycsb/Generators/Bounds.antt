-- ===== src/Ycsb/Generators/Bounds.antt =====
-- What the generators of workloads/YCSB-C/core can return.
use ltram_policy_bench.Prelude.{
  ℕ, ◌+◌, ◌%◌, ◌≤◌, ◌<◌, ◌≡◌, List, [], ◌∷◌, some, arith, inl, inr, Option-cases, Bool-cases, ◌⊎◌,
}
use ltram_policy_bench.Prelude.Words.{u64_mod}
use ltram_policy_bench.Ycsb.Env.{Env}
use ltram_policy_bench.Ycsb.Utils.{fnv_hash64}
use ltram_policy_bench.Ycsb.Zipfian.{Zipfian, next}
use ltram_policy_bench.Ycsb.Generators.{
  scramble, Scrambled, scrambled_next, scrambled_last, choose, DiscreteGenerator, discrete_next,
}

scramble_lem :
    (base num_items value : ℕ)
    → 0 < num_items
    → base + num_items ≤ u64_mod
    → (base ≤ scramble base num_items value) × (scramble base num_items value < base + num_items)
unfolding scramble
scramble_lem base num_items value h k =
    let below : fnv_hash64 value % num_items < num_items = omega arith in (omega arith, omega arith)

module _ (e : Env) where
  next_last :
      (num : ℕ) (z z' : Zipfian e) (r r' : e.Source) (v : ℕ)
      → next e num z r ≡ some (v, z', r')
      → z'.last_value ≡ v
  unfolding next
  next_last num z z' r r' v h = ground arith

  -- Whatever the zipfian generator under it returns, a scrambled generator over a range that fits
  -- into 64 bits returns a number of that range, and its `Last` is the number that it returned.
  pub scrambled_next_lem :
      (g g' : Scrambled e) (r r' : e.Source) (v : ℕ)
      → 0 < g.num_items
      → g.base + g.num_items ≤ u64_mod
      → scrambled_next e g r ≡ some (v, g', r')
      → (g.base ≤ v) × (v < g.base + g.num_items) × (scrambled_last e g' ≡ v)
  unfolding scrambled_next scrambled_last
  scrambled_next_lem g g' r r' v h k s =
      elim (Option-cases (next e g.generator.num_items g.generator r)) [
        | inl f ↦ absurd (ground arith)
        | inr ((w, z, r₁), f) ↦
            let kept = next_last g.generator.num_items g.generator z r r₁ w f in
            ground (arith, kept, scramble_lem g.base g.num_items w h k)
      ]

  -- The value is one of a list of weighted values.
  abbrev pub IsAmong : {V : Type 0} → V → List (V × e.Double) → Type 0
  IsAmong v [] = ⊥
  IsAmong v ((w, weight) ∷ values) = (v ≡ w) ⊎ IsAmong v values

  choose-IsAmong :
      {V : Type 0} (sum : e.Double) (values : List (V × e.Double)) (u : e.Double) (v : V)
      → choose e sum values u ≡ some v
      → IsAmong v values
  unfolding choose
  choose-IsAmong sum [] u v h = absurd (ground arith)
  choose-IsAmong sum ((w, weight) ∷ values) u v h = elim (Bool-cases (e.lt u (e.div weight sum))) [
    | inl b ↦ inl (ground arith)
    | inr b ↦ inr (choose-IsAmong sum values (e.sub u (e.div weight sum)) v (ground arith))
  ]

  -- When `Next` returns, its value is one that was added.
  pub discrete_next-IsAmong :
      {V : Type 0} (d : DiscreteGenerator e V) (r : e.Source) (v : V)
      → (discrete_next e d r).0 ≡ some v
      → IsAmong v d.values
  unfolding discrete_next
  discrete_next-IsAmong d r v h = choose-IsAmong d.sum d.values (e.random_double r).0 v h

-- ===== src/Ycsb/Env.antt =====
-- What the generators of workloads/YCSB-C/core take from the C++ library: `double` with its
-- operations, and the random sources. No law of floating-point arithmetic is assumed.
use ltram_policy_bench.Prelude.{ℕ, Bool}

pub record Env : Type 1 where
  pub Double : Type 0
  -- The conversions from and to `uint64_t`.
  pub of_u64 : ℕ → Double
  pub to_u64 : Double → ℕ
  pub add : Double → Double → Double
  pub sub : Double → Double → Double
  pub mul : Double → Double → Double
  pub div : Double → Double → Double
  pub pow : Double → Double → Double
  pub lt : Double → Double → Bool
  pub half : Double
  -- All engines and distributions together.
  pub Source : Type 0
  -- utils::RandomDouble()
  pub random_double : Source → Double × Source
  -- A uniform_int_distribution with its bounds, drawn from the engine of its generator.
  pub uniform_int : ℕ → ℕ → Source → ℕ × Source
  -- rand()
  pub rand : Source → ℕ × Source

-- ===== src/Ycsb/Workload/Draws.antt =====
-- The draws of workloads/YCSB-C/core/core_workload.{h,cc}: `Next` of the generators that `Init` chose.
-- A draw ends by a failed assertion where its generator's `Next` does.
pub mod Steady
use ltram_policy_bench.Prelude.{ℕ, none, some}
use ltram_policy_bench.Ycsb.Env.{Env}
use ltram_policy_bench.Ycsb.Build.{Made, Build, or_abort, pure, ◌>>=◌}
use ltram_policy_bench.Ycsb.Properties.{Properties}
use ltram_policy_bench.Ycsb.Generators.{DiscreteGenerator, discrete_next}
use ltram_policy_bench.Ycsb.Generators.Virtual.{Generator, gen_next}
use ltram_policy_bench.Ycsb.Workload.{Operation}
use ltram_policy_bench.Ycsb.Workload.Init.{Reader, Choices}

module _ (e : Env) where
  -- `NextOperation`
  unfoldable pub next_operation : DiscreteGenerator e Operation → Build e.Source Operation
  next_operation op_chooser r =
      let (op, r') = discrete_next e op_chooser r in
      elim op [ none ↦ Made.aborted | some o ↦ Made.made (o, r') ]

  module _ (rd : Reader e) (ps : Properties) where
    -- The first argument is the counter that a latest generator refers to, `insert_key_sequence_`.
    -- One round of the loop of `NextTransactionKey`:
    unfoldable pub next_key : ℕ → Choices e rd ps → Build e.Source (ℕ × Choices e rd ps)
    next_key sequence k = do
      p ← gen_next e sequence k.key_chooser
      pure (p.0, record k { key_chooser = p.1 })

    -- The number in `NextFieldName`
    unfoldable pub next_field : ℕ → Choices e rd ps → Build e.Source (ℕ × Choices e rd ps)
    next_field sequence k = do
      p ← gen_next e sequence k.field_chooser
      pure (p.0, record k { field_chooser = p.1 })

    -- `NextScanLength`
    unfoldable pub next_scan_length : ℕ → Choices e rd ps → Build e.Source (ℕ × Choices e rd ps)
    next_scan_length sequence k = do
      p ← gen_next e sequence k.scan_len_chooser
      pure (p.0, record k { scan_len_chooser = p.1 })

    -- The length in `BuildValues` and `BuildUpdate`
    unfoldable pub next_field_len : ℕ → Choices e rd ps → Build e.Source (ℕ × Choices e rd ps)
    next_field_len sequence k = do
      p ← gen_next e sequence k.field_len
      pure (p.0, record k { field_len = p.1 })

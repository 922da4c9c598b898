-- ===== src/Ycsb/Workload/Draws/Steady.antt =====
-- A workload of workloads/YCSB-C/core/core_workload.{h,cc} whose generators are uniform or constant:
-- no draw of a number fails, and a client can draw from it.
use ltram_policy_bench.Prelude.{ℕ, ◌≡◌, refl, some, arith}
use ltram_policy_bench.Ycsb.Env.{Env}
use ltram_policy_bench.Ycsb.Build.{Made, made}
use ltram_policy_bench.Ycsb.Properties.{Properties}
use ltram_policy_bench.Ycsb.Generators.{DiscreteGenerator, discrete_next}
use ltram_policy_bench.Ycsb.Generators.Virtual.{Generator, constant, uniform, gen_next}
use ltram_policy_bench.Ycsb.Workload.{Operation, Choosers}
use ltram_policy_bench.Ycsb.Workload.Init.{Reader, Choices}
use ltram_policy_bench.Ycsb.Workload.Draws.{
  next_operation, next_key, next_field, next_scan_length, next_field_len,
}

-- A generator that is constant, or uniform with its bounds and its last number.
pub data Steady : Type 0 where
  fixed : ℕ → Steady
  spread : ℕ → ℕ → ℕ → Steady

module _ (e : Env) where
  abbrev pub generator_of : Steady → Generator e
  generator_of (fixed n) = constant n
  generator_of (spread lo hi last) = uniform lo hi last

  abbrev pub steady_next : Steady → e.Source → ℕ × Steady × e.Source
  steady_next (fixed n) r = (n, fixed n, r)
  steady_next (spread lo hi last) r = let (v, r') = e.uniform_int lo hi r in (v, spread lo hi v, r')

  pub gen_next-steady :
      (sequence : ℕ) (g : Steady) (r : e.Source)
      → let (v, g', r') = steady_next g r in
        gen_next e sequence (generator_of g) r ≡ made ((v, generator_of g'), r')
  unfolding gen_next
  gen_next-steady sequence (fixed n) r = refl
  gen_next-steady sequence (spread lo hi last) r = refl

  -- The weighted choice of operations never falls through: for whatever random_double draws, one of
  -- its weights is reached.
  abbrev pub IsCovered : DiscreteGenerator e Operation → Type 0
  IsCovered d = (r : e.Source) → (op : Operation) × ((discrete_next e d r).0 ≡ some op)

  -- The keys are drawn from 0 to a bound; the others from any steady generator.
  pub record Live : Type 0 where
    pub key_last : ℕ
    pub field_chooser : Steady
    pub scan_len_chooser : Steady
    pub field_len : Steady
    pub source : e.Source

  module _ (key_hi : ℕ) (op_chooser : DiscreteGenerator e Operation)
      (covered : IsCovered op_chooser) where
    -- What a client draws from.
    abbrev pub live : Choosers
    live = record {
      State = Live;
      next_operation = λ s.
          ((covered s.source).0, record s { source = (discrete_next e op_chooser s.source).1 });
      next_key = λ s.
          let (v, r) = e.uniform_int 0 key_hi s.source in
          (v, record s { key_last = v; source = r });
      next_field = λ s.
          let (v, g, r) = steady_next s.field_chooser s.source in
          (v, record s { field_chooser = g; source = r });
      next_scan_length = λ s.
          let (v, g, r) = steady_next s.scan_len_chooser s.source in
          (v, record s { scan_len_chooser = g; source = r });
      next_field_len = λ s.
          let (v, g, r) = steady_next s.field_len s.source in
          (v, record s { field_len = g; source = r });
      rand = λ s. let (v, r) = e.rand s.source in (v, record s { source = r });
    }

    module _ (rd : Reader e) (ps : Properties) where
      abbrev pub choices_of : Live → Choices e rd ps
      choices_of s = record {
        field_len = generator_of s.field_len;
        key_chooser = uniform 0 key_hi s.key_last;
        field_chooser = generator_of s.field_chooser;
        scan_len_chooser = generator_of s.scan_len_chooser;
      }

      -- The draw of the workload, with the choices that the client's state stands for.
      abbrev pub as_made : (ℕ × Live) → Made ((ℕ × Choices e rd ps) × e.Source)
      as_made (v, s) = made ((v, choices_of s), s.source)

      -- Each draw of the client is the draw of the workload.
      abbrev pub DrawsAlike : Type 0
      DrawsAlike =
          (sequence : ℕ) (s : Live)
          → (next_operation e op_chooser s.source
              ≡ made ((live.next_operation s).0, (live.next_operation s).1.source))
            × (next_key e rd ps sequence (choices_of s) s.source ≡ as_made (live.next_key s))
            × (next_field e rd ps sequence (choices_of s) s.source ≡ as_made (live.next_field s))
            × (next_scan_length e rd ps sequence (choices_of s) s.source
                ≡ as_made (live.next_scan_length s))
            × (next_field_len e rd ps sequence (choices_of s) s.source
                ≡ as_made (live.next_field_len s))

      pub draws-live : DrawsAlike
      unfolding next_operation next_key next_field next_scan_length next_field_len gen_next
      draws-live sequence s = (
        ground (arith, (covered s.source).1),
        refl,
        rw (gen_next-steady sequence s.field_chooser s.source) refl,
        rw (gen_next-steady sequence s.scan_len_chooser s.source) refl,
        rw (gen_next-steady sequence s.field_len s.source) refl,
      )

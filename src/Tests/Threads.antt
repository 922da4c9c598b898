-- ===== src/Tests/Threads.antt =====
-- Two threads of workloads/YCSB-C/ycsbc.cc that load three records.
use ltram_policy_bench.Prelude.{ℕ, ◌≡◌, refl, List, [], ◌∷◌}
use ltram_policy_bench.Prelude.Int.{pos}
use ltram_policy_bench.Ycsb.Generators.{counter_next}
use ltram_policy_bench.Ycsb.Threads.{ops_each, Loader, launch, launched, draw, Reach, here, next}

abbrev loader : ℕ → List ℕ → Loader
loader left drawn = record { left = left; drawn = drawn }

-- The third record is not loaded.
started :
    launched 5 (pos 3) (pos 2) ≡ record { counter = 5; threads = loader 1 [] ∷ loader 1 [] ∷ [] }
unfolding ops_each launch
started = refl

-- The second thread comes first.
second_first :
    Reach
      (launched 5 (pos 3) (pos 2))
      (record { counter = 7; threads = loader 0 (6 ∷ []) ∷ loader 0 (5 ∷ []) ∷ [] })
unfolding ops_each launch counter_next
second_first =
    next (next here (draw (loader 1 [] ∷ []) [] 5 0 [])) (draw [] (loader 0 (5 ∷ []) ∷ []) 6 0 [])

-- ===== src/Ycsb/Threads.antt =====
-- `main` of workloads/YCSB-C/ycsbc.cc: the client threads, which share one workload. Loading draws a
-- key number by one atomic `fetch_add` of workloads/YCSB-C/core/counter_generator.h for each record.
pub mod Keys
use ltram_policy_bench.Prelude.{ℕ, zero, suc, ◌+◌, ◌/◌, List, [], ◌∷◌, ◌++◌, replicate}
use ltram_policy_bench.Prelude.Int.{ℤ, rounds}
use ltram_policy_bench.Ycsb.Generators.{counter_next}

-- The operations of each thread: `total_ops / num_threads`, where a count below zero runs no loop.
unfoldable pub ops_each : ℤ → ℤ → ℕ
ops_each total_ops num_threads = rounds total_ops / rounds num_threads

-- `DelegateClient` while it loads: the rounds that are left, and the key numbers that it drew, the
-- last one first.
pub record Loader : Type 0 where
  pub left : ℕ
  pub drawn : List ℕ

-- The counter of the workload's `key_generator_`, and the threads.
pub record Loading : Type 0 where
  pub counter : ℕ
  pub threads : List Loader

-- The loop that starts the threads.
unfoldable pub launch : ℕ → ℕ → List Loader
launch zero num_ops = []
launch (suc n) num_ops = record { left = num_ops; drawn = [] } ∷ launch n num_ops

abbrev pub launched : ℕ → ℤ → ℤ → Loading
launched start total_ops num_threads = record {
  counter = start;
  threads = launch (rounds num_threads) (ops_each total_ops num_threads);
}

-- One thread draws a key number for its next record.
pub data Step : Loading → Loading → Type 0 where
  draw :
      (before after : List Loader) (counter left : ℕ) (drawn : List ℕ)
      → Step
          (record {
            counter = counter;
            threads = before ++ record { left = suc left; drawn = drawn } ∷ after;
          })
          (record {
            counter = (counter_next counter).1;
            threads =
                before ++ record { left = left; drawn = (counter_next counter).0 ∷ drawn } ∷ after;
          })

pub data Reach (s : Loading) : Loading → Type 0 where
  here : Reach s s
  next : {t u : Loading} → Reach s t → Step t u → Reach s u

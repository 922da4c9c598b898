-- ===== src/Ycsb/Main/Run.antt =====
-- `main` of workloads/YCSB-C/ycsbc.cc from its threads on: the threads that load the records, those
-- that make the transactions, and the two lines that it prints.
pub mod Idle
use ltram_policy_bench.Prelude.{ℕ, ◌≡◌, [], Bool, true, false, Option, none, some}
use ltram_policy_bench.Prelude.Int.{ℤ}
use ltram_policy_bench.Ycsb.Text.{Bytes}
use ltram_policy_bench.Ycsb.Env.{Env}
use ltram_policy_bench.Ycsb.Properties.{Properties, at, int_at}
use ltram_policy_bench.Ycsb.CommandLine.{dbname}
use ltram_policy_bench.Ycsb.Timer.{Clock}
use ltram_policy_bench.Ycsb.Timer
use ltram_policy_bench.Ycsb.Workload.{Choosers, Settings}
use ltram_policy_bench.Ycsb.Workload.Names.{operation_count_property}
use ltram_policy_bench.Ycsb.Workload.Init.{Reader}
use ltram_policy_bench.Ycsb.Client.{Db, World}
use ltram_policy_bench.Ycsb.Clients.{callers_of, sum_oks, Sys, Reach, AllDone}

module _ (e : Env) where
  -- The number after `# Loading records:`, and the parts of the last line.
  pub record Report : Type 0 where
    pub loaded : ℕ
    pub db_name : Bytes
    pub file_name : Bytes
    pub num_threads : ℤ
    pub ktps : e.Double

  -- Where the number of operations is not set or not a number, an exception is not caught: only the first line
  -- has been printed, with the number of records.
  pub data Output : Type 0 where
    uncaught : (loaded : ℕ) → Output
    finished : Report → Output

module _ (e : Env) (rd : Reader e) where
  -- `total_ops / duration / 1000`
  unfoldable pub ktps_of : ℤ → e.Double → e.Double
  ktps_of total_ops duration = e.div (e.div (rd.of_int total_ops) duration) (e.of_u64 1000)

  module _ (clock : Clock e) (d : Db) (c : Choosers) (fuel : ℕ) (w : Settings) (ps : Properties)
      (file_name : Bytes) (num_threads total_ops : ℤ) where
    -- A run of the threads: what they share when they start, what is printed, and what they share at
    -- the end. The clock is read when the transactions start, in the state k, and after them, in k'. The name of the
    -- database is set, since there would be no database without it.
    pub data Runs (s : World d c) : Output e → World d c → Type 0 where
      stopped :
          (t : Sys d c)
          → Reach d c true fuel w
              (record { world = s; callers = callers_of total_ops num_threads })
              t
          → AllDone t.callers
          → int_at rd.stoi operation_count_property ps ≡ none
          → Runs s (uncaught (sum_oks t.callers)) t.world
      completed :
          (t u : Sys d c) (operations : ℤ) (name : Bytes) (k k' : clock.State)
          → Reach d c true fuel w
              (record { world = s; callers = callers_of total_ops num_threads })
              t
          → AllDone t.callers
          → int_at rd.stoi operation_count_property ps ≡ some operations
          → Reach d c false fuel w
              (record { world = t.world; callers = callers_of operations num_threads })
              u
          → AllDone u.callers
          → at dbname ps ≡ some name
          → Runs s
              (finished (record {
                loaded = sum_oks t.callers;
                db_name = name;
                file_name = file_name;
                num_threads = num_threads;
                ktps = ktps_of operations (Timer.stop e clock (Timer.start e clock k).0 k').0;
              }))
              u.world

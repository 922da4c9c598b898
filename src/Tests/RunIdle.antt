-- ===== src/Tests/RunIdle.antt =====
-- A run of workloads/YCSB-C/ycsbc.cc with two threads and one operation.
use ltram_policy_bench.Prelude.{ℕ, ◌<◌, ◌≡◌, refl, [], ◌∷◌, true, some, arith}
use ltram_policy_bench.Prelude.Int.{pos, rounds}
use ltram_policy_bench.Ycsb.Text.{str_eq}
use ltram_policy_bench.Ycsb.Properties.{Properties, at, int_at}
use ltram_policy_bench.Ycsb.StringHashtable.{find_pair}
use ltram_policy_bench.Ycsb.Workload.Names.{operation_count_property}
use ltram_policy_bench.Ycsb.CommandLine.{dbname}
use ltram_policy_bench.Ycsb.Timer
use ltram_policy_bench.Ycsb.Timer.{Clock}
use ltram_policy_bench.Ycsb.Threads.{ops_each}
use ltram_policy_bench.Ycsb.Client.Loaded.{hashtable_db}
use ltram_policy_bench.Ycsb.Clients.{callers_of, call_threads, sum_oks, Reach, here, AllDone}
use ltram_policy_bench.Ycsb.Main.Run.{Report, finished, ktps_of, Runs, completed}
use ltram_policy_bench.Ycsb.Main.Run.Idle.{Runs-idle}
use ltram_policy_bench.Tests.Client.{turns}
use ltram_policy_bench.Tests.Init.{reader}
use ltram_policy_bench.Tests.Loaded.{F, K}
use ltram_policy_bench.Tests.Zipfian.{whole}
use ltram_policy_bench.Tests.Run.{
  two, wl, Threads, at_first, all_loaded, after_loading, clock, loading,
}

-- One operation for two threads.
abbrev one_operation : Properties
one_operation = (dbname, two) ∷ (operation_count_property, b'1' ∷ []) ∷ []

abbrev in_vain : Report whole
in_vain = record {
  loaded = sum_oks after_loading.callers;
  db_name = two;
  file_name = two;
  num_threads = pos 2;
  ktps = ktps_of whole reader (pos 1) (Timer.stop whole clock (Timer.start whole clock 0).0 7).0;
}

one_known : int_at reader.stoi operation_count_property one_operation ≡ some (pos 1)
unfolding int_at at find_pair str_eq
one_known = refl

run_in_vain :
    Runs whole reader clock
      (hashtable_db F K)
      turns
      9
      wl.settings
      one_operation
      two
      (pos 2)
      (pos 2)
      at_first
      (finished in_vain)
      all_loaded
unfolding int_at at find_pair str_eq call_threads ops_each
run_in_vain =
    completed after_loading (record { world = all_loaded; callers = callers_of (pos 1) (pos 2) })
      (pos 1) two 0 7 loading (refl, refl, (refl, refl, tt)) one_known here
      (refl, refl, (refl, refl, tt)) refl

no_operation_each : rounds (pos 1) < rounds (pos 2)
no_operation_each = omega arith

Runs-idle_example :
    (t : Threads) × Reach
      (hashtable_db F K)
      turns
      true
      9
      wl.settings
      (record { world = at_first; callers = callers_of (pos 2) (pos 2) })
      t
    × AllDone t.callers
    × (all_loaded ≡ t.world)
    × (k k' : ℕ) × (in_vain.ktps
        ≡ ktps_of whole reader (pos 1) (Timer.stop whole clock (Timer.start whole clock k).0 k').0)
Runs-idle_example =
    Runs-idle whole reader clock (hashtable_db F K) turns 9 wl.settings one_operation two (pos 2)
      (pos 2) (pos 1) at_first all_loaded in_vain run_in_vain one_known no_operation_each

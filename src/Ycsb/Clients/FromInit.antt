-- ===== src/Ycsb/Clients/FromInit.antt =====
-- The threads of workloads/YCSB-C/ycsbc.cc over a workload that `Init` of core/core_workload.cc has set
-- up.
use ltram_policy_bench.Prelude.{◌*◌, ◌≤◌, ◌≡◌, ◌⊎◌, false}
use ltram_policy_bench.Prelude.Int.{ℤ, rounds}
use ltram_policy_bench.Prelude.Words.{sub64}
use ltram_policy_bench.Ycsb.Env.{Env}
use ltram_policy_bench.Ycsb.Build.{made}
use ltram_policy_bench.Ycsb.Properties.{Properties}
use ltram_policy_bench.Ycsb.Workload.Init.{Reader, Core, init}
use ltram_policy_bench.Ycsb.Workload.Init.Ready.{IsBetween}
use ltram_policy_bench.Ycsb.Workload.Draws.Steady.{IsCovered, live}
use ltram_policy_bench.Ycsb.Client.{Db, World}
use ltram_policy_bench.Ycsb.Client.FromInit.{live-IsReached}
use ltram_policy_bench.Ycsb.Clients.{callers_of, Sys, Reach, AllDone}
use ltram_policy_bench.Ycsb.Clients.Progress.{CanStep, transact-CanStart}
use ltram_policy_bench.Ycsb.Clients.Ends.{steps, Reach-steps}

-- Threads make their transactions, over any database, on a workload with the bound of the transaction
-- keys that `Init` left, and draw their keys uniformly below its record count; the uniform
-- distribution of the C++ library keeps to its bounds, and the weighted choice of operations never
-- falls through. Then every interleaving takes at most three steps for each operation that was asked
-- for; and while a thread has not made all of its calls, some thread can take a step, with one round
-- of the loop that draws a key.
pub init-ends :
    (e : Env) (rd : Reader e) (ps : Properties) (r r' : e.Source) (c : Core e rd ps) (d : Db)
    (covered : IsCovered e c.op_chooser) (operations num_threads : ℤ)
    (s : World d (live e (sub64 c.record_count 1) c.op_chooser covered))
    (t : Sys d (live e (sub64 c.record_count 1) c.op_chooser covered))
    (p : Reach d
      (live e (sub64 c.record_count 1) c.op_chooser covered)
      false
      1
      c.settings
      (record { world = s; callers = callers_of operations num_threads })
      t)
    → IsBetween e rd ps
    → init e rd ps r ≡ made (c, r')
    → s.workload.insert_key_sequence ≡ c.insert_key_sequence
    → let draws = live e (sub64 c.record_count 1) c.op_chooser covered in
      (steps d draws false 1 c.settings p ≤ 3 * rounds operations)
      × (AllDone t.callers ⊎ CanStep d draws false 1 c.settings t)
init-ends e rd ps r r' c d covered operations num_threads s t p between h same =
    let draws = live e (sub64 c.record_count 1) c.op_chooser covered in
    let within = live-IsReached e rd ps r r' c d covered between h in
    let can = transact-CanStart d draws 1 c.settings c.insert_key_sequence within in
    Reach-steps d draws false 1 c.settings operations num_threads s t p (rw same can)

-- ===== src/Ycsb/Main/Run/Idle.antt =====
-- The threads of workloads/YCSB-C/ycsbc.cc where there are more of them than operations.
use native.Mathlib.Nat.{div-eq_of_lt}
use ltram_policy_bench.Prelude.{ℕ, ◌<◌, ◌≡◌, refl, ap, true, false, some, arith}
use ltram_policy_bench.Prelude.Int.{ℤ, rounds}
use ltram_policy_bench.Ycsb.Text.{Bytes}
use ltram_policy_bench.Ycsb.Env.{Env}
use ltram_policy_bench.Ycsb.Properties.{Properties, int_at}
use ltram_policy_bench.Ycsb.Timer
use ltram_policy_bench.Ycsb.Timer.{Clock}
use ltram_policy_bench.Ycsb.Threads.{ops_each}
use ltram_policy_bench.Ycsb.Workload.{Choosers, Settings}
use ltram_policy_bench.Ycsb.Workload.Names.{operation_count_property}
use ltram_policy_bench.Ycsb.Workload.Init.{Reader}
use ltram_policy_bench.Ycsb.Client.{Db, World}
use ltram_policy_bench.Ycsb.Clients.{callers_of, Sys, Reach, here, next, AllDone}
use ltram_policy_bench.Ycsb.Clients.Sum.{total, total-call_threads}
use ltram_policy_bench.Ycsb.Clients.Ends.{work, Step-work}
use ltram_policy_bench.Ycsb.Main.Run.{Report, finished, ktps_of, Runs, completed}

module _ (d : Db) (c : Choosers) (fuel : ℕ) (w : Settings) where
  -- Threads that have nothing left stay where they are.
  Reach-idle : {s t : Sys d c} → Reach d c false fuel w s t → total work s.callers ≡ 0 → t ≡ s
  Reach-idle here none_left = refl
  Reach-idle {s} (next p step) none_left =
      let still = ap (λ x. total work x.callers) (Reach-idle p none_left) in
      absurd (omega (arith, Step-work d c false fuel w step, still, none_left))

  ops_each-zero :
      (operations num_threads : ℤ)
      → rounds operations < rounds num_threads
      → ops_each operations num_threads ≡ 0
  unfolding ops_each
  ops_each-zero operations num_threads h = div-eq_of_lt h

  callers-idle :
      (operations num_threads : ℤ) (s : World d c) {t : Sys d c}
      → rounds operations < rounds num_threads
      → Reach d c false fuel w (record { world = s; callers = callers_of operations num_threads }) t
      → t.world ≡ s
  callers-idle operations num_threads s few p =
      let each = ops_each operations num_threads in
      let zero_each = ops_each-zero operations num_threads few in
      let sum = total-call_threads work (rounds num_threads) each 0 (omega (arith, zero_each)) in
      ap (λ x. x.world) (Reach-idle p (omega (arith, sum)))

module _ (e : Env) (rd : Reader e) (clock : Clock e) (d : Db) (c : Choosers) (fuel : ℕ)
    (w : Settings) (ps : Properties) where
  -- Where a program prints its last line and there were fewer operations than threads, no thread made
  -- a transaction: the database and the workload are as the loading left them. The throughput that
  -- it prints is still that of all of the operations, in the time between two readings of the clock.
  pub Runs-idle :
      (file_name : Bytes) (num_threads total_ops operations : ℤ) (s u : World d c)
      (report : Report e)
      → Runs e rd clock d c fuel w ps file_name num_threads total_ops s (finished report) u
      → int_at rd.stoi operation_count_property ps ≡ some operations
      → rounds operations < rounds num_threads
      → (t : Sys d c) × Reach d c true fuel w
          (record { world = s; callers = callers_of total_ops num_threads })
          t
        × AllDone t.callers
        × (u ≡ t.world)
        × (k k' : clock.State) × (report.ktps
            ≡ ktps_of e rd operations (Timer.stop e clock (Timer.start e clock k).0 k').0)
  Runs-idle file_name num_threads total_ops operations s u report
        (completed t u' operations' name k k' loads done known' runs done' named) known few =
      let same : operations' ≡ operations = ground (arith, known, known') in
      let few' : rounds operations' < rounds num_threads = rw same few in
      let duration = (Timer.stop e clock (Timer.start e clock k).0 k').0 in
      (
        t,
        loads,
        done,
        callers-idle d c fuel w operations' num_threads t.world few' runs,
        k,
        k',
        ap (λ o. ktps_of e rd o duration) same,
      )

-- ===== src/Ycsb/Clients/Read.antt =====
-- The threads of workloads/YCSB-C/ycsbc.cc that share the database of
-- workloads/YCSB-C/db/hashtable_db.cc: what they load is there for the transactions.
use ltram_policy_bench.Prelude.{
  ℕ, ◌+◌, ◌*◌, ◌<◌, ◌≡◌, refl, List, [], ◌∷◌, true, false, Option, arith, inl, inr, Option-cases,
}
use ltram_policy_bench.Prelude.Int.{ℤ, rounds}
use ltram_policy_bench.Prelude.Words.{u64_mod}
use ltram_policy_bench.Ycsb.Text.{Bytes}
use ltram_policy_bench.Ycsb.Db.{ok, KvPair}
use ltram_policy_bench.Ycsb.StringHashtable.{StringHashtable}
use ltram_policy_bench.Ycsb.HashtableDb
use ltram_policy_bench.Ycsb.HashtableDb.{key_index}
use ltram_policy_bench.Ycsb.HashtableDb.Records.{exists}
use ltram_policy_bench.Ycsb.Threads.{ops_each}
use ltram_policy_bench.Ycsb.Workload.{Choosers, Settings, build_key_name}
use ltram_policy_bench.Ycsb.Client.{World}
use ltram_policy_bench.Ycsb.Client.Loaded.{hashtable_db}
use ltram_policy_bench.Ycsb.Clients.{Caller, callers_of, Sys, Reach, AllDone}
use ltram_policy_bench.Ycsb.Clients.Sum.{total, total-call_threads, ops_each-few}
use ltram_policy_bench.Ycsb.Clients.Puts.{Puts-AllDone}
use ltram_policy_bench.Ycsb.Clients.Kept.{Reach-Kept}
use ltram_policy_bench.Ycsb.Clients.Loading.{IsLoading, Reach-IsLoading, name, index, left}

module _ (F : StringHashtable Bytes) (K : StringHashtable F.Table) (c : Choosers) (fuel : ℕ)
    (w : Settings) where
  abbrev Shared : Type 0
  Shared = World (hashtable_db F K) c

  total-AllDone : (xs : List Caller) → AllDone xs → total (left F K c fuel w) xs ≡ 0
  total-AllDone [] done = refl
  total-AllDone (x ∷ xs) (h, e, done) = omega (arith, h, total-AllDone xs done)

  -- The threads of `main` load a hash-table database and then make their transactions, in any
  -- interleaving of their calls of the database, each of which is one step, and whatever the database
  -- held before; no transaction starts before the loading has
  -- ended, and the counter of keys does not wrap around while loading. Then, at every moment of the
  -- transactions, a read of any of the keys that the threads were to load returns kOK, whichever
  -- fields are asked for: each thread's share of the records, once for each thread.
  pub clients_read :
      (s : Shared) (total_ops operations num_threads : ℤ) (i : ℕ) {t u : Sys (hashtable_db F K) c}
      (fields : Option (List Bytes)) (result : List KvPair)
      → s.workload.key_generator + rounds total_ops < u64_mod
      → Reach
          (hashtable_db F K)
          c
          true
          fuel
          w
          (record { world = s; callers = callers_of total_ops num_threads })
          t
      → AllDone t.callers
      → Reach
          (hashtable_db F K)
          c
          false
          fuel
          w
          (record { world = t.world; callers = callers_of operations num_threads })
          u
      → i < rounds num_threads * ops_each total_ops num_threads
      → let key = build_key_name w (s.workload.key_generator + i) in
        (HashtableDb.read F K w.table_name key fields result u.world.db).0 ≡ ok
  unfolding HashtableDb.read
  clients_read s total_ops operations num_threads i {t} {u} fields result fits loads done runs
        below =
      let first = s.workload.key_generator in
      let n = rounds num_threads in
      let each = ops_each total_ops num_threads in
      let all = n * each in
      let few = ops_each-few total_ops num_threads in
      let start_loading : IsLoading F K c fuel w first all
          (record { world = s; callers = callers_of total_ops num_threads }) =
        record {
          balance = omega (arith, total-call_threads (left F K c fuel w) n each each refl);
          drawn = λ j low high. absurd (omega (arith, low, high));
        } in
      let loaded =
        Reach-IsLoading F K c fuel w first all (omega (arith, fits, few)) loads start_loading in
      let over = total-AllDone t.callers done in
      let key = index F K c fuel w (first + i) in
      let there : exists F K t.world.db key ≡ true =
        elim (loaded.drawn (first + i) (omega arith) (omega (arith, loaded.balance, over, below))) [
          | inl there ↦ there
          | inr puts ↦ absurd (Puts-AllDone (name F K c fuel w (first + i)) t.callers done puts)
        ] in
      let still = Reach-Kept F K c fuel w false key runs there in
      elim (Option-cases (K.get key u.world.db)) [
        | inl e ↦ absurd (ground arith)
        | inr (ft, e) ↦ ground arith
      ]

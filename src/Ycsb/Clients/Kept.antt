-- ===== src/Ycsb/Clients/Kept.antt =====
-- What one step of a thread of workloads/YCSB-C/ycsbc.cc keeps of the database of
-- workloads/YCSB-C/db/hashtable_db.cc, and of the counter of keys.
use ltram_policy_bench.Prelude.{ℕ, ◌≡◌, [], Bool, arith}
use ltram_policy_bench.Prelude.Int.{rounds}
use ltram_policy_bench.Ycsb.Text.{Bytes}
use ltram_policy_bench.Ycsb.StringHashtable.{StringHashtable}
use ltram_policy_bench.Ycsb.HashtableDb.Records.{insert_lem}
use ltram_policy_bench.Ycsb.Workload.{
  Choosers, Settings, Workload, build_values, build_update, next_field_name, next_value,
}
use ltram_policy_bench.Ycsb.Client.{
  World, asked_fields, new_values, transaction_read, transaction_update, transaction_scan,
}
use ltram_policy_bench.Ycsb.Client.Loaded.{hashtable_db, value_loop-key}
use ltram_policy_bench.Ycsb.Client.Kept.{Kept, read-Kept, scan-Kept, update-Kept}
use ltram_policy_bench.Ycsb.Clients.{
  Call, putting, reading, updating, scanning, modifying, writing, run, Sys, Step, Reach, here, next,
  starts, ends, continues,
}

module _ (F : StringHashtable Bytes) (K : StringHashtable F.Table) (c : Choosers) (fuel : ℕ)
    (w : Settings) where
  abbrev Shared : Type 0
  Shared = World (hashtable_db F K) c

  pub run-Kept :
      (q : Bytes) (call : Call) (s : Shared) → Kept F K c q s (run (hashtable_db F K) c w call s).1
  unfolding run
  run-Kept q (putting key) s h =
      let values = (build_values c w s.workload).0 in
      ground (arith, (insert_lem F K w.table_name key values s.db q []).1)
  run-Kept q (reading key) s h = read-Kept F K c q w key s h
  run-Kept q (updating key) s h = update-Kept F K c q w key s h
  run-Kept q (scanning key) s h = scan-Kept F K c q w key s h
  run-Kept q (modifying key) s h = read-Kept F K c q w key s h
  run-Kept q (writing key) s h = update-Kept F K c q w key s h

  Step-Kept :
      (loading : Bool) (q : Bytes) {s t : Sys (hashtable_db F K) c}
      → Step (hashtable_db F K) c loading fuel w s t
      → Kept F K c q s.world t.world
  Step-Kept loading q (starts before after left oks s call wl h) there = there
  Step-Kept loading q (ends before after left oks s s' call done h) there =
      let same : (run (hashtable_db F K) c w call s).1 ≡ s' = ground arith in
      rw (← same) (run-Kept q call s there)
  Step-Kept loading q (continues before after left oks s s' call later h) there =
      let same : (run (hashtable_db F K) c w call s).1 ≡ s' = ground arith in
      rw (← same) (run-Kept q call s there)

  pub Reach-Kept :
      (loading : Bool) (q : Bytes) {s t : Sys (hashtable_db F K) c}
      → Reach (hashtable_db F K) c loading fuel w s t
      → Kept F K c q s.world t.world
  Reach-Kept loading q here there = there
  Reach-Kept loading q (next p step) there = Step-Kept loading q step (Reach-Kept loading q p there)

  asked-key :
      (s : Workload c) → (asked_fields (hashtable_db F K) c w s).1.key_generator ≡ s.key_generator
  unfolding asked_fields next_field_name
  asked-key s = ground arith

  values-key :
      (s : Workload c) → (new_values (hashtable_db F K) c w s).1.key_generator ≡ s.key_generator
  unfolding new_values build_values build_update next_field_name next_value
  values-key s = ground (arith, value_loop-key F K c w (rounds w.field_count) 0 s)

  pub run-key :
      (call : Call) (s : Shared)
      → (run (hashtable_db F K) c w call s).1.workload.key_generator ≡ s.workload.key_generator
  unfolding run build_values transaction_read transaction_update transaction_scan
  run-key (putting key) s = value_loop-key F K c w (rounds w.field_count) 0 s.workload
  run-key (reading key) s = asked-key s.workload
  run-key (updating key) s = values-key s.workload
  run-key (scanning key) s =
      asked-key (record s.workload { choosers = (c.next_scan_length s.workload.choosers).1 })
  run-key (modifying key) s = asked-key s.workload
  run-key (writing key) s = values-key s.workload

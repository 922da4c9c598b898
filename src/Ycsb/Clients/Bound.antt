-- ===== src/Ycsb/Clients/Bound.antt =====
-- The threads of workloads/YCSB-C/ycsbc.cc leave the bound of the transaction keys as it is.
use ltram_policy_bench.Prelude.{ℕ, ◌≡◌, ◌∙◌, refl, Bool, true, false, some, arith}
use ltram_policy_bench.Ycsb.Text.{Bytes}
use ltram_policy_bench.Ycsb.Workload.{
  Operation, Choosers, Settings, Workload, next_sequence_key, next_transaction_key,
}
use ltram_policy_bench.Ycsb.Client.{Db, World}
use ltram_policy_bench.Ycsb.Client.Counters.{
  build_values-Taken, read-Taken, update-Taken, scan-Taken,
}
use ltram_policy_bench.Ycsb.Clients.{
  Call, putting, reading, updating, scanning, modifying, writing, start, run, with_key, begin, Sys,
  Step, Reach, here, next, starts, ends, continues,
}

module _ (d : Db) (c : Choosers) (loading : Bool) (fuel : ℕ) (w : Settings) where
  abbrev pub bound : World d c → ℕ
  bound s = s.workload.insert_key_sequence

  run-bound : (call : Call) (s : World d c) → bound (run d c w call s).1 ≡ bound s
  unfolding run
  run-bound (putting key) s = (build_values-Taken c w s.workload).bound
  run-bound (reading key) s = (read-Taken d c w key s).bound
  run-bound (updating key) s = (update-Taken d c w key s).bound
  run-bound (scanning key) s = (scan-Taken d c w key s).bound
  run-bound (modifying key) s = (read-Taken d c w key s).bound
  run-bound (writing key) s = (update-Taken d c w key s).bound

  with_key-bound :
      (call : Bytes → Call) (s wl : Workload c) (later : Call)
      → with_key d c call (next_transaction_key c fuel w s) ≡ some (later, wl)
      → wl.insert_key_sequence ≡ s.insert_key_sequence
  unfolding next_transaction_key
  with_key-bound call s wl later h = ground arith

  begin-bound :
      (o : Operation) (s wl : Workload c) (call : Call)
      → begin d c fuel w o s ≡ some (call, wl)
      → wl.insert_key_sequence ≡ s.insert_key_sequence
  unfolding next_sequence_key
  begin-bound Operation.read s wl call h = with_key-bound reading s wl call h
  begin-bound Operation.update s wl call h = with_key-bound updating s wl call h
  begin-bound Operation.insert s wl call h = ground arith
  begin-bound Operation.scan s wl call h = with_key-bound scanning s wl call h
  begin-bound Operation.read_modify_write s wl call h = with_key-bound modifying s wl call h

  start-bound :
      (b : Bool) (s wl : Workload c) (call : Call)
      → start d c b fuel w s ≡ some (call, wl)
      → wl.insert_key_sequence ≡ s.insert_key_sequence
  unfolding start next_sequence_key
  start-bound true s wl call h = ground arith
  start-bound false s wl call h =
      let (o, choosers) = c.next_operation s.choosers in
      begin-bound o (record s { choosers = choosers }) wl call h

  Step-bound : {s t : Sys d c} → Step d c loading fuel w s t → bound t.world ≡ bound s.world
  Step-bound (starts before after left oks s call wl h) = start-bound loading s.workload wl call h
  Step-bound (ends before after left oks s s' call done h) =
      let same : (run d c w call s).1 ≡ s' = ground arith in rw (← same) (run-bound call s)
  Step-bound (continues before after left oks s s' call later h) =
      let same : (run d c w call s).1 ≡ s' = ground arith in rw (← same) (run-bound call s)

  pub Reach-bound : {s t : Sys d c} → Reach d c loading fuel w s t → bound t.world ≡ bound s.world
  Reach-bound here = refl
  Reach-bound (next p step) = Step-bound step ∙ Reach-bound p

-- ===== src/Ycsb/Client.antt =====
-- workloads/YCSB-C/core/client.h, and the loop of `DelegateClient` in workloads/YCSB-C/ycsbc.cc. The
-- database is reached through the virtual methods of workloads/YCSB-C/core/db.h, an interface.
pub mod Asked
pub mod Counters
pub mod Returns
pub mod Loaded
pub mod Kept
pub mod FromInit
use ltram_policy_bench.Prelude.{
  ℕ, zero, suc, ◌+◌, List, [], ◌∷◌, ◌++◌, Bool, true, false, Option, none, some, if◌then◌else◌,
}
use ltram_policy_bench.Prelude.Int.{ℤ, to_int, rounds}
use ltram_policy_bench.Ycsb.Text.{Bytes}
use ltram_policy_bench.Ycsb.Db.{DbCode, ok, no_data, conflict, KvPair}
use ltram_policy_bench.Ycsb.Workload.{
  Operation, Choosers, Settings, Workload, field, next_sequence_key, next_transaction_key,
  next_field_name, build_values, build_update,
}

pub record Db : Type 1 where
  pub State : Type 0
  pub read : Bytes → Bytes → Option (List Bytes) → State → DbCode × List KvPair × State
  pub scan : Bytes → Bytes → ℤ → Option (List Bytes) → State → DbCode × List (List KvPair) × State
  pub update : Bytes → Bytes → List KvPair → State → DbCode × State
  pub insert : Bytes → Bytes → List KvPair → State → DbCode × State

module _ (d : Db) (c : Choosers) where
  pub record World : Type 0 where
    pub db : d.State
    pub workload : Workload c

  -- The list of fields to read: one of them after `field`, or all of them.
  unfoldable pub asked_fields : Settings → Workload c → Option (List Bytes) × Workload c
  asked_fields w s =
      if w.read_all_fields
      then (none, s)
      else (let (name, s') = next_field_name c s in (some ((field ++ name) ∷ []), s'))

  unfoldable pub new_values : Settings → Workload c → List KvPair × Workload c
  new_values w s = if w.write_all_fields then build_values c w s else build_update c s

  -- The transactions on the key that was drawn, with the workload after the draw.
  unfoldable pub transaction_read : Settings → Bytes → World → DbCode × World
  transaction_read w key s =
      let (fields, wl) = asked_fields w s.workload in
      let (code, result, db) = d.read w.table_name key fields s.db in
      (code, record { db = db; workload = wl })

  unfoldable pub transaction_read_modify_write : Settings → Bytes → World → DbCode × World
  transaction_read_modify_write w key s =
      let (fields, wl) = asked_fields w s.workload in
      let (ignored, result, db) = d.read w.table_name key fields s.db in
      let (values, wl') = new_values w wl in
      let (code, db') = d.update w.table_name key values db in
      (code, record { db = db'; workload = wl' })

  unfoldable pub transaction_scan : Settings → Bytes → World → DbCode × World
  transaction_scan w key s =
      let (len, choosers) = c.next_scan_length s.workload.choosers in
      let (fields, wl) = asked_fields w (record s.workload { choosers = choosers }) in
      let (code, result, db) = d.scan w.table_name key (to_int len) fields s.db in
      (code, record { db = db; workload = wl })

  unfoldable pub transaction_update : Settings → Bytes → World → DbCode × World
  transaction_update w key s =
      let (values, wl) = new_values w s.workload in
      let (code, db) = d.update w.table_name key values s.db in
      (code, record { db = db; workload = wl })

  -- `TransactionInsert`, which is also what `DoInsert` does.
  unfoldable pub transaction_insert : Settings → World → DbCode × World
  transaction_insert w s =
      let (key, wl) = next_sequence_key c w s.workload in
      let (values, wl') = build_values c w wl in
      let (code, db) = d.insert w.table_name key values s.db in
      (code, record { db = db; workload = wl' })

  -- `status == DB::kOK`
  abbrev pub is_ok : DbCode → Bool
  is_ok ok = true
  is_ok _ = false

  unfoldable pub do_insert : Settings → World → Bool × World
  do_insert w s = let (code, s') = transaction_insert w s in (is_ok code, s')

  -- A transaction on an existing key draws the key first; `none` says that the fuel was not enough.
  unfoldable pub on_key :
      ℕ → Settings → (Bytes → World → DbCode × World) → World → Option (Bool × World)
  on_key fuel w transaction s = elim (next_transaction_key c fuel w s.workload) [
    | none ↦ none
    | some (key, wl) ↦
        let (code, s') = transaction key (record s { workload = wl }) in some (is_ok code, s')
  ]

  unfoldable pub perform : ℕ → Settings → Operation → World → Option (Bool × World)
  perform fuel w Operation.read s = on_key fuel w (transaction_read w) s
  perform fuel w Operation.update s = on_key fuel w (transaction_update w) s
  perform fuel w Operation.insert s = some (do_insert w s)
  perform fuel w Operation.scan s = on_key fuel w (transaction_scan w) s
  perform fuel w Operation.read_modify_write s = on_key fuel w (transaction_read_modify_write w) s

  unfoldable pub do_transaction : ℕ → Settings → World → Option (Operation × Bool × World)
  do_transaction fuel w s =
      let (operation, choosers) = c.next_operation s.workload.choosers in
      elim (perform fuel w operation
        (record s { workload = record s.workload { choosers = choosers } })) [
          | none ↦ none
          | some (done, s') ↦ some (operation, done, s')
        ]

  -- The two loops of `DelegateClient`, with the number of calls that returned true.
  unfoldable pub load : ℕ → Settings → World → ℕ × World
  load zero w s = (0, s)
  load (suc n) w s =
      let (done, s') = do_insert w s in
      let (oks, s'') = load n w s' in ((if done then 1 else 0) + oks, s'')

  unfoldable pub transact : ℕ → ℕ → Settings → World → Option (List Operation × ℕ × World)
  transact zero fuel w s = some ([], 0, s)
  transact (suc n) fuel w s = elim (do_transaction fuel w s) [
    | none ↦ none
    | some (operation, done, s') ↦ elim (transact n fuel w s') [
      | none ↦ none
      | some (operations, oks, s'') ↦
          some (operation ∷ operations, (if done then 1 else 0) + oks, s'')
    ]
  ]

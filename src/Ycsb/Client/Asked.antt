-- ===== src/Ycsb/Client/Asked.antt =====
-- Which field workloads/YCSB-C/core/client.h reads from the records that it inserts.
use ltram_policy_bench.Prelude.{
  ℕ, zero, suc, ◌+◌, ◌≡◌, refl, List, [], ◌∷◌, ◌++◌, Bool, true, false, Option, none, arith,
  if◌then◌else◌,
}
use ltram_policy_bench.Prelude.Int.{rounds}
use ltram_policy_bench.Ycsb.Text.{Bytes, str_eq_iff, c_str}
use ltram_policy_bench.Ycsb.Db.{ok, KvPair}
use ltram_policy_bench.Ycsb.StringHashtable.{StringHashtable, is_some}
use ltram_policy_bench.Ycsb.HashtableDb
use ltram_policy_bench.Ycsb.HashtableDb.{copy_string, key_index, read_record, read_fields}
use ltram_policy_bench.Ycsb.HashtableDb.Fields.{first, accepted, with_field}
use ltram_policy_bench.Ycsb.HashtableDb.Records.{field_at, insert_lem}
use ltram_policy_bench.Ycsb.Utils.{to_string}
use ltram_policy_bench.Ycsb.Workload.{
  Choosers, Settings, Workload, field, next_field_name, next_value, value_loop, build_values,
}
use ltram_policy_bench.Ycsb.Workload.Fields.{Misses, doubled-apart}
use ltram_policy_bench.Ycsb.Client.{Db, asked_fields}

first-Misses : (f : Bytes) (values : List KvPair) → Misses f values → first f values ≡ none
unfolding first
first-Misses f [] h = refl
first-Misses f ((k, v) ∷ values) h = ground (arith, first-Misses f values h.1)

either-Misses :
    (f : Bytes) (b : Bool) (xs ys : List KvPair)
    → Misses f xs
    → Misses f ys
    → Misses f (if b then xs else ys)
either-Misses f true xs ys h k = h
either-Misses f false xs ys h k = k

accepted-Misses :
    (f : Bytes) (values : List KvPair) (old : Bytes → Option Bytes)
    → Misses f values
    → Misses f (accepted values old)
unfolding accepted
accepted-Misses f [] old h = tt
accepted-Misses f ((k, v) ∷ values) old h =
    let old' = with_field (c_str k) (copy_string v) old in
    either-Misses f (is_some (old (c_str k))) [] ((k, v) ∷ accepted values old') tt
      (h.0, accepted-Misses f values old' h.1)

module _ (c : Choosers) where
  value_loop-Misses :
      (n i m : ℕ) (s : Workload c)
      → Misses (c_str (field ++ (field ++ to_string m))) (value_loop c n i s).0
  unfolding value_loop
  value_loop-Misses zero i m s = tt
  value_loop-Misses (suc n) i m s =
      (doubled-apart i m, value_loop-Misses n (i + 1) m (next_value c s).1)

-- A client that does not read all fields asks for a field that no record has: where there was no
-- record, a record is inserted, whatever its values, and then read as the client reads, the read
-- returns kOK and no field at all.
pub asked_fields-missing :
    (d : Db) (c : Choosers) (F : StringHashtable Bytes) (K : StringHashtable F.Table)
    → (w : Settings) (s t : Workload c) (key : Bytes) (result : List KvPair) (db : K.Table)
    → w.read_all_fields ≡ false
    → K.get (key_index w.table_name key) db ≡ none
    → let db' = (HashtableDb.insert F K w.table_name key (build_values c w s).0 db).1 in
      HashtableDb.read F K w.table_name key (asked_fields d c w t).0 result db' ≡ (ok, [])
unfolding HashtableDb.read read_record read_fields asked_fields next_field_name build_values
asked_fields-missing d c F K w s t key result db one fresh =
    let index = key_index w.table_name key in
    let values = (value_loop c (rounds w.field_count) 0 s).0 in
    let (n, choosers) = c.next_field t.choosers in
    let f = c_str (field ++ (field ++ to_string n)) in
    let taken = accepted values (field_at F K db index) in
    let none_taken : first f taken ≡ none = first-Misses f taken (
      accepted-Misses f values (field_at F K db index)
        (value_loop-Misses c (rounds w.field_count) 0 n s)) in
    let after = insert_lem F K w.table_name key values db index f in
    ground (arith, after.1, after.2, none_taken, str_eq_iff index index)

-- ===== src/Ycsb/Client/Loaded.antt =====
-- A client of workloads/YCSB-C/core/client.h that loads the database of
-- workloads/YCSB-C/db/hashtable_db.cc.
use ltram_policy_bench.Prelude.{ℕ, zero, suc, ◌+◌, ◌<◌, ◌≡◌, refl, [], true, arith, if◌then◌else◌}
use ltram_policy_bench.Prelude.Int.{rounds}
use ltram_policy_bench.Prelude.Words.{u64_mod}
use ltram_policy_bench.Ycsb.Text.{Bytes, str_eq, str_eq_iff}
use ltram_policy_bench.Ycsb.StringHashtable.{StringHashtable}
use ltram_policy_bench.Ycsb.HashtableDb
use ltram_policy_bench.Ycsb.HashtableDb.{key_index}
use ltram_policy_bench.Ycsb.HashtableDb.Records.{exists, insert_lem}
use ltram_policy_bench.Ycsb.Generators.{counter_next}
use ltram_policy_bench.Ycsb.Workload.{
  Choosers, Settings, Workload, build_key_name, build_values, next_sequence_key, next_value,
  value_loop,
}
use ltram_policy_bench.Ycsb.Client.{Db, World, transaction_insert, do_insert, load}

module _ (F : StringHashtable Bytes) (K : StringHashtable F.Table) where
  -- The virtual methods of the database; a client passes in an empty result.
  abbrev pub hashtable_db : Db
  hashtable_db = record {
    State = K.Table;
    read = λ table key fields db.
        let (code, result) = HashtableDb.read F K table key fields [] db in (code, result, db);
    scan = λ table key len fields db.
        let (code, result) = HashtableDb.scan F K table key len fields db in (code, result, db);
    update = HashtableDb.update F K;
    insert = HashtableDb.insert F K;
  }

  module _ (c : Choosers) (w : Settings) where
    pub value_loop-key :
        (n i : ℕ) (s : Workload c) → (value_loop c n i s).1.key_generator ≡ s.key_generator
    unfolding value_loop next_value
    value_loop-key zero i s = refl
    value_loop-key (suc n) i s = value_loop-key n (i + 1) (next_value c s).1

    do_insert-key :
        (s : World hashtable_db c)
        → s.workload.key_generator + 1 < u64_mod
        → (do_insert hashtable_db c w s).1.workload.key_generator ≡ s.workload.key_generator + 1
    unfolding do_insert transaction_insert next_sequence_key counter_next build_values
    do_insert-key s h =
        let wl = (next_sequence_key c w s.workload).1 in
        omega (arith, value_loop-key (rounds w.field_count) 0 wl)

    abbrev key_of : Workload c → Bytes
    key_of s = key_index w.table_name (build_key_name w s.key_generator)

    -- One insertion: its key is there afterwards, and so is what was there before.
    pub do_insert_exists :
        (s : World hashtable_db c) (q : Bytes)
        → exists F K (do_insert hashtable_db c w s).1.db q
          ≡ (if str_eq (key_of s.workload) q then true else exists F K s.db q)
    unfolding do_insert transaction_insert next_sequence_key counter_next
    do_insert_exists s q =
        let (key, wl) = next_sequence_key c w s.workload in
        let values = (build_values c w wl).0 in (insert_lem F K w.table_name key values s.db q []).1

    load-kept :
        (n : ℕ) (s : World hashtable_db c) (q : Bytes)
        → exists F K s.db q ≡ true
        → exists F K (load hashtable_db c n w s).1.db q ≡ true
    unfolding load
    load-kept zero s q h = h
    load-kept (suc n) s q h =
        load-kept n (do_insert hashtable_db c w s).1 q (ground (arith, do_insert_exists s q))

    pub loaded-exists :
        (n i : ℕ) (s : World hashtable_db c)
        → i < n
        → s.workload.key_generator + n < u64_mod
        → let key = build_key_name w (s.workload.key_generator + i) in
          exists F K (load hashtable_db c n w s).1.db (key_index w.table_name key) ≡ true
    unfolding load
    loaded-exists zero i s below fits = absurd (omega arith)
    loaded-exists (suc n) zero s below fits =
        let s' = (do_insert hashtable_db c w s).1 in
        let q = key_of s.workload in
        let same : s.workload.key_generator + 0 ≡ s.workload.key_generator = omega arith in
        rw same (load-kept n s' q (ground (arith, do_insert_exists s q, str_eq_iff q q)))
    loaded-exists (suc n) (suc i) s below fits =
        let s' = (do_insert hashtable_db c w s).1 in
        let one = do_insert-key s (omega (arith, fits)) in
        let same : s.workload.key_generator + suc i ≡ s'.workload.key_generator + i =
          omega (arith, one) in
        rw same (loaded-exists n i s' (omega (arith, below)) (omega (arith, fits, one)))

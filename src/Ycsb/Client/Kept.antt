-- ===== src/Ycsb/Client/Kept.antt =====
-- Clients of workloads/YCSB-C/core/client.h that load the database of
-- workloads/YCSB-C/db/hashtable_db.cc, and then call it.
use ltram_policy_bench.Prelude.{
  ℕ, zero, suc, ◌+◌, ◌<◌, ◌≡◌, List, [], Bool, true, Option, some, arith, inl, inr, Option-cases,
}
use ltram_policy_bench.Prelude.Words.{u64_mod}
use ltram_policy_bench.Ycsb.Text.{Bytes}
use ltram_policy_bench.Ycsb.Db.{DbCode, ok, KvPair}
use ltram_policy_bench.Ycsb.StringHashtable.{StringHashtable}
use ltram_policy_bench.Ycsb.HashtableDb
use ltram_policy_bench.Ycsb.HashtableDb.{key_index}
use ltram_policy_bench.Ycsb.HashtableDb.Records.{exists, update_lem}
use ltram_policy_bench.Ycsb.Workload.{
  Operation, Choosers, Settings, build_key_name, next_transaction_key,
}
use ltram_policy_bench.Ycsb.Client.{
  World, asked_fields, new_values, transaction_read, transaction_read_modify_write,
  transaction_scan, transaction_update, do_insert, on_key, perform, do_transaction, load, transact,
}
use ltram_policy_bench.Ycsb.Client.Loaded.{hashtable_db, do_insert_exists, loaded-exists}

module _ (F : StringHashtable Bytes) (K : StringHashtable F.Table) (c : Choosers) (q : Bytes) where
  abbrev pub State : Type 0
  State = World (hashtable_db F K) c

  -- The record at the index q, if it is there, stays.
  abbrev pub Kept : State → State → Type 0
  Kept s s' = exists F K s.db q ≡ true → exists F K s'.db q ≡ true

  pub read-Kept :
      (w : Settings) (key : Bytes) (s : State)
      → Kept s (transaction_read (hashtable_db F K) c w key s).1
  unfolding transaction_read
  read-Kept w key s h = h

  pub scan-Kept :
      (w : Settings) (key : Bytes) (s : State)
      → Kept s (transaction_scan (hashtable_db F K) c w key s).1
  unfolding transaction_scan
  scan-Kept w key s h = h

  pub update-Kept :
      (w : Settings) (key : Bytes) (s : State)
      → Kept s (transaction_update (hashtable_db F K) c w key s).1
  unfolding transaction_update
  update-Kept w key s h =
      let values = (new_values (hashtable_db F K) c w s.workload).0 in
      ground (arith, (update_lem F K w.table_name key values s.db q []).1)

  modify-Kept :
      (w : Settings) (key : Bytes) (s : State)
      → Kept s (transaction_read_modify_write (hashtable_db F K) c w key s).1
  unfolding transaction_read_modify_write
  modify-Kept w key s h =
      let wl = (asked_fields (hashtable_db F K) c w s.workload).1 in
      let values = (new_values (hashtable_db F K) c w wl).0 in
      ground (arith, (update_lem F K w.table_name key values s.db q []).1)

  insert-Kept : (w : Settings) (s : State) → Kept s (do_insert (hashtable_db F K) c w s).1
  insert-Kept w s h = ground (arith, do_insert_exists F K c w s q)

  on_key-Kept :
      (fuel : ℕ) (w : Settings) (t : Bytes → State → DbCode × State) (s s' : State) (done : Bool)
      → ((key : Bytes) (u : State) → Kept u (t key u).1)
      → on_key (hashtable_db F K) c fuel w t s ≡ some (done, s')
      → Kept s s'
  unfolding on_key
  on_key-Kept fuel w t s s' done each h there =
      elim (Option-cases (next_transaction_key c fuel w s.workload)) [
        | inl e ↦ absurd (ground arith)
        | inr ((key, wl), e) ↦
            let u : State = record s { workload = wl } in
            let same : (t key u).1 ≡ s' = ground arith in rw (← same) (each key u there)
      ]

  perform-Kept :
      (fuel : ℕ) (w : Settings) (o : Operation) (s s' : State) (done : Bool)
      → perform (hashtable_db F K) c fuel w o s ≡ some (done, s')
      → Kept s s'
  unfolding perform
  perform-Kept fuel w Operation.read s s' done h =
      on_key-Kept fuel w (transaction_read (hashtable_db F K) c w) s s' done (read-Kept w) h
  perform-Kept fuel w Operation.update s s' done h =
      on_key-Kept fuel w (transaction_update (hashtable_db F K) c w) s s' done (update-Kept w) h
  perform-Kept fuel w Operation.insert s s' done h =
      let same : (do_insert (hashtable_db F K) c w s).1 ≡ s' = ground arith in
      rw (← same) (insert-Kept w s)
  perform-Kept fuel w Operation.scan s s' done h =
      on_key-Kept fuel w (transaction_scan (hashtable_db F K) c w) s s' done (scan-Kept w) h
  perform-Kept fuel w Operation.read_modify_write s s' done h =
      on_key-Kept fuel w (transaction_read_modify_write (hashtable_db F K) c w) s s' done
        (modify-Kept w) h

  do_transaction-Kept :
      (fuel : ℕ) (w : Settings) (s s' : State) (o : Operation) (done : Bool)
      → do_transaction (hashtable_db F K) c fuel w s ≡ some (o, done, s')
      → Kept s s'
  unfolding do_transaction
  do_transaction-Kept fuel w s s' o done h there =
      let (o', choosers) = c.next_operation s.workload.choosers in
      let t : State = record s { workload = record s.workload { choosers = choosers } } in
      elim (Option-cases (perform (hashtable_db F K) c fuel w o' t)) [
        | inl e ↦ absurd (ground arith)
        | inr ((done', t'), e) ↦
            let same : t' ≡ s' = ground arith in
            rw (← same) (perform-Kept fuel w o' t t' done' e there)
      ]

  transact-Kept :
      (n fuel : ℕ) (w : Settings) (s s' : State) (os : List Operation) (oks : ℕ)
      → transact (hashtable_db F K) c n fuel w s ≡ some (os, oks, s')
      → Kept s s'
  unfolding transact
  transact-Kept zero fuel w s s' os oks h there =
      let same : s ≡ s' = ground arith in rw (← same) there
  transact-Kept (suc n) fuel w s s' os oks h there =
      elim (Option-cases (do_transaction (hashtable_db F K) c fuel w s)) [
        | inl e ↦ absurd (ground arith)
        | inr ((o, done, t), e) ↦ elim (Option-cases (transact (hashtable_db F K) c n fuel w t)) [
          | inl g ↦ absurd (ground arith)
          | inr ((os', oks', t'), g) ↦
              let same : t' ≡ s' = ground arith in
              rw (← same) (
                transact-Kept n fuel w t t' os' oks' g
                  (do_transaction-Kept fuel w s t o done e there))
        ]
      ]

module _ (F : StringHashtable Bytes) (K : StringHashtable F.Table) (c : Choosers)
    (w : Settings) where
  -- A client loads n records into a hash-table database, whatever this held before, and then makes m
  -- transactions. When these have returned, a read of any of the n keys that the loading drew
  -- returns kOK, whichever fields are asked for, and also where two keys have the same name. The
  -- counter of keys must not wrap around while loading.
  pub transact_reads :
      (n i m fuel oks : ℕ) (s s' : World (hashtable_db F K) c) (os : List Operation)
      (fields : Option (List Bytes)) (result : List KvPair)
      → i < n
      → s.workload.key_generator + n < u64_mod
      → transact (hashtable_db F K) c m fuel w (load (hashtable_db F K) c n w s).1
        ≡ some (os, oks, s')
      → let key = build_key_name w (s.workload.key_generator + i) in
        (HashtableDb.read F K w.table_name key fields result s'.db).0 ≡ ok
  unfolding HashtableDb.read
  transact_reads n i m fuel oks s s' os fields result below fits h =
      let key = build_key_name w (s.workload.key_generator + i) in
      let q = key_index w.table_name key in
      let loaded = (load (hashtable_db F K) c n w s).1 in
      let there =
        transact-Kept F K c q m fuel w loaded s' os oks h
          (loaded-exists F K c w n i s below fits) in
      elim (Option-cases (K.get q s'.db)) [
        | inl e ↦ absurd (ground arith)
        | inr (ft, e) ↦ ground arith
      ]

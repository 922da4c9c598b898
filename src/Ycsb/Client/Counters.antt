-- ===== src/Ycsb/Client/Counters.antt =====
-- What the calls of workloads/YCSB-C/core/client.h do to the two key counters of the workload.
use ltram_policy_bench.Prelude.{
  ℕ, zero, suc, ◌+◌, ◌≤◌, ◌≡◌, ◌∙◌, refl, List, [], ◌∷◌, Bool, some, arith, if◌then◌else◌, inl, inr,
  Option-cases, Bool-cases, ◌%◌, length,
}
use ltram_policy_bench.Prelude.Int.{rounds}
use ltram_policy_bench.Prelude.Words.{u64_mod}
use ltram_policy_bench.Ycsb.Text.{Bytes}
use ltram_policy_bench.Ycsb.Db.{DbCode}
use ltram_policy_bench.Ycsb.Generators.{counter_next}
use ltram_policy_bench.Ycsb.Workload.{
  Operation, Choosers, Settings, Workload, next_sequence_key, next_transaction_key, next_field_name,
  next_value, value_loop, build_values, build_update,
}
use ltram_policy_bench.Ycsb.Client.{
  Db, World, asked_fields, new_values, transaction_read, transaction_read_modify_write,
  transaction_scan, transaction_update, transaction_insert, do_insert, on_key, perform,
  do_transaction, transact, load,
}

-- How many of the operations draw a new key.
abbrev pub inserts : List Operation → ℕ
inserts [] = 0
inserts (Operation.insert ∷ os) = 1 + inserts os
inserts (Operation.read ∷ os) = inserts os
inserts (Operation.update ∷ os) = inserts os
inserts (Operation.scan ∷ os) = inserts os
inserts (Operation.read_modify_write ∷ os) = inserts os

module _ (c : Choosers) where
  -- The bound of the transaction keys stays, and so many new keys were taken.
  pub record Taken (n : ℕ) (s s' : Workload c) : Type 0 where
    pub bound : s'.insert_key_sequence ≡ s.insert_key_sequence
    pub keys : s'.key_generator % u64_mod ≡ (s.key_generator + n) % u64_mod

  stay :
      (s s' : Workload c)
      → s'.insert_key_sequence ≡ s.insert_key_sequence
      → s'.key_generator ≡ s.key_generator
      → Taken 0 s s'
  stay s s' b k = record { bound = b; keys = omega arith }

  Taken-trans : (m n : ℕ) (s t u : Workload c) → Taken m s t → Taken n t u → Taken (m + n) s u
  Taken-trans m n s t u p q = record {
    bound = q.bound ∙ p.bound;
    keys = omega (arith, p.keys, q.keys);
  }

  value_loop-Taken : (n i : ℕ) (s : Workload c) → Taken 0 s (value_loop c n i s).1
  unfolding value_loop next_value
  value_loop-Taken zero i s = stay s s refl refl
  value_loop-Taken (suc n) i s =
      let s₁ = (next_value c s).1 in
      Taken-trans 0 0 s s₁ (value_loop c n (i + 1) s₁).1 (stay s s₁ refl refl)
        (value_loop-Taken n (i + 1) s₁)

  pub build_values-Taken : (w : Settings) (s : Workload c) → Taken 0 s (build_values c w s).1
  unfolding build_values
  build_values-Taken w s = value_loop-Taken (rounds w.field_count) 0 s

  build_update-Taken : (s : Workload c) → Taken 0 s (build_update c s).1
  unfolding build_update next_field_name next_value
  build_update-Taken s = stay s (build_update c s).1 refl refl

  sequence_key-Taken : (w : Settings) (s : Workload c) → Taken 1 s (next_sequence_key c w s).1
  unfolding next_sequence_key counter_next
  sequence_key-Taken w s = record { bound = refl; keys = omega arith }

  transaction_key-Taken :
      (fuel : ℕ) (w : Settings) (s s' : Workload c) (key : Bytes)
      → next_transaction_key c fuel w s ≡ some (key, s')
      → Taken 0 s s'
  unfolding next_transaction_key
  transaction_key-Taken fuel w s s' key h = stay s s' (ground arith) (ground arith)

module _ (d : Db) (c : Choosers) where
  asked-Taken : (w : Settings) (s : Workload c) → Taken c 0 s (asked_fields d c w s).1
  unfolding asked_fields next_field_name
  asked-Taken w s = stay c s (asked_fields d c w s).1 (ground arith) (ground arith)

  new_values-Taken : (w : Settings) (s : Workload c) → Taken c 0 s (new_values d c w s).1
  unfolding new_values build_values
  new_values-Taken w s = elim (Bool-cases w.write_all_fields) [
    | inl h ↦ rw (new_values, h) (build_values-Taken c w s)
    | inr h ↦ rw (new_values, h) (build_update-Taken c s)
  ]

  pub read-Taken :
      (w : Settings) (key : Bytes) (s : World d c)
      → Taken c 0 s.workload (transaction_read d c w key s).1.workload
  unfolding transaction_read
  read-Taken w key s = asked-Taken w s.workload

  modify-Taken :
      (w : Settings) (key : Bytes) (s : World d c)
      → Taken c 0 s.workload (transaction_read_modify_write d c w key s).1.workload
  unfolding transaction_read_modify_write
  modify-Taken w key s =
      let wl = (asked_fields d c w s.workload).1 in
      Taken-trans c 0 0 s.workload wl (new_values d c w wl).1 (asked-Taken w s.workload)
        (new_values-Taken w wl)

  pub scan-Taken :
      (w : Settings) (key : Bytes) (s : World d c)
      → Taken c 0 s.workload (transaction_scan d c w key s).1.workload
  unfolding transaction_scan
  scan-Taken w key s =
      let wl : Workload c = record s.workload {
        choosers = (c.next_scan_length s.workload.choosers).1;
      } in
      Taken-trans c 0 0 s.workload wl (asked_fields d c w wl).1 (stay c s.workload wl refl refl)
        (asked-Taken w wl)

  pub update-Taken :
      (w : Settings) (key : Bytes) (s : World d c)
      → Taken c 0 s.workload (transaction_update d c w key s).1.workload
  unfolding transaction_update
  update-Taken w key s = new_values-Taken w s.workload

  insert-Taken :
      (w : Settings) (s : World d c) → Taken c 1 s.workload (do_insert d c w s).1.workload
  unfolding do_insert transaction_insert
  insert-Taken w s =
      let wl = (next_sequence_key c w s.workload).1 in
      Taken-trans c 1 0 s.workload wl (build_values c w wl).1 (sequence_key-Taken c w s.workload)
        (build_values-Taken c w wl)

  on_key-Taken :
      (fuel : ℕ) (w : Settings) (t : Bytes → World d c → DbCode × World d c) (s s' : World d c)
      (done : Bool)
      → ((key : Bytes) (u : World d c) → Taken c 0 u.workload (t key u).1.workload)
      → on_key d c fuel w t s ≡ some (done, s')
      → Taken c 0 s.workload s'.workload
  unfolding on_key
  on_key-Taken fuel w t s s' done each h =
      elim (Option-cases (next_transaction_key c fuel w s.workload)) [
        | inl e ↦ absurd (ground arith)
        | inr ((key, wl), e) ↦
            let u : World d c = record s { workload = wl } in
            let same : (t key u).1 ≡ s' = ground arith in
            let drawn = transaction_key-Taken c fuel w s.workload wl key e in
            rw (← same) (Taken-trans c 0 0 s.workload wl (t key u).1.workload drawn (each key u))
      ]

  perform-Taken :
      (fuel : ℕ) (w : Settings) (o : Operation) (s s' : World d c) (done : Bool)
      → perform d c fuel w o s ≡ some (done, s')
      → Taken c (inserts (o ∷ [])) s.workload s'.workload
  unfolding perform
  perform-Taken fuel w Operation.read s s' done h =
      on_key-Taken fuel w (transaction_read d c w) s s' done (read-Taken w) h
  perform-Taken fuel w Operation.update s s' done h =
      on_key-Taken fuel w (transaction_update d c w) s s' done (update-Taken w) h
  perform-Taken fuel w Operation.insert s s' done h =
      let same : (do_insert d c w s).1 ≡ s' = ground arith in rw (← same) (insert-Taken w s)
  perform-Taken fuel w Operation.scan s s' done h =
      on_key-Taken fuel w (transaction_scan d c w) s s' done (scan-Taken w) h
  perform-Taken fuel w Operation.read_modify_write s s' done h =
      on_key-Taken fuel w (transaction_read_modify_write d c w) s s' done (modify-Taken w) h

  pub do_transaction-Taken :
      (fuel : ℕ) (w : Settings) (s s' : World d c) (o : Operation) (done : Bool)
      → do_transaction d c fuel w s ≡ some (o, done, s')
      → Taken c (inserts (o ∷ [])) s.workload s'.workload
  unfolding do_transaction
  do_transaction-Taken fuel w s s' o done h =
      let (o', choosers) = c.next_operation s.workload.choosers in
      let t : World d c = record s { workload = record s.workload { choosers = choosers } } in
      elim (Option-cases (perform d c fuel w o' t)) [
        | inl e ↦ absurd (ground arith)
        | inr ((done', t'), e) ↦
            let same : (o' ≡ o) × (t' ≡ s') = ground arith in
            let moved = perform-Taken fuel w o' t t' done' e in
            rw (← same.0, ← same.1) (record { bound = moved.bound; keys = moved.keys })
      ]

  inserts-cons :
      (o : Operation) (os : List Operation) → inserts (o ∷ os) ≡ inserts (o ∷ []) + inserts os
  inserts-cons Operation.insert os = omega arith
  inserts-cons Operation.read os = omega arith
  inserts-cons Operation.update os = omega arith
  inserts-cons Operation.scan os = omega arith
  inserts-cons Operation.read_modify_write os = omega arith

  -- When the transactions of a client return, there were as many operations as asked for and at
  -- most as many successes, the counter of new keys has advanced by one for each insertion, and the
  -- bound of the keys that a transaction draws is what it was.
  pub transact-Taken :
      (n fuel : ℕ) (w : Settings) (s s' : World d c) (os : List Operation) (oks : ℕ)
      → transact d c n fuel w s ≡ some (os, oks, s')
      → Taken c (inserts os) s.workload s'.workload × (length os ≡ n) × (oks ≤ n)
  unfolding transact
  transact-Taken zero fuel w s s' os oks h =
      let same : (os ≡ []) × (oks ≡ 0) × (s ≡ s') = ground arith in
      rw (same.0, same.1, ← same.2) (stay c s.workload s.workload refl refl, refl, omega arith)
  transact-Taken (suc n) fuel w s s' os oks h = elim (Option-cases (do_transaction d c fuel w s)) [
    | inl e ↦ absurd (ground arith)
    | inr ((o, done, t), e) ↦ elim (Option-cases (transact d c n fuel w t)) [
      | inl g ↦ absurd (ground arith)
      | inr ((os', oks', t'), g) ↦
          let same : (o ∷ os' ≡ os) × ((if done then 1 else 0) + oks' ≡ oks) × (t' ≡ s') =
            ground arith in
          let one = do_transaction-Taken fuel w s t o done e in
          let (more, len, few) = transact-Taken n fuel w t t' os' oks' g in
          rw (← same.0, ← same.1, ← same.2)
            (
              rw (inserts-cons o os') (
                  Taken-trans c (inserts (o ∷ [])) (inserts os') s.workload t.workload t'.workload
                    one more),
              omega (arith, len),
              ground (arith, few),
            )
    ]
  ]

  -- Loading draws as many new keys as it is told to insert records, and counts at most so many
  -- successes; the bound of the transaction keys stays.
  pub load-Taken :
      (n : ℕ) (w : Settings) (s : World d c)
      → Taken c n s.workload (load d c n w s).1.workload × ((load d c n w s).0 ≤ n)
  unfolding load
  load-Taken zero w s = (stay c s.workload s.workload refl refl, omega arith)
  load-Taken (suc n) w s =
      let s₁ = (do_insert d c w s).1 in
      let s₂ = (load d c n w s₁).1 in
      let (more, few) = load-Taken n w s₁ in
      let both = Taken-trans c 1 n s.workload s₁.workload s₂.workload (insert-Taken w s) more in
      (record { bound = both.bound; keys = omega (arith, both.keys) }, ground (arith, few))

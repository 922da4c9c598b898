-- ===== src/Ycsb/Clients/Alone.antt =====
-- The threads of workloads/YCSB-C/ycsbc.cc where one makes all of its calls before the next: each
-- sequence of calls of core/client.h is one of the interleavings.
use ltram_policy_bench.Prelude.{
  ℕ, zero, suc, ◌+◌, ◌≡◌, refl, List, ◌∷◌, ◌++◌, Bool, true, false, Option, none, some, arith,
  if◌then◌else◌, inl, inr, Option-cases,
}
use ltram_policy_bench.Ycsb.Text.{Bytes}
use ltram_policy_bench.Ycsb.Db.{DbCode}
use ltram_policy_bench.Ycsb.Workload.{
  Operation, Choosers, Settings, Workload, next_sequence_key, next_transaction_key,
}
use ltram_policy_bench.Ycsb.Client.{
  Db, World, is_ok, transaction_read, transaction_read_modify_write, transaction_scan,
  transaction_update, transaction_insert, do_insert, on_key, perform, do_transaction, load,
  transact,
}
use ltram_policy_bench.Ycsb.Clients.{
  Call, with_key, putting, reading, updating, scanning, modifying, writing, Caller, returned,
  goes_on, start, run, Sys, Reach, here, next, begin, starts, ends, continues,
}

module _ (d : Db) (c : Choosers) (loading : Bool) (fuel : ℕ) (w : Settings) where
  pub Reach-trans :
      {s t u : Sys d c}
      → Reach d c loading fuel w s t
      → Reach d c loading fuel w t u
      → Reach d c loading fuel w s u
  Reach-trans p here = p
  Reach-trans p (next q step) = next (Reach-trans p q) step

  module _ (before after : List Caller) where
    -- The thread between the two lists, in the state s of what is shared.
    abbrev pub at : World d c → ℕ → ℕ → Option Call → Sys d c
    at s left oks call = record {
      world = s;
      callers = before ++ record { left = left; oks = oks; call = call } ∷ after;
    }

    -- A call that returns at its first step.
    once :
        (left oks : ℕ) (s s' : World d c) (call : Call) (wl : Workload c) (done : Bool)
        → start d c loading fuel w s.workload ≡ some (call, wl)
        → run d c w call (record s { workload = wl }) ≡ (returned done, s')
        → Reach d c loading fuel w
            (at s (suc left) oks none)
            (at s' left (oks + (if done then 1 else 0)) none)
    once left oks s s' call wl done h k =
        let t : World d c = record s { workload = wl } in
        next (next here (starts before after left oks s call wl h))
          (ends before after left oks t s' call done k)

    -- A read-modify-write.
    twice :
        (left oks : ℕ) (s t s' : World d c) (call later : Call) (wl : Workload c) (done : Bool)
        → start d c loading fuel w s.workload ≡ some (call, wl)
        → run d c w call (record s { workload = wl }) ≡ (goes_on later, t)
        → run d c w later t ≡ (returned done, s')
        → Reach d c loading fuel w
            (at s (suc left) oks none)
            (at s' left (oks + (if done then 1 else 0)) none)
    twice left oks s t s' call later wl done h k l =
        let u : World d c = record s { workload = wl } in
        next
          (next (next here (starts before after left oks s call wl h))
            (continues before after left oks u t call later k))
          (ends before after left oks t s' later done l)

module _ (d : Db) (c : Choosers) (fuel : ℕ) (w : Settings) (before after : List Caller) where
  do_insert-Reach :
      (left oks : ℕ) (s : World d c)
      → let (done, s') = do_insert d c w s in
        Reach d c true fuel w
          (at d c true fuel w before after s (suc left) oks none)
          (at d c true fuel w before after s' left (oks + (if done then 1 else 0)) none)
  unfolding do_insert transaction_insert start run
  do_insert-Reach left oks s =
      let (key, wl) = next_sequence_key c w s.workload in
      let (done, s') = do_insert d c w s in
      once d c true fuel w before after left oks s s' (putting key) wl done refl refl

  on_key-Reach :
      (left oks : ℕ) (s s' : World d c) (o : Operation) (choosers : c.State) (call : Bytes → Call)
      (t : Bytes → World d c → DbCode × World d c) (done : Bool)
      → c.next_operation s.workload.choosers ≡ (o, choosers)
      → ((wl : Workload c)
          → begin d c fuel w o wl ≡ with_key d c call (next_transaction_key c fuel w wl))
      → ((key : Bytes) (u : World d c)
          → run d c w (call key) u ≡ (returned (is_ok d c (t key u).0), (t key u).1))
      → on_key d c fuel w t (record s { workload = record s.workload { choosers = choosers } })
        ≡ some (done, s')
      → Reach d c false fuel w
          (at d c false fuel w before after s (suc left) oks none)
          (at d c false fuel w before after s' left (oks + (if done then 1 else 0)) none)
  unfolding on_key start
  on_key-Reach left oks s s' o choosers call t done e begins runs h =
      let wl₀ : Workload c = record s.workload { choosers = choosers } in
      elim (Option-cases (next_transaction_key c fuel w wl₀)) [
        | inl z ↦ absurd (ground arith)
        | inr ((key, wl), z) ↦
            let u : World d c = record s { workload = wl } in
            let began : start d c false fuel w s.workload ≡ some (call key, wl) =
              rw e (rw (begins wl₀) (rw z refl)) in
            let ends_with : run d c w (call key) u ≡ (returned done, s') =
              ground (arith, runs key u, h, z) in
            once d c false fuel w before after left oks s s' (call key) wl done began ends_with
      ]

  modify-Reach :
      (left oks : ℕ) (s s' : World d c) (choosers : c.State) (done : Bool)
      → c.next_operation s.workload.choosers ≡ (Operation.read_modify_write, choosers)
      → on_key d c fuel w
          (transaction_read_modify_write d c w)
          (record s { workload = record s.workload { choosers = choosers } })
        ≡ some (done, s')
      → Reach d c false fuel w
          (at d c false fuel w before after s (suc left) oks none)
          (at d c false fuel w before after s' left (oks + (if done then 1 else 0)) none)
  unfolding on_key start transaction_read_modify_write run transaction_read transaction_update
  modify-Reach left oks s s' choosers done e h =
      let wl₀ : Workload c = record s.workload { choosers = choosers } in
      elim (Option-cases (next_transaction_key c fuel w wl₀)) [
        | inl z ↦ absurd (ground arith)
        | inr ((key, wl), z) ↦
            let u : World d c = record s { workload = wl } in
            let t = (transaction_read d c w key u).1 in
            let began : start d c false fuel w s.workload ≡ some (modifying key, wl) =
              rw e (rw z refl) in
            let ends_with : run d c w (writing key) t ≡ (returned done, s') =
              ground (arith, h, z) in
            twice d c false fuel w before after left oks s t s' (modifying key) (writing key) wl
              done began refl ends_with
      ]

  perform-Reach :
      (left oks : ℕ) (s s' : World d c) (o : Operation) (choosers : c.State) (done : Bool)
      → c.next_operation s.workload.choosers ≡ (o, choosers)
      → perform d c fuel w o (record s { workload = record s.workload { choosers = choosers } })
        ≡ some (done, s')
      → Reach d c false fuel w
          (at d c false fuel w before after s (suc left) oks none)
          (at d c false fuel w before after s' left (oks + (if done then 1 else 0)) none)
  unfolding perform run start do_insert transaction_insert
  perform-Reach left oks s s' Operation.read choosers done e h =
      on_key-Reach left oks s s' Operation.read choosers reading (transaction_read d c w) done e
        (λ wl. refl) (λ key u. refl) h
  perform-Reach left oks s s' Operation.update choosers done e h =
      on_key-Reach left oks s s' Operation.update choosers updating (transaction_update d c w) done
        e (λ wl. refl) (λ key u. refl) h
  perform-Reach left oks s s' Operation.insert choosers done e h =
      let wl₀ : Workload c = record s.workload { choosers = choosers } in
      let (key, wl) = next_sequence_key c w wl₀ in
      let began : start d c false fuel w s.workload ≡ some (putting key, wl) = rw e refl in
      let ends_with : run d c w (putting key) (record s { workload = wl }) ≡ (returned done, s') =
        ground (arith, h) in
      once d c false fuel w before after left oks s s' (putting key) wl done began ends_with
  perform-Reach left oks s s' Operation.scan choosers done e h =
      on_key-Reach left oks s s' Operation.scan choosers scanning (transaction_scan d c w) done e
        (λ wl. refl) (λ key u. refl) h
  perform-Reach left oks s s' Operation.read_modify_write choosers done e h =
      modify-Reach left oks s s' choosers done e h

  do_transaction-Reach :
      (left oks : ℕ) (s s' : World d c) (o : Operation) (done : Bool)
      → do_transaction d c fuel w s ≡ some (o, done, s')
      → Reach d c false fuel w
          (at d c false fuel w before after s (suc left) oks none)
          (at d c false fuel w before after s' left (oks + (if done then 1 else 0)) none)
  unfolding do_transaction
  do_transaction-Reach left oks s s' o done h =
      let (o', choosers) = c.next_operation s.workload.choosers in
      let t : World d c = record s { workload = record s.workload { choosers = choosers } } in
      elim (Option-cases (perform d c fuel w o' t)) [
        | inl e ↦ absurd (ground arith)
        | inr ((done', t'), e) ↦
            let same : (done' ≡ done) × (t' ≡ s') = ground arith in
            rw (← same.0, ← same.1) (perform-Reach left oks s t' o' choosers done' refl e)
      ]

  -- The transactions that one client makes without interruption are steps of its thread, with their
  -- number of successes, whatever the other threads have reached.
  pub transact-Reach :
      (n oks more : ℕ) (s s' : World d c) (os : List Operation)
      → transact d c n fuel w s ≡ some (os, more, s')
      → Reach d c false fuel w
          (at d c false fuel w before after s n oks none)
          (at d c false fuel w before after s' 0 (oks + more) none)
  unfolding transact
  transact-Reach zero oks more s s' os h =
      let same : (0 ≡ more) × (s ≡ s') = ground arith in
      let none_more : oks + 0 ≡ oks = omega arith in rw (← same.0, ← same.1, none_more) here
  transact-Reach (suc n) oks more s s' os h = elim (Option-cases (do_transaction d c fuel w s)) [
    | inl e ↦ absurd (ground arith)
    | inr ((o, done, t), e) ↦ elim (Option-cases (transact d c n fuel w t)) [
      | inl g ↦ absurd (ground arith)
      | inr ((os', more', t'), g) ↦
          let one : ℕ = if done then 1 else 0 in
          let same : (one + more' ≡ more) × (t' ≡ s') = ground arith in
          let total : oks + (one + more') ≡ oks + one + more' = omega arith in
          rw (← same.0, ← same.1, total)
            (Reach-trans d c false fuel w (do_transaction-Reach n oks s t o done e)
              (transact-Reach n (oks + one) more' t t' os' g))
    ]
  ]

  -- The same for the records that one client loads.
  pub load-Reach :
      (n oks : ℕ) (s : World d c)
      → let (more, s') = load d c n w s in
        Reach d c true fuel w
          (at d c true fuel w before after s n oks none)
          (at d c true fuel w before after s' 0 (oks + more) none)
  unfolding load
  load-Reach zero oks s = let none_more : oks + 0 ≡ oks = omega arith in rw none_more here
  load-Reach (suc n) oks s =
      let (done, t) = do_insert d c w s in
      let one : ℕ = if done then 1 else 0 in
      let (more, s') = load d c n w t in
      let total : oks + (one + more) ≡ oks + one + more = omega arith in
      rw total (Reach-trans d c true fuel w (do_insert-Reach n oks s) (load-Reach n (oks + one) t))

-- ===== src/Ycsb/Client/Returns.antt =====
-- The transactions of workloads/YCSB-C/core/client.h return where low enough keys are drawn.
use ltram_policy_bench.Prelude.{
  ℕ, zero, suc, ◌+◌, ◌≤◌, ◌<◌, ◌≡◌, refl, List, [], ◌∷◌, Bool, some, arith, if◌then◌else◌,
}
use ltram_policy_bench.Ycsb.Text.{Bytes}
use ltram_policy_bench.Ycsb.Db.{DbCode}
use ltram_policy_bench.Ycsb.Generators.{counter_last}
use ltram_policy_bench.Ycsb.Workload.{
  Operation, Choosers, Settings, build_key_name, next_transaction_key,
}
use ltram_policy_bench.Ycsb.Workload.Keys.{drawn_key, draw_key_lem}
use ltram_policy_bench.Ycsb.Client.{
  Db, World, is_ok, transaction_read, transaction_read_modify_write, transaction_scan,
  transaction_update, do_insert, on_key, perform, do_transaction, transact,
}
use ltram_policy_bench.Ycsb.Client.Counters.{do_transaction-Taken}

module _ (d : Db) (c : Choosers) where
  -- From any state, one of the draws that the fuel covers is not above the bound.
  abbrev pub IsReached : ℕ → ℕ → Type 0
  IsReached fuel sequence =
      (s : c.State) → (i : ℕ) × (i < fuel) × (drawn_key c i s ≤ counter_last sequence)

  on_key-some :
      (fuel : ℕ) (w : Settings) (t : Bytes → World d c → DbCode × World d c) (s : World d c)
      → IsReached fuel s.workload.insert_key_sequence
      → (r : Bool × World d c) × (on_key d c fuel w t s ≡ some r)
  unfolding on_key next_transaction_key
  on_key-some fuel w t s h =
      let wl = s.workload in
      let last = counter_last wl.insert_key_sequence in
      let (i, below, low) = h wl.choosers in
      let (j, s', e, early, fine, first) = draw_key_lem c fuel last i wl.choosers below low in
      let u : World d c = record s { workload = record wl { choosers = s' } } in
      let (code, u') = t (build_key_name w (drawn_key c j wl.choosers)) u in
      ((is_ok d c code, u'), ground (arith, e))

  perform-some :
      (fuel : ℕ) (w : Settings) (o : Operation) (s : World d c)
      → IsReached fuel s.workload.insert_key_sequence
      → (r : Bool × World d c) × (perform d c fuel w o s ≡ some r)
  unfolding perform
  perform-some fuel w Operation.read s h = on_key-some fuel w (transaction_read d c w) s h
  perform-some fuel w Operation.update s h = on_key-some fuel w (transaction_update d c w) s h
  perform-some fuel w Operation.insert s h = (do_insert d c w s, refl)
  perform-some fuel w Operation.scan s h = on_key-some fuel w (transaction_scan d c w) s h
  perform-some fuel w Operation.read_modify_write s h =
      on_key-some fuel w (transaction_read_modify_write d c w) s h

  do_transaction-some :
      (fuel : ℕ) (w : Settings) (s : World d c)
      → IsReached fuel s.workload.insert_key_sequence
      → (o : Operation) × (done : Bool) × (s' : World d c) × (do_transaction d c fuel w s
          ≡ some (o, done, s'))
  unfolding do_transaction
  do_transaction-some fuel w s h =
      let (o, choosers) = c.next_operation s.workload.choosers in
      let t : World d c = record s { workload = record s.workload { choosers = choosers } } in
      let ((done, s'), e) = perform-some fuel w o t h in (o, done, s', ground (arith, e))

  -- Where from any state of the generators one of the draws that the fuel covers is a key that was
  -- loaded, any number of transactions returns.
  pub transact-some :
      (n fuel : ℕ) (w : Settings) (s : World d c)
      → IsReached fuel s.workload.insert_key_sequence
      → (os : List Operation) × (oks : ℕ) × (s' : World d c) × (transact d c n fuel w s
          ≡ some (os, oks, s'))
  unfolding transact
  transact-some zero fuel w s h = ([], 0, s, refl)
  transact-some (suc n) fuel w s h =
      let (o, done, t, e) = do_transaction-some fuel w s h in
      let bound = (do_transaction-Taken d c fuel w s t o done e).bound in
      let h' : IsReached fuel t.workload.insert_key_sequence = rw bound h in
      let (os, oks, s', f) = transact-some n fuel w t h' in
      (o ∷ os, (if done then 1 else 0) + oks, s', ground (arith, e, f))

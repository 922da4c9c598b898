-- ===== src/Ycsb/Clients/Loading.antt =====
-- What holds while the threads of workloads/YCSB-C/ycsbc.cc load the database of
-- workloads/YCSB-C/db/hashtable_db.cc.
use ltram_policy_bench.Prelude.{
  ℕ, suc, ◌+◌, ◌≤◌, ◌<◌, ◌≡◌, refl, List, [], ◌∷◌, ◌++◌, true, none, some, arith, inl, inr, ◌⊎◌,
  Bool-cases, ltb, if◌then◌else◌,
}
use ltram_policy_bench.Prelude.Words.{u64_mod}
use ltram_policy_bench.Ycsb.Text.{Bytes, str_eq_iff}
use ltram_policy_bench.Ycsb.StringHashtable.{StringHashtable}
use ltram_policy_bench.Ycsb.HashtableDb.{key_index}
use ltram_policy_bench.Ycsb.HashtableDb.Records.{exists, insert_lem}
use ltram_policy_bench.Ycsb.Generators.{counter_next}
use ltram_policy_bench.Ycsb.Workload.{
  Choosers, Settings, Workload, build_key_name, build_values, next_sequence_key,
}
use ltram_policy_bench.Ycsb.Client.{World}
use ltram_policy_bench.Ycsb.Client.Loaded.{hashtable_db}
use ltram_policy_bench.Ycsb.Clients.{
  Call, putting, Caller, start, run, Sys, Step, Reach, here, next, starts, ends, continues,
}
use ltram_policy_bench.Ycsb.Clients.Sum.{total, total-append}
use ltram_policy_bench.Ycsb.Clients.Puts.{Puts, Puts-here, Puts-other}
use ltram_policy_bench.Ycsb.Clients.Kept.{run-Kept, run-key}

module _ (F : StringHashtable Bytes) (K : StringHashtable F.Table) (c : Choosers) (fuel : ℕ)
    (w : Settings) where
  abbrev Shared : Type 0
  Shared = World (hashtable_db F K) c

  abbrev pub name : ℕ → Bytes
  name i = build_key_name w i

  abbrev pub index : ℕ → Bytes
  index i = key_index w.table_name (name i)

  abbrev pub left : Caller → ℕ
  left x = x.left

  -- What holds while the threads load: each key that was drawn is there or about to be put, and a
  -- key is drawn for each round that is gone.
  pub record IsLoading (first all : ℕ) (s : Sys (hashtable_db F K) c) : Type 0 where
    pub balance : s.world.workload.key_generator + total left s.callers ≡ first + all
    pub drawn :
        (i : ℕ)
        → first ≤ i
        → i < s.world.workload.key_generator
        → (exists F K s.world.db (index i) ≡ true) ⊎ Puts (name i) s.callers

  putting-exists :
      (i : ℕ) (s : Shared)
      → exists F K (run (hashtable_db F K) c w (putting (name i)) s).1.db (index i) ≡ true
  unfolding run
  putting-exists i s =
      let values = (build_values c w s.workload).0 in
      let q = index i in
      ground (arith, (insert_lem F K w.table_name (name i) values s.db q []).1, str_eq_iff q q)

  -- The step of a call: the record that it puts is there, the other calls stay.
  run-drawn :
      (before after : List Caller) (x y : Caller) (call : Call) (s s' : Shared) (i : ℕ)
      → x.call ≡ some call
      → (run (hashtable_db F K) c w call s).1 ≡ s'
      → (exists F K s.db (index i) ≡ true) ⊎ Puts (name i) (before ++ x ∷ after)
      → (exists F K s'.db (index i) ≡ true) ⊎ Puts (name i) (before ++ y ∷ after)
  run-drawn before after x y call s s' i e same (inl there) =
      inl (rw (← same) (run-Kept F K c fuel w (index i) call s there))
  run-drawn before after x y call s s' i e same (inr puts) =
      elim (Puts-other (name i) before after x y puts) [
        | inr other ↦ inr other
        | inl mine ↦
            let it : call ≡ putting (name i) = ground (arith, e, mine) in
            inl (rw (← same) (rw it (putting-exists i s)))
      ]

  moved :
      (first all : ℕ) (before after : List Caller) (x y : Caller) (call : Call) (s s' : Shared)
      → x.call ≡ some call
      → x.left ≡ y.left
      → (run (hashtable_db F K) c w call s).1 ≡ s'
      → IsLoading first all (record { world = s; callers = before ++ x ∷ after })
      → IsLoading first all (record { world = s'; callers = before ++ y ∷ after })
  moved first all before after x y call s s' e lefts same h =
      let kept : s'.workload.key_generator ≡ s.workload.key_generator =
        rw (← same) (run-key F K c fuel w call s) in
      record {
        balance = omega (
          arith,
          h.balance,
          kept,
          lefts,
          total-append left before (x ∷ after),
          total-append left before (y ∷ after),
        );
        drawn = λ i low high.
            run-drawn before after x y call s s' i e same
              (h.drawn i low (omega (arith, high, kept)));
      }

  start-key :
      (s wl : Workload c) (call : Call)
      → start (hashtable_db F K) c true fuel w s ≡ some (call, wl)
      → s.key_generator + 1 < u64_mod
      → (call ≡ putting (name s.key_generator)) × (wl.key_generator ≡ s.key_generator + 1)
  unfolding start next_sequence_key counter_next
  start-key s wl call e fits = (ground arith, ground arith)

  last-cases : (i k : ℕ) → i < k + 1 → (i < k) ⊎ (k ≡ i)
  last-cases i k h = elim (Bool-cases (ltb i k)) [
    | inl below ↦ inl (ground arith)
    | inr above ↦ inr (ground arith)
  ]

  began :
      (first all : ℕ) (before after : List Caller) (n oks : ℕ) (s : Shared) (call : Call)
      (wl : Workload c)
      → first + all < u64_mod
      → start (hashtable_db F K) c true fuel w s.workload ≡ some (call, wl)
      → IsLoading first all (record {
        world = s;
        callers = before ++ record { left = suc n; oks = oks; call = none } ∷ after;
      })
      → IsLoading first all (record {
        world = record s { workload = wl };
        callers = before ++ record { left = n; oks = oks; call = some call } ∷ after;
      })
  began first all before after n oks s call wl fits e h =
      let x : Caller = record { left = suc n; oks = oks; call = none } in
      let y : Caller = record { left = n; oks = oks; call = some call } in
      let was = total-append left before (x ∷ after) in
      let (which, one) = start-key s.workload wl call e (omega (arith, fits, h.balance, was)) in
      record {
        balance = omega (arith, h.balance, one, was, total-append left before (y ∷ after));
        drawn = λ i low high.
            elim (last-cases i s.workload.key_generator (omega (arith, high, one))) [
              | inl old ↦ elim (h.drawn i low old) [
                | inl there ↦ inl there
                | inr puts ↦ elim (Puts-other (name i) before after x y puts) [
                  | inl mine ↦ absurd (ground (arith, mine))
                  | inr other ↦ inr other
                ]
              ]
              | inr new ↦
                  let mine : some call ≡ some (putting (name i)) = rw (← new) (rw which refl) in
                  inr (Puts-here (name i) before after y mine)
            ];
      }

  Step-IsLoading :
      (first all : ℕ) {s t : Sys (hashtable_db F K) c}
      → first + all < u64_mod
      → Step (hashtable_db F K) c true fuel w s t
      → IsLoading first all s
      → IsLoading first all t
  Step-IsLoading first all fits (starts before after n oks s call wl e) h =
      began first all before after n oks s call wl fits e h
  Step-IsLoading first all fits (ends before after n oks s s' call done e) h =
      let x : Caller = record { left = n; oks = oks; call = some call } in
      let y : Caller = record { left = n; oks = oks + (if done then 1 else 0); call = none } in
      let same : (run (hashtable_db F K) c w call s).1 ≡ s' = ground arith in
      moved first all before after x y call s s' refl refl same h
  Step-IsLoading first all fits (continues before after n oks s s' call later e) h =
      let x : Caller = record { left = n; oks = oks; call = some call } in
      let y : Caller = record { left = n; oks = oks; call = some later } in
      let same : (run (hashtable_db F K) c w call s).1 ≡ s' = ground arith in
      moved first all before after x y call s s' refl refl same h

  pub Reach-IsLoading :
      (first all : ℕ) {s t : Sys (hashtable_db F K) c}
      → first + all < u64_mod
      → Reach (hashtable_db F K) c true fuel w s t
      → IsLoading first all s
      → IsLoading first all t
  Reach-IsLoading first all fits here h = h
  Reach-IsLoading first all fits (next p step) h =
      Step-IsLoading first all fits step (Reach-IsLoading first all fits p h)

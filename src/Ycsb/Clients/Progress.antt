-- ===== src/Ycsb/Clients/Progress.antt =====
-- The next step of the threads of workloads/YCSB-C/ycsbc.cc.
use ltram_policy_bench.Prelude.{
  ℕ, zero, suc, ◌≡◌, refl, List, [], ◌∷◌, ◌++◌, Bool, true, false, none, some, arith, inl, inr, ◌⊎◌,
  ap, Option-cases,
}
use ltram_policy_bench.Ycsb.Text.{Bytes}
use ltram_policy_bench.Ycsb.Workload.{
  Operation, Choosers, Settings, Workload, next_sequence_key, next_transaction_key, build_key_name,
}
use ltram_policy_bench.Ycsb.Client.{Db, World}
use ltram_policy_bench.Ycsb.Client.Returns.{IsReached}
use ltram_policy_bench.Ycsb.Generators.{counter_last}
use ltram_policy_bench.Ycsb.Workload.Keys.{drawn_key, draw_key_lem}
use ltram_policy_bench.Ycsb.Clients.{
  Call, putting, reading, updating, scanning, modifying, Caller, Turn, returned, goes_on, begin,
  start, run, Sys, Step, starts, ends, continues, AllDone,
}

Turn-cases :
    (t : Turn) → ((done : Bool) × (t ≡ returned done)) ⊎ ((later : Call) × (t ≡ goes_on later))
Turn-cases (returned done) = inl (done, refl)
Turn-cases (goes_on later) = inr (later, refl)

-- A thread that is in a call, or has one to make.
abbrev pub IsBusy : Caller → Type 0
IsBusy x =
    ((call : Call) × (x.call ≡ some call)) ⊎ ((x.call ≡ none) × (left : ℕ) × (x.left ≡ suc left))

left-cases : (n : ℕ) → (n ≡ 0) ⊎ ((m : ℕ) × (n ≡ suc m))
left-cases zero = inl refl
left-cases (suc n) = inr (n, refl)

IsBusy-cases : (x : Caller) → ((x.left ≡ 0) × (x.call ≡ none)) ⊎ IsBusy x
IsBusy-cases x = elim (Option-cases x.call) [
  | inr (call, e) ↦ inr (inl (call, e))
  | inl e ↦ elim (left-cases x.left) [ inl h ↦ inl (h, e) | inr (left, h) ↦ inr (inr (e, left, h)) ]
]

pub AllDone-cases :
    (xs : List Caller)
    → AllDone xs
      ⊎ ((before : List Caller) × (x : Caller) × (after : List Caller) × (xs ≡ before ++ x ∷ after)
          × IsBusy x)
AllDone-cases [] = inl tt
AllDone-cases (x ∷ xs) = elim (IsBusy-cases x) [
  | inr busy ↦ inr ([], x, xs, refl, busy)
  | inl (h, e) ↦ elim (AllDone-cases xs) [
    | inl done ↦ inl (h, e, done)
    | inr (before, y, after, split, busy) ↦ inr (x ∷ before, y, after, ap (λ l. x ∷ l) split, busy)
  ]
]

module _ (d : Db) (c : Choosers) (loading : Bool) (fuel : ℕ) (w : Settings) where
  -- Whatever has been drawn, a thread can start its next call, for a bound of the transaction keys.
  abbrev pub CanStart : ℕ → Type 0
  CanStart last =
      (key : ℕ) (choosers : c.State)
      → (call : Call) × (wl : Workload c) × (start d c loading fuel w
            (record { key_generator = key; insert_key_sequence = last; choosers = choosers })
          ≡ some (call, wl))

  abbrev pub CanStep : Sys d c → Type 0
  CanStep s = (t : Sys d c) × Step d c loading fuel w s t

  some-CanStep :
      (before after : List Caller) (left oks : ℕ) (s : World d c) (call : Call)
      → CanStep (record {
        world = s;
        callers = before ++ record { left = left; oks = oks; call = some call } ∷ after;
      })
  some-CanStep before after left oks s call = elim (Turn-cases (run d c w call s).0) [
    | inl (done, e) ↦
        let s' = (run d c w call s).1 in
        let h : run d c w call s ≡ (returned done, s') = ground (arith, e) in
        (_, ends before after left oks s s' call done h)
    | inr (later, e) ↦
        let s' = (run d c w call s).1 in
        let h : run d c w call s ≡ (goes_on later, s') = ground (arith, e) in
        (_, continues before after left oks s s' call later h)
  ]

  none-CanStep :
      (before after : List Caller) (left oks : ℕ) (s : World d c)
      → CanStart s.workload.insert_key_sequence
      → CanStep (record {
        world = s;
        callers = before ++ record { left = suc left; oks = oks; call = none } ∷ after;
      })
  none-CanStep before after left oks s can =
      let (call, wl, h) = can s.workload.key_generator s.workload.choosers in
      (_, starts before after left oks s call wl h)

  pub caller-CanStep :
      (before after : List Caller) (x : Caller) (s : World d c)
      → CanStart s.workload.insert_key_sequence
      → IsBusy x
      → CanStep (record { world = s; callers = before ++ x ∷ after })
  caller-CanStep before after x s can (inl (call, e)) =
      rw e (some-CanStep before after x.left x.oks s call)
  caller-CanStep before after x s can (inr (e, left, h)) =
      rw e (rw h (none-CanStep before after left x.oks s can))

module _ (d : Db) (c : Choosers) (fuel : ℕ) (w : Settings) where
  -- A load can always start.
  pub load-CanStart : (last : ℕ) → CanStart d c true fuel w last
  unfolding start
  load-CanStart last key choosers =
      let s : Workload c = record {
        key_generator = key;
        insert_key_sequence = last;
        choosers = choosers;
      } in
      let (name, wl) = next_sequence_key c w s in (putting name, wl, refl)

  begin-some :
      (o : Operation) (s : Workload c) (key : Bytes) (wl : Workload c)
      → next_transaction_key c fuel w s ≡ some (key, wl)
      → (call : Call) × (wl' : Workload c) × (begin d c fuel w o s ≡ some (call, wl'))
  begin-some Operation.read s key wl h = (reading key, wl, rw h refl)
  begin-some Operation.update s key wl h = (updating key, wl, rw h refl)
  begin-some Operation.insert s key wl h =
      let (name, wl') = next_sequence_key c w s in (putting name, wl', refl)
  begin-some Operation.scan s key wl h = (scanning key, wl, rw h refl)
  begin-some Operation.read_modify_write s key wl h = (modifying key, wl, rw h refl)

  -- Where one of the draws that the fuel covers is a key that was loaded, each transaction can start.
  pub transact-CanStart : (last : ℕ) → IsReached d c fuel last → CanStart d c false fuel w last
  unfolding start next_transaction_key
  transact-CanStart last reached key choosers =
      let (o, s') = c.next_operation choosers in
      let (i, below, low) = reached s' in
      let (j, s'', e, early, fine, first) =
        draw_key_lem c fuel (counter_last last) i s' below low in
      let s : Workload c = record {
        key_generator = key;
        insert_key_sequence = last;
        choosers = s';
      } in
      begin-some o s (build_key_name w (drawn_key c j s')) (record s { choosers = s'' })
        (ground (arith, e))

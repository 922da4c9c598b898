-- ===== src/Ycsb/Clients/Sum.antt =====
-- What the threads of workloads/YCSB-C/ycsbc.cc return.
use native.Mathlib.Nat.{suc-mul, div-add-mod}
use ltram_policy_bench.Prelude.{
  ℕ, zero, suc, ◌+◌, ◌*◌, ◌≤◌, ◌≡◌, List, [], ◌∷◌, ◌++◌, Bool, Option, none, some, arith,
  if◌then◌else◌,
}
use ltram_policy_bench.Prelude.Int.{ℤ, rounds}
use ltram_policy_bench.Ycsb.Threads.{ops_each}
use ltram_policy_bench.Ycsb.Workload.{Choosers, Settings}
use ltram_policy_bench.Ycsb.Client.{Db, World}
use ltram_policy_bench.Ycsb.Clients.{
  Call, Caller, call_threads, callers_of, sum_oks, Sys, Step, Reach, here, next, starts, ends,
  continues,
}

-- The calls that a thread may still count: those that it counted, the one that it is in, and those
-- that are left.
abbrev counted : Option Call → ℕ
counted none = 0
counted (some call) = 1

abbrev budget : Caller → ℕ
budget x = x.oks + counted x.call + x.left

module _ (f : Caller → ℕ) where
  abbrev pub total : List Caller → ℕ
  total [] = 0
  total (x ∷ xs) = f x + total xs

  pub total-append : (xs ys : List Caller) → total (xs ++ ys) ≡ total xs + total ys
  total-append [] ys = omega arith
  total-append (x ∷ xs) ys = omega (arith, total-append xs ys)

  pub total-call_threads :
      (n m k : ℕ)
      → f (record { left = m; oks = 0; call = none }) ≡ k
      → total (call_threads n m) ≡ n * k
  unfolding call_threads
  total-call_threads zero m k h = omega arith
  total-call_threads (suc n) m k h = omega (arith, total-call_threads n m k h, h, suc-mul n k)

sum_oks-budget : (xs : List Caller) → sum_oks xs ≤ total budget xs
unfolding sum_oks
sum_oks-budget [] = omega arith
sum_oks-budget (x ∷ xs) = omega (arith, sum_oks-budget xs)

-- The threads have no more operations than were asked for.
pub ops_each-few :
    (total_ops num_threads : ℤ)
    → rounds num_threads * ops_each total_ops num_threads ≤ rounds total_ops
unfolding ops_each
ops_each-few total_ops num_threads =
    omega (arith, div-add-mod (rounds total_ops) (rounds num_threads))

module _ (d : Db) (c : Choosers) (loading : Bool) (fuel : ℕ) (w : Settings) where
  Step-budget :
      {s t : Sys d c}
      → Step d c loading fuel w s t
      → total budget t.callers ≤ total budget s.callers
  Step-budget (starts before after left oks s call wl h) =
      let x : Caller = record { left = suc left; oks = oks; call = none } in
      let y : Caller = record { left = left; oks = oks; call = some call } in
      omega (arith, total-append budget before (x ∷ after), total-append budget before (y ∷ after))
  Step-budget (ends before after left oks s s' call done h) =
      let one : ℕ = if done then 1 else 0 in
      let few : one ≤ 1 = ground arith in
      let x : Caller = record { left = left; oks = oks; call = some call } in
      let y : Caller = record { left = left; oks = oks + one; call = none } in
      omega
        (arith, few, total-append budget before (x ∷ after), total-append budget before (y ∷ after))
  Step-budget (continues before after left oks s s' call later h) =
      let x : Caller = record { left = left; oks = oks; call = some call } in
      let y : Caller = record { left = left; oks = oks; call = some later } in
      omega (arith, total-append budget before (x ∷ after), total-append budget before (y ∷ after))

  Reach-budget :
      {s t : Sys d c}
      → Reach d c loading fuel w s t
      → total budget t.callers ≤ total budget s.callers
  Reach-budget here = omega arith
  Reach-budget (next p step) = omega (arith, Reach-budget p, Step-budget step)

  -- The sum of what the threads return, which `main` keeps in an `int`, is never above the number of
  -- operations that were asked for, in any interleaving.
  pub Reach-sum :
      (total_ops num_threads : ℤ) (s : World d c) {t : Sys d c}
      → Reach d c loading fuel w
          (record { world = s; callers = callers_of total_ops num_threads })
          t
      → sum_oks t.callers ≤ rounds total_ops
  Reach-sum total_ops num_threads s {t} p =
      let n = rounds num_threads in
      let each = ops_each total_ops num_threads in
      let asked = total-call_threads budget n each each (omega arith) in
      let few = ops_each-few total_ops num_threads in
      omega (arith, sum_oks-budget t.callers, Reach-budget p, asked, few)

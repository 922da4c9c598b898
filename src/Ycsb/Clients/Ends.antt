-- ===== src/Ycsb/Clients/Ends.antt =====
-- Every interleaving of the threads of workloads/YCSB-C/ycsbc.cc comes to an end.
use ltram_policy_bench.Prelude.{
  ℕ, suc, ◌+◌, ◌*◌, ◌≤◌, ◌<◌, ◌≡◌, refl, ◌∷◌, Bool, Option, none, some, arith, if◌then◌else◌, inl,
  inr, ◌⊎◌,
}
use ltram_policy_bench.Prelude.Int.{ℤ, rounds}
use ltram_policy_bench.Ycsb.Threads.{ops_each}
use ltram_policy_bench.Ycsb.Workload.{Choosers, Settings}
use ltram_policy_bench.Ycsb.Client.{Db, World}
use ltram_policy_bench.Ycsb.Clients.{
  Call, putting, reading, updating, scanning, modifying, writing, Caller, goes_on, run, callers_of,
  Sys, Step, Reach, here, next, starts, ends, continues, AllDone,
}
use ltram_policy_bench.Ycsb.Clients.Bound.{Reach-bound}
use ltram_policy_bench.Ycsb.Clients.Sum.{total, total-append, total-call_threads, ops_each-few}
use ltram_policy_bench.Ycsb.Clients.Progress.{CanStart, CanStep, caller-CanStep, AllDone-cases}

-- The database calls that a call may still make.
abbrev parts : Option Call → ℕ
parts none = 0
parts (some (modifying key)) = 2
parts (some _) = 1

-- The steps that a thread may still take.
abbrev pub work : Caller → ℕ
work x = parts x.call + 3 * x.left

parts-some : (call : Call) → (1 ≤ parts (some call)) × (parts (some call) ≤ 2)
parts-some (putting key) = (omega arith, omega arith)
parts-some (reading key) = (omega arith, omega arith)
parts-some (updating key) = (omega arith, omega arith)
parts-some (scanning key) = (omega arith, omega arith)
parts-some (modifying key) = (omega arith, omega arith)
parts-some (writing key) = (omega arith, omega arith)

module _ (d : Db) (c : Choosers) (loading : Bool) (fuel : ℕ) (w : Settings) where
  -- A call that goes on is a read-modify-write, which then has one part left.
  run-parts :
      (call later : Call) (s s' : World d c)
      → run d c w call s ≡ (goes_on later, s')
      → parts (some later) + 1 ≡ parts (some call)
  unfolding run
  run-parts (putting key) later s s' h = absurd (ground arith)
  run-parts (reading key) later s s' h = absurd (ground arith)
  run-parts (updating key) later s s' h = absurd (ground arith)
  run-parts (scanning key) later s s' h = absurd (ground arith)
  run-parts (modifying key) later s s' h =
      let same : writing key ≡ later = ground arith in rw (← same) refl
  run-parts (writing key) later s s' h = absurd (ground arith)

  pub Step-work :
      {s t : Sys d c} → Step d c loading fuel w s t → total work t.callers < total work s.callers
  Step-work (starts before after left oks s call wl h) =
      let x : Caller = record { left = suc left; oks = oks; call = none } in
      let y : Caller = record { left = left; oks = oks; call = some call } in
      omega (
        arith,
        parts-some call,
        total-append work before (x ∷ after),
        total-append work before (y ∷ after),
      )
  Step-work (ends before after left oks s s' call done h) =
      let one : ℕ = if done then 1 else 0 in
      let x : Caller = record { left = left; oks = oks; call = some call } in
      let y : Caller = record { left = left; oks = oks + one; call = none } in
      omega (
        arith,
        parts-some call,
        total-append work before (x ∷ after),
        total-append work before (y ∷ after),
      )
  Step-work (continues before after left oks s s' call later h) =
      let x : Caller = record { left = left; oks = oks; call = some call } in
      let y : Caller = record { left = left; oks = oks; call = some later } in
      omega (
        arith,
        run-parts call later s s' h,
        total-append work before (x ∷ after),
        total-append work before (y ∷ after),
      )

  -- The number of steps that were taken.
  unfoldable pub steps : {s t : Sys d c} → Reach d c loading fuel w s t → ℕ
  steps here = 0
  steps (next p step) = suc (steps p)

  steps-work :
      {s t : Sys d c} (p : Reach d c loading fuel w s t)
      → steps p + total work t.callers ≤ total work s.callers
  unfolding steps
  steps-work here = omega arith
  steps-work (next p step) = omega (arith, steps-work p, Step-work step)

  -- Every interleaving of the threads takes at most three steps for each operation that was asked
  -- for; and while a thread has not made all of its calls, some thread can take a step, if from any
  -- state of the generators a call can be started for the bound of the keys that was there at first.
  pub Reach-steps :
      (total_ops num_threads : ℤ) (s : World d c) (t : Sys d c)
      (p : Reach d c loading fuel w
        (record { world = s; callers = callers_of total_ops num_threads })
        t)
      → CanStart d c loading fuel w s.workload.insert_key_sequence
      → (steps p ≤ 3 * rounds total_ops) × (AllDone t.callers ⊎ CanStep d c loading fuel w t)
  Reach-steps total_ops num_threads s t p can =
      let n = rounds num_threads in
      let each = ops_each total_ops num_threads in
      let asked = total-call_threads work n each (3 * each) (omega arith) in
      (
        omega (arith, steps-work p, asked, ops_each-few total_ops num_threads),
        elim (AllDone-cases t.callers) [
          | inl done ↦ inl done
          | inr (before, x, after, e, busy) ↦
              let bound = Reach-bound d c loading fuel w p in
              let can' : CanStart d c loading fuel w t.world.workload.insert_key_sequence =
                rw bound can in
              inr (rw e (caller-CanStep d c loading fuel w before after x t.world can' busy))
        ],
      )

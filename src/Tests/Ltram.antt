-- ===== src/Tests/Ltram.antt =====
-- ltram_module/ltram.c on the small kernel.
use ltram_policy_bench.Prelude.{ℕ, ◌≡◌, refl, List, [], ◌∷◌, arith}
use ltram_policy_bench.Ltram.{VmFault, VmFaultCode, Machine, zeroed, ltram_page_mkwrite}
use ltram_policy_bench.Ltram.Accounting.{serve, Counts, serve-Counts}
use ltram_policy_bench.Ltram.Cpus.{
  Pc, enter, done, Booted, Reach, here, next, Sys, fault, cpu, in_zone, migrated, counted, IsExact,
  Reach-IsExact, count, outcome,
}
use ltram_policy_bench.Tests.Toy.{Pages, toy}

-- One ordinary page, so the first migration succeeds and the second fails.
abbrev pages : Pages
pages = record { ltram = 2; dram = 1; word = 0; refs = λ f. 0 }

abbrev booted : Machine toy
booted = record { stats = zeroed; kernel = pages }

abbrev on : ℕ → VmFault
on page = record { page = page }

abbrev faults : List VmFault
faults = on 1 ∷ on 1 ∷ on 0 ∷ []

faults_served :
    (serve toy faults booted).0 ≡ VmFaultCode.nopage ∷ VmFaultCode.retry ∷ VmFaultCode.proceed ∷ []
unfolding serve ltram_page_mkwrite
faults_served = refl

serve-Counts_example : Counts zeroed (serve toy faults booted).0 (serve toy faults booted).1.stats
serve-Counts_example = serve-Counts toy faults booted (omega arith)

abbrev one_call : Machine toy → Pc → Sys toy
one_call m p = record { machine = m; calls = p ∷ [] }

abbrev after_migration : Machine toy
after_migration = record booted { kernel = (toy.ltram_migrate_from 1 pages).1 }

abbrev returned_nopage : Machine toy
returned_nopage = record after_migration { stats = count VmFaultCode.nopage zeroed }

-- One call has returned, a second one stands before its migration.
two_calls :
    Reach toy
      (Booted toy pages)
      (record { machine = returned_nopage; calls = enter (on 0) ∷ done VmFaultCode.nopage ∷ [] })
unfolding outcome
two_calls =
    next
      (next
        (next (next (next here (fault _ (on 1))) (cpu [] [] (in_zone booted (on 1) refl)))
          (cpu [] [] (migrated booted 1)))
        (cpu [] [] (counted after_migration VmFaultCode.nopage)))
      (fault _ (on 0))

Reach-IsExact_example :
    IsExact toy
      (record { machine = returned_nopage; calls = enter (on 0) ∷ done VmFaultCode.nopage ∷ [] })
Reach-IsExact_example = Reach-IsExact toy two_calls

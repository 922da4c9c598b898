-- ===== src/Tests/Smoke.antt =====
-- ltram_module/ltram_smoketest.c on the small kernel.
use ltram_policy_bench.Prelude.{◌≡◌, ◌+◌, ◌↔◌, refl, true, arith}
use ltram_policy_bench.Prelude.Int.{ℤ, pos, rounds, to_size}
use ltram_policy_bench.Kernel.{Kernel}
use ltram_policy_bench.Smoke.Outcomes.{ok, failed}
use ltram_policy_bench.Smoke.{
  Module, misplaced, alloc_loop, free_loop, test_single_page, test_bulk_allocation,
  test_write_then_read, test_kernel_alloc_avoids_ltram, test_highuser_alloc_avoids_ltram,
  test_alloc_free_realloc, score, run_tests, ltram_smoketest_init,
}
use ltram_policy_bench.Smoke.Leaks.{bulk_allocation_held}
use ltram_policy_bench.Smoke.Suite.{init_counts}
use ltram_policy_bench.Smoke.Verdict.{LandsEach, bulk_allocation_passes}
use ltram_policy_bench.Tests.Toy.{Pages, toy, toy_refs}

abbrev pages : Pages
pages = record { ltram = 3; dram = 1; word = 0; refs = λ f. 0 }

abbrev loaded : ℤ → Module toy
loaded n = record { bulk_count = n; last_pass_count = 0; last_fail_count = 0; kernel = pages }

program : Unit {0}
unfolding misplaced alloc_loop free_loop test_single_page test_bulk_allocation test_write_then_read
    test_kernel_alloc_avoids_ltram test_highuser_alloc_avoids_ltram test_alloc_free_realloc score
    run_tests ltram_smoketest_init
program = tt

-- Three LtRAM pages do not serve a bulk of four.
too_many : (run_tests toy (pos 4) pages).0 ≡ ok (record { passes = 5; fails = 1 })
unfolding program
too_many = refl

-- A kernel whose LtRAM zone has the wrong number.
abbrev misnumbered : Kernel
misnumbered = record toy { zone_ltram = 5 }

-- Its first test fails and keeps the folio.
leaked :
    ((test_single_page misnumbered pages).0 ≡ failed)
    × ((test_single_page misnumbered pages).1.refs 1 ≡ 1)
unfolding program
leaked = (refl, refl)

bulk_allocation_held_example : (test_bulk_allocation toy (pos 4) pages).1.refs 1 ≡ 0
unfolding toy_refs
bulk_allocation_held_example = bulk_allocation_held toy toy_refs (pos 4) pages 1

-- With one folio the suite ends with a pass or a failure of each test.
init_counts_example :
    (m' : Module toy) × (ltram_smoketest_init toy (loaded (pos 2)) ≡ ok m')
    × (m'.last_pass_count + m'.last_fail_count ≡ 6)
    × (m'.bulk_count ≡ pos 2)
init_counts_example = init_counts toy (loaded (pos 2)) (λ folio e. absurd (ground arith))

bulk_allocation_passes_example : ((test_bulk_allocation toy (pos 2) pages).0 ≡ ok tt) ↔ (
    ((toy.kmalloc_array (to_size (pos 2)) 8 pages).0 ≡ true)
    × (pos 2 ≡ pos (rounds (pos 2)))
    × LandsEach toy (rounds (pos 2)) (toy.kmalloc_array (to_size (pos 2)) 8 pages).1)
bulk_allocation_passes_example = bulk_allocation_passes toy (pos 2) pages

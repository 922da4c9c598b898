-- ===== src/Smoke/Suite.antt =====
-- The whole run of ltram_smoketest.c: its two counters, and when all six tests pass.
use ltram_policy_bench.Prelude.{ℕ, ◌+◌, ◌≡◌, ◌≢◌, refl, none, arith, inl, inr, Option-cases}
use ltram_policy_bench.Prelude.Int.{ℤ}
use ltram_policy_bench.Kernel.{Kernel}
use ltram_policy_bench.Smoke.Outcomes.{Outcome, ok, failed, oops, Act}
use ltram_policy_bench.Smoke.{
  Score, Module, ltram_gfp, test_single_page, test_bulk_allocation, test_write_then_read,
  test_kernel_alloc_avoids_ltram, test_highuser_alloc_avoids_ltram, test_alloc_free_realloc, score,
  run_tests, ltram_smoketest_init,
}

-- The counts after a test that returned.
abbrev pub tallied : Outcome (Unit {0}) → Score → Score
tallied (ok _) sc = record sc { passes = sc.passes + 1 }
tallied failed sc = record sc { fails = sc.fails + 1 }
tallied oops sc = sc

abbrev pub total : Score → ℕ
total sc = sc.passes + sc.fails

total-tallied :
    (r : Outcome (Unit {0})) (sc : Score) → r ≢ oops → total (tallied r sc) ≡ total sc + 1
total-tallied (ok _) sc h = omega arith
total-tallied failed sc h = omega arith
total-tallied oops sc h = absurd (h refl)

module _ (k : Kernel) where
  score_lem :
      (test : Act k.State (Unit {0})) (sc : Score) (s : k.State)
      → (test s).0 ≢ oops
      → score k test sc s ≡ (ok (tallied (test s).0 sc), (test s).1)
  unfolding score
  score_lem test sc s h = ground arith

  single_page-ne-oops : (s : k.State) → (test_single_page k s).0 ≢ oops
  unfolding test_single_page
  single_page-ne-oops s = ground arith

  bulk_allocation-ne-oops : (n : ℤ) (s : k.State) → (test_bulk_allocation k n s).0 ≢ oops
  unfolding test_bulk_allocation
  bulk_allocation-ne-oops n s = ground arith

  write_then_read-ne-oops : (s : k.State) → (test_write_then_read k s).0 ≢ oops
  unfolding test_write_then_read
  write_then_read-ne-oops s = ground arith

  kernel_alloc-ne-oops : (s : k.State) → (test_kernel_alloc_avoids_ltram k s).0 ≢ oops
  unfolding test_kernel_alloc_avoids_ltram
  kernel_alloc-ne-oops s = ground arith

  highuser_alloc-ne-oops : (s : k.State) → (test_highuser_alloc_avoids_ltram k s).0 ≢ oops
  unfolding test_highuser_alloc_avoids_ltram
  highuser_alloc-ne-oops s = ground arith

  alloc_free_realloc-ne-oops :
      (s : k.State)
      → ((folio : ℕ) → k.folio_address folio ≢ none)
      → (test_alloc_free_realloc k s).0 ≢ oops
  unfolding test_alloc_free_realloc
  alloc_free_realloc-ne-oops s h = elim (Option-cases (k.folio_alloc (ltram_gfp k) 0 s).0) [
    | inl e ↦ ground arith
    | inr (x, e) ↦ ground (arith, h x)
  ]

  -- What the six tests return one after the other, each with the state after it.
  module _ (n : ℤ) (s : k.State) where
    abbrev pub after₁ : Outcome (Unit {0}) × k.State
    after₁ = test_single_page k s

    abbrev pub after₂ : Outcome (Unit {0}) × k.State
    after₂ = test_bulk_allocation k n after₁.1

    abbrev pub after₃ : Outcome (Unit {0}) × k.State
    after₃ = test_write_then_read k after₂.1

    abbrev pub after₄ : Outcome (Unit {0}) × k.State
    after₄ = test_kernel_alloc_avoids_ltram k after₃.1

    abbrev pub after₅ : Outcome (Unit {0}) × k.State
    after₅ = test_highuser_alloc_avoids_ltram k after₄.1

    abbrev pub after₆ : Outcome (Unit {0}) × k.State
    after₆ = test_alloc_free_realloc k after₅.1

    unfoldable pub five : Score
    five = tallied after₅.0 (
        tallied after₄.0 (
          tallied after₃.0
            (tallied after₂.0 (tallied after₁.0 (record { passes = 0; fails = 0 })))))

    total-five : total five ≡ 5
    unfolding five
    total-five = omega (
      arith,
      total-tallied after₅.0 _ (highuser_alloc-ne-oops after₄.1),
      total-tallied after₄.0 _ (kernel_alloc-ne-oops after₃.1),
      total-tallied after₃.0 _ (write_then_read-ne-oops after₂.1),
      total-tallied after₂.0 _ (bulk_allocation-ne-oops n after₁.1),
      total-tallied after₁.0 (record { passes = 0; fails = 0 }) (single_page-ne-oops s),
    )

    pub run_tests_lem : run_tests k n s ≡ score k (test_alloc_free_realloc k) five after₅.1
    unfolding run_tests five
    run_tests_lem = rw (score_lem (test_single_page k) _ s (single_page-ne-oops s)) (
        rw (score_lem (test_bulk_allocation k n) _ after₁.1 (bulk_allocation-ne-oops n after₁.1)) (
          rw (score_lem (test_write_then_read k) _ after₂.1 (write_then_read-ne-oops after₂.1)) (
            rw
              (score_lem (test_kernel_alloc_avoids_ltram k) _ after₃.1
                (kernel_alloc-ne-oops after₃.1))
              (rw (
                score_lem (test_highuser_alloc_avoids_ltram k) _ after₄.1
                  (highuser_alloc-ne-oops after₄.1))))))

  pub smoketest_init_lem :
      (m : Module k)
      → (after₆ m.bulk_count m.kernel).0 ≢ oops
      → let (r, s) = after₆ m.bulk_count m.kernel in
        let sc = tallied r (five m.bulk_count m.kernel) in
        ltram_smoketest_init k m
        ≡ ok (record m { last_pass_count = sc.passes; last_fail_count = sc.fails; kernel = s })
  unfolding ltram_smoketest_init
  smoketest_init_lem m h = rw (run_tests_lem m.bulk_count m.kernel) (
      rw (
        score_lem (test_alloc_free_realloc k) (five m.bulk_count m.kernel)
          (after₅ m.bulk_count m.kernel).1 h))

  -- Where every folio has a kernel address, loading the module returns 0, and the two counters
  -- that it leaves add up to six.
  pub init_counts :
      (m : Module k)
      → ((folio : ℕ) → k.folio_address folio ≢ none)
      → (m' : Module k) × (ltram_smoketest_init k m ≡ ok m')
        × (m'.last_pass_count + m'.last_fail_count ≡ 6)
        × (m'.bulk_count ≡ m.bulk_count)
  init_counts m h =
      let n = m.bulk_count in
      let whole = alloc_free_realloc-ne-oops (after₅ n m.kernel).1 h in
      let sum = total-tallied (after₆ n m.kernel).0 (five n m.kernel) whole in
      (_, smoketest_init_lem m whole, omega (arith, total-five n m.kernel), refl)

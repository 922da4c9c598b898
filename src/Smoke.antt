-- ===== src/Smoke.antt =====
-- ltram_module/ltram_smoketest.c: the six tests that run when the module is loaded.
pub mod Outcomes
pub mod Verdict
pub mod Suite
pub mod Leaks
use Prim.Native.Nat.{bit_or}
use ltram_policy_bench.Prelude.{
  ℕ, zero, suc, ◌+◌, ◌*◌, Option, none, some, List, [], ◌∷◌, Bool, not, ◌==◌, if◌then◌else◌,
}
use ltram_policy_bench.Prelude.Int.{ℤ, pos, negsuc, eqb_ℤ, rounds, to_size}
use ltram_policy_bench.Kernel.{Kernel}
use Outcomes.{
  Outcome, ok, failed, oops, Act, pure, run, get, expect, expect_some, deref, ◌>>=◌, ◌>>◌,
}

-- What the first loop of `test_bulk_allocation` has after its rounds: the array, the two counts.
pub record Bulk : Type 0 where
  pub folios : List (Option ℕ)
  pub allocated : ℕ
  pub errors : ℕ

-- What one round of that loop adds to `allocated`.
unfoldable pub got : Option ℕ → ℕ
got none = 0
got (some _) = 1

abbrev pub bit : Bool → ℕ
bit b = if b then 1 else 0

-- The pattern that is written.
abbrev pub cafebabe : ℕ
cafebabe = 0xCAFEBABE

pub record Score : Type 0 where
  pub passes : ℕ
  pub fails : ℕ

module _ (k : Kernel) where
  abbrev pub ltram_gfp : ℕ
  ltram_gfp = bit_or k.gfp_ltram k.gfp_thisnode

  abbrev pub alloc : ℕ → Act k.State (Option ℕ)
  alloc gfp s = let (r, s') = k.folio_alloc gfp 0 s in (ok r, s')

  unfoldable pub test_single_page : Act k.State (Unit {0})
  test_single_page = do
    r ← alloc ltram_gfp
    folio ← expect_some r
    expect (k.folio_nid folio == 1)
    expect (k.folio_zonenum folio == k.zone_ltram)
    run (k.folio_put folio)

  -- What one round adds to `errors`.
  unfoldable pub misplaced : Option ℕ → ℕ
  misplaced none = 0
  misplaced (some folio) =
      bit (not (k.folio_nid folio == 1)) + bit (not (k.folio_zonenum folio == k.zone_ltram))

  -- `folios[i]` for the rounds that are left, with the counts so far.
  unfoldable pub alloc_loop : ℕ → ℕ → ℕ → k.State → Bulk × k.State
  unfolding got misplaced
  alloc_loop zero allocated errors s =
      (record { folios = []; allocated = allocated; errors = errors }, s)
  alloc_loop (suc n) allocated errors s =
      let (r, s') = k.folio_alloc ltram_gfp 0 s in
      let (b, s'') = alloc_loop n (allocated + got r) (errors + misplaced r) s' in
      (record b { folios = r ∷ b.folios }, s'')

  unfoldable pub free_loop : List (Option ℕ) → k.State → k.State
  free_loop [] s = s
  free_loop (none ∷ rs) s = free_loop rs s
  free_loop (some folio ∷ rs) s = free_loop rs (k.folio_put folio s)

  -- The loops are bounded by `bulk_count`; a pointer has 8 bytes.
  unfoldable pub test_bulk_allocation : ℤ → Act k.State (Unit {0})
  test_bulk_allocation bulk_count = do
    folios ← get (k.kmalloc_array (to_size bulk_count) 8)
    expect folios
    b ← get (alloc_loop (rounds bulk_count) 0 0)
    run (free_loop b.folios)
    run k.kfree
    expect (eqb_ℤ (pos b.allocated) bulk_count)
    expect (b.errors == 0)

  unfoldable pub test_write_then_read : Act k.State (Unit {0})
  test_write_then_read = do
    r ← alloc ltram_gfp
    folio ← expect_some r
    kva ← expect_some (k.folio_address folio)
    run (k.write_u32 kva cafebabe)
    value ← get (λ s. (k.read_u32 kva s, s))
    expect (value == cafebabe)
    run (k.folio_put folio)

  unfoldable pub test_kernel_alloc_avoids_ltram : Act k.State (Unit {0})
  test_kernel_alloc_avoids_ltram = do
    r ← alloc k.gfp_kernel
    folio ← expect_some r
    expect (not (k.folio_zonenum folio == k.zone_ltram))
    expect (k.folio_nid folio == 0)
    run (k.folio_put folio)

  unfoldable pub test_highuser_alloc_avoids_ltram : Act k.State (Unit {0})
  test_highuser_alloc_avoids_ltram = do
    r ← alloc k.gfp_highuser
    folio ← expect_some r
    expect (not (k.folio_zonenum folio == k.zone_ltram))
    run (k.folio_put folio)

  unfoldable pub test_alloc_free_realloc : Act k.State (Unit {0})
  test_alloc_free_realloc = do
    r₁ ← alloc ltram_gfp
    folio₁ ← expect_some r₁
    kva ← deref (k.folio_address folio₁)
    run (k.memset kva 0xAB k.page_size)
    run (k.folio_put folio₁)
    r₂ ← alloc ltram_gfp
    folio₂ ← expect_some r₂
    expect (k.folio_nid folio₂ == 1)
    run (k.folio_put folio₂)

  -- The module's parameters, and the kernel around it.
  pub record Module : Type 0 where
    pub bulk_count : ℤ
    pub last_pass_count : ℕ
    pub last_fail_count : ℕ
    pub kernel : k.State

  -- `if (test() == 0) passes++; else fails++;`
  unfoldable pub score : Act k.State (Unit {0}) → Score → Act k.State Score
  score test sc s =
      let (r, s') = test s in
      elim r [
        | ok _ ↦ (ok (record sc { passes = sc.passes + 1 }), s')
        | failed ↦ (ok (record sc { fails = sc.fails + 1 }), s')
        | oops ↦ (oops, s')
      ]

  unfoldable pub run_tests : ℤ → Act k.State Score
  run_tests bulk_count = do
    sc₁ ← score test_single_page (record { passes = 0; fails = 0 })
    sc₂ ← score (test_bulk_allocation bulk_count) sc₁
    sc₃ ← score test_write_then_read sc₂
    sc₄ ← score test_kernel_alloc_avoids_ltram sc₃
    sc₅ ← score test_highuser_alloc_avoids_ltram sc₄
    score test_alloc_free_realloc sc₅

  -- The end of the suite: `ok` is the return of 0, with the results in the two counters.
  unfoldable pub finish : Module → Outcome Score × k.State → Outcome Module
  finish m (ok sc, s) =
      ok (record m { last_pass_count = sc.passes; last_fail_count = sc.fails; kernel = s })
  finish m (failed, s) = failed
  finish m (oops, s) = oops

  unfoldable pub ltram_smoketest_init : Module → Outcome Module
  unfolding finish
  ltram_smoketest_init m = finish m (run_tests m.bulk_count m.kernel)

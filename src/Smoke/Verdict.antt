-- ===== src/Smoke/Verdict.antt =====
-- When the tests of ltram_smoketest.c pass.
use ltram_policy_bench.Prelude.{
  ℕ, zero, suc, ◌+◌, ◌≤◌, ◌≡◌, ◌↔◌, refl, sym, ap, ◌∙◌, Option, none, some, arith, true,
}
use ltram_policy_bench.Prelude.Int.{ℤ, pos, rounds, to_size, eqb_ℤ_iff}
use ltram_policy_bench.Kernel.{Kernel}
use ltram_policy_bench.Smoke.Outcomes.{ok, failed, oops}
use ltram_policy_bench.Smoke.{
  got, misplaced, ltram_gfp, alloc_loop, test_bulk_allocation, test_write_then_read,
  test_alloc_free_realloc,
}

module _ (k : Kernel) where
  -- A folio on node 1, in ZONE_LTRAM.
  abbrev pub InLtram : ℕ → Type 0
  InLtram folio = (k.folio_nid folio ≡ 1) × (k.folio_zonenum folio ≡ k.zone_ltram)

  -- An allocation found a folio, and it lies in LtRAM.
  abbrev pub Lands : Option ℕ → Type 0
  Lands none = ⊥
  Lands (some folio) = InLtram folio

  -- `n` allocations in a row all land in LtRAM.
  abbrev pub LandsEach : ℕ → k.State → Type 0
  LandsEach zero s = Unit
  LandsEach (suc n) s = let (r, s') = k.folio_alloc (ltram_gfp k) 0 s in Lands r × LandsEach n s'

  got-le : (r : Option ℕ) → got r ≤ 1
  unfolding got
  got-le r = ground arith

  Lands-iff : (r : Option ℕ) → ((got r ≡ 1) × (misplaced k r ≡ 0)) ↔ Lands r
  unfolding got misplaced
  Lands-iff none = ground arith
  Lands-iff (some folio) = ground arith

  alloc_loop_counts :
      (n a e : ℕ) (s : k.State)
      → let b = (alloc_loop k n a e s).0 in (b.allocated ≤ a + n) × (e ≤ b.errors)
  unfolding alloc_loop
  alloc_loop_counts zero a e s = omega arith
  alloc_loop_counts (suc n) a e s =
      let (r, s') = k.folio_alloc (ltram_gfp k) 0 s in
      let ih = alloc_loop_counts n (a + got r) (e + misplaced k r) s' in omega (arith, got-le r)

  alloc_loop-LandsEach :
      (n a e : ℕ) (s : k.State)
      → let b = (alloc_loop k n a e s).0 in ((b.allocated ≡ a + n) × (b.errors ≡ e)) ↔ LandsEach n s
  unfolding alloc_loop
  alloc_loop-LandsEach zero a e s = (λ _. tt, λ _. (omega arith, refl))
  alloc_loop-LandsEach (suc n) a e s =
      let (r, s') = k.folio_alloc (ltram_gfp k) 0 s in
      let ih = alloc_loop-LandsEach n (a + got r) (e + misplaced k r) s' in
      let bounds = alloc_loop_counts n (a + got r) (e + misplaced k r) s' in
      let here = Lands-iff r in
      let small = got-le r in
      (
        λ h. (here.0 (omega arith, omega arith), ih.0 (omega arith, omega arith)),
        λ h. let now = here.1 h.0 in let later = ih.1 h.1 in (omega arith, omega arith),
      )

  -- The bulk test passes exactly when its array was allocated, its count is not negative and each of
  -- its allocations landed on node 1 in ZONE_LTRAM.
  pub bulk_allocation_passes :
      (bulk_count : ℤ) (s : k.State)
      → let (found, s') = k.kmalloc_array (to_size bulk_count) 8 s in
        ((test_bulk_allocation k bulk_count s).0 ≡ ok tt) ↔ (
          (found ≡ true)
          × (bulk_count ≡ pos (rounds bulk_count))
          × LandsEach (rounds bulk_count) s')
  unfolding test_bulk_allocation
  bulk_allocation_passes bulk_count s =
      let (found, s') = k.kmalloc_array (to_size bulk_count) 8 s in
      let b = (alloc_loop k (rounds bulk_count) 0 0 s').0 in
      let all = alloc_loop-LandsEach (rounds bulk_count) 0 0 s' in
      (
        λ h.
            let checks : (found ≡ true) × (pos b.allocated ≡ bulk_count) × (b.errors ≡ 0) =
              ground (arith, eqb_ℤ_iff (pos b.allocated) bulk_count) in
            let count : b.allocated ≡ rounds bulk_count = ap rounds checks.1 in
            (checks.0, sym checks.1 ∙ ap pos count, all.0 (omega arith, checks.2)),
        λ h. let counts = all.1 h.2 in ground (arith, eqb_ℤ_iff (pos b.allocated) bulk_count),
      )

  -- Where the kernel gives a folio that has no kernel address, the test that writes and reads a
  -- pattern fails, while the test that frees and allocates again stores through the NULL address.
  pub no_address :
      (s : k.State) (folio : ℕ)
      → (k.folio_alloc (ltram_gfp k) 0 s).0 ≡ some folio
      → k.folio_address folio ≡ none
      → ((test_write_then_read k s).0 ≡ failed) × ((test_alloc_free_realloc k s).0 ≡ oops)
  unfolding test_write_then_read test_alloc_free_realloc
  no_address s folio e n = ground arith

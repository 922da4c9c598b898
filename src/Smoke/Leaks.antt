-- ===== src/Smoke/Leaks.antt =====
-- Which folios the tests of ltram_smoketest.c still hold when they return.
use ltram_policy_bench.Prelude.{
  ℕ, zero, suc, ◌+◌, ◌-◌, ◌≡◌, Option, none, some, List, [], ◌∷◌, arith, ◌==◌, inl, inr,
  Option-cases, if◌then◌else◌,
}
use ltram_policy_bench.Prelude.Int.{ℤ, rounds, to_size}
use ltram_policy_bench.Kernel.{Kernel}
use ltram_policy_bench.Smoke.Outcomes.{Outcome, ok, failed, oops}
use ltram_policy_bench.Smoke.{
  got, misplaced, cafebabe, ltram_gfp, alloc_loop, free_loop, test_bulk_allocation,
  test_write_then_read, test_kernel_alloc_avoids_ltram, test_highuser_alloc_avoids_ltram,
}

abbrev pub one : ℕ → ℕ → ℕ
one folio f = if folio == f then 1 else 0

-- The reference that an allocation gives.
abbrev pub taken : Option ℕ → ℕ → ℕ
taken none f = 0
taken (some folio) f = one folio f

-- The reference counting that the allocator documents: what the caller holds of each folio.
pub record RefCount (k : Kernel) : Type 0 where
  pub held : k.State → ℕ → ℕ
  pub folio_alloc :
      (gfp order : ℕ) (s : k.State) (f : ℕ)
      → held (k.folio_alloc gfp order s).1 f ≡ held s f + taken (k.folio_alloc gfp order s).0 f
  pub folio_put :
      (folio : ℕ) (s : k.State) (f : ℕ) → held (k.folio_put folio s) f ≡ held s f - one folio f
  pub kmalloc_array :
      (n size : ℕ) (s : k.State) (f : ℕ) → held (k.kmalloc_array n size s).1 f ≡ held s f
  pub kfree : (s : k.State) (f : ℕ) → held (k.kfree s) f ≡ held s f
  pub write_u32 : (kva v : ℕ) (s : k.State) (f : ℕ) → held (k.write_u32 kva v s) f ≡ held s f
  pub memset : (kva v n : ℕ) (s : k.State) (f : ℕ) → held (k.memset kva v n s) f ≡ held s f

-- What a test keeps when it fails after an allocation.
abbrev pub kept : Outcome (Unit {0}) → Option ℕ → ℕ → ℕ
kept (ok _) r f = 0
kept failed r f = taken r f
kept oops r f = taken r f

-- The references that the array of the bulk test holds.
pub in_use : List (Option ℕ) → ℕ → ℕ
in_use [] f = 0
in_use (r ∷ rs) f = taken r f + in_use rs f

module _ (k : Kernel) (refs : RefCount k) where
  open refs use {held}

  abbrev pub found : ℕ → k.State → Option ℕ
  found gfp s = (k.folio_alloc gfp 0 s).0

  pub write_then_read_held :
      (s : k.State) (f : ℕ)
      → let (r, s') = test_write_then_read k s in
        held s' f ≡ held s f + kept r (found (ltram_gfp k) s) f
  unfolding test_write_then_read
  write_then_read_held s f = elim (Option-cases (found (ltram_gfp k) s)) [
    | inl e ↦ ground (arith, refs.folio_alloc (ltram_gfp k) 0 s f)
    | inr (x, e) ↦ elim (Option-cases (k.folio_address x)) [
      | inl e' ↦ ground (arith, refs.folio_alloc (ltram_gfp k) 0 s f)
      | inr (kva, e') ↦
          let s' = (k.folio_alloc (ltram_gfp k) 0 s).1 in
          let s'' = k.write_u32 kva cafebabe s' in
          ground (
            arith,
            refs.folio_alloc (ltram_gfp k) 0 s f,
            refs.write_u32 kva cafebabe s' f,
            refs.folio_put x s'' f,
          )
    ]
  ]

  pub kernel_alloc_held :
      (s : k.State) (f : ℕ)
      → let (r, s') = test_kernel_alloc_avoids_ltram k s in
        held s' f ≡ held s f + kept r (found k.gfp_kernel s) f
  unfolding test_kernel_alloc_avoids_ltram
  kernel_alloc_held s f = elim (Option-cases (found k.gfp_kernel s)) [
    | inl e ↦ ground (arith, refs.folio_alloc k.gfp_kernel 0 s f)
    | inr (x, e) ↦
        let s' = (k.folio_alloc k.gfp_kernel 0 s).1 in
        ground (arith, refs.folio_alloc k.gfp_kernel 0 s f, refs.folio_put x s' f)
  ]

  pub highuser_alloc_held :
      (s : k.State) (f : ℕ)
      → let (r, s') = test_highuser_alloc_avoids_ltram k s in
        held s' f ≡ held s f + kept r (found k.gfp_highuser s) f
  unfolding test_highuser_alloc_avoids_ltram
  highuser_alloc_held s f = elim (Option-cases (found k.gfp_highuser s)) [
    | inl e ↦ ground (arith, refs.folio_alloc k.gfp_highuser 0 s f)
    | inr (x, e) ↦
        let s' = (k.folio_alloc k.gfp_highuser 0 s).1 in
        ground (arith, refs.folio_alloc k.gfp_highuser 0 s f, refs.folio_put x s' f)
  ]

  alloc_loop_held :
      (n a e : ℕ) (s : k.State) (f : ℕ)
      → let (b, s') = alloc_loop k n a e s in held s' f ≡ held s f + in_use b.folios f
  unfolding alloc_loop in_use
  alloc_loop_held zero a e s f = omega arith
  alloc_loop_held (suc n) a e s f =
      let (r, s') = k.folio_alloc (ltram_gfp k) 0 s in
      omega (
        arith,
        alloc_loop_held n (a + got r) (e + misplaced k r) s' f,
        refs.folio_alloc (ltram_gfp k) 0 s f,
      )

  free_loop_held :
      (rs : List (Option ℕ)) (s : k.State) (f : ℕ)
      → held (free_loop k rs s) f ≡ held s f - in_use rs f
  unfolding free_loop in_use
  free_loop_held [] s f = omega arith
  free_loop_held (none ∷ rs) s f = omega (arith, free_loop_held rs s f)
  free_loop_held (some x ∷ rs) s f =
      omega (arith, free_loop_held rs (k.folio_put x s) f, refs.folio_put x s f)

  -- On a kernel that counts references, the bulk test holds as many references of each folio when
  -- it returns as when it began, whatever it was given and whether it passed.
  pub bulk_allocation_held :
      (bulk_count : ℤ) (s : k.State) (f : ℕ)
      → held (test_bulk_allocation k bulk_count s).1 f ≡ held s f
  unfolding test_bulk_allocation
  bulk_allocation_held bulk_count s f =
      let (m, s₁) = k.kmalloc_array (to_size bulk_count) 8 s in
      let (b, s₂) = alloc_loop k (rounds bulk_count) 0 0 s₁ in
      let s₃ = free_loop k b.folios s₂ in
      ground (
        arith,
        refs.kmalloc_array (to_size bulk_count) 8 s f,
        alloc_loop_held (rounds bulk_count) 0 0 s₁ f,
        free_loop_held b.folios s₂ f,
        refs.kfree s₃ f,
      )

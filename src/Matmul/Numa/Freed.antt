-- ===== src/Matmul/Numa/Freed.antt =====
-- The allocations of workloads/matmul/matrix_multiply.c are given back.
use ltram_policy_bench.Prelude.{
  ℕ, zero, suc, ◌+◌, ◌-◌, ◌*◌, ◌≡◌, ◌∙◌, refl, Option, none, some, arith, ◌==◌, if◌then◌else◌, inl,
  inr, Bool-cases,
}
use ltram_policy_bench.Prelude.Int.{ℤ, rounds}
use ltram_policy_bench.Matmul.{Floats, side, Array}
use ltram_policy_bench.Matmul.Numa.{
  Numa, matmul_at, free_some, fill_loop, fill_random, iterate, with_arrays, arrays, numa_mm_repeat,
}

-- One for the address of an allocation.
abbrev pub given : Option ℕ → ℕ → ℕ
given none x = 0
given (some p) x = if p == x then 1 else 0

-- How many allocations at an address are live.
pub record Live (f : Floats) (nu : Numa f) : Type 0 where
  pub live : nu.State → ℕ → ℕ
  pub alloc_onnode :
      (bytes node : ℕ) (s : nu.State) (x : ℕ)
      → let (p, s') = nu.alloc_onnode bytes node s in live s' x ≡ live s x + given p x
  pub free :
      (p bytes : ℕ) (s : nu.State) (x : ℕ)
      → live (nu.free p bytes s) x ≡ live s x - (if p == x then 1 else 0)
  pub srand_time : (s : nu.State) (x : ℕ) → live (nu.srand_time s) x ≡ live s x
  pub store_rand : (p i : ℕ) (s : nu.State) (x : ℕ) → live (nu.store_rand p i s) x ≡ live s x
  pub mprotect_read :
      (p bytes : ℕ) (s : nu.State) (x : ℕ) → live (nu.mprotect_read p bytes s) x ≡ live s x
  pub memset : (p v bytes : ℕ) (s : nu.State) (x : ℕ) → live (nu.memset p v bytes s) x ≡ live s x
  pub write_array :
      (p : ℕ) (v : Array f) (s : nu.State) (x : ℕ) → live (nu.write_array p v s) x ≡ live s x

module _ (f : Floats) (nu : Numa f) (l : Live f nu) where
  fill_loop-live :
      (n i p : ℕ) (s : nu.State) (x : ℕ) → l.live (fill_loop f nu n i p s) x ≡ l.live s x
  unfolding fill_loop
  fill_loop-live zero i p s x = refl
  fill_loop-live (suc n) i p s x =
      fill_loop-live n (suc i) p (nu.store_rand p i s) x ∙ l.store_rand p i s x

  fill_random-live :
      (p n seed : ℕ) (s : nu.State) (x : ℕ) → l.live (fill_random f nu p n seed s) x ≡ l.live s x
  unfolding fill_random
  fill_random-live p n seed s x = fill_loop-live n 0 p (nu.srand_time s) x ∙ l.srand_time s x

  matmul_at-live :
      (p a q : ℕ) (s : nu.State) (x : ℕ) → l.live (matmul_at f nu p a q s) x ≡ l.live s x
  unfolding matmul_at
  matmul_at-live p a q s x = l.write_array p _ s x

  -- The two pointers stay the same two, and nothing is allocated or freed.
  iterate-live :
      (n bytes a result tmp : ℕ) (s : nu.State) (x : ℕ)
      → let ((result', tmp'), s') = iterate f nu n bytes a result tmp s in
        (l.live s' x ≡ l.live s x)
        × (given (some result') x + given (some tmp') x
            ≡ given (some result) x + given (some tmp) x)
  unfolding iterate
  iterate-live zero bytes a result tmp s x = (refl, refl)
  iterate-live (suc n) bytes a result tmp s x =
      let s₁ = nu.memset tmp 0 bytes s in
      let ih = iterate-live n bytes a tmp result (matmul_at f nu tmp a result s₁) x in
      (ih.0 ∙ matmul_at-live tmp a result s₁ x ∙ l.memset tmp 0 bytes s x, omega (arith, ih.1))

  with_arrays-live :
      (n bytes result a tmp : ℕ) (s : nu.State) (x : ℕ)
      → l.live (with_arrays f nu n bytes result a tmp s) x
        ≡ l.live s x - (given (some result) x + given (some a) x + given (some tmp) x)
  unfolding with_arrays
  with_arrays-live n bytes result a tmp s x =
      let s₁ = fill_random f nu result (side * side) 0x1234 s in
      let s₂ = fill_random f nu a (side * side) 0x9876 s₁ in
      let s₃ = nu.mprotect_read a bytes s₂ in
      let ((result', tmp'), s₄) = iterate f nu n bytes a result tmp s₃ in
      let s₅ = nu.free tmp' bytes s₄ in
      let s₆ = nu.free a bytes s₅ in
      let loop = iterate-live n bytes a result tmp s₃ x in
      omega (
        arith,
        fill_random-live result (side * side) 0x1234 s x,
        fill_random-live a (side * side) 0x9876 s₁ x,
        l.mprotect_read a bytes s₂ x,
        loop.0,
        loop.1,
        l.free tmp' bytes s₄ x,
        l.free a bytes s₅ x,
        l.free result' bytes s₆ x,
      )

  free_some-live :
      (p : Option ℕ) (bytes : ℕ) (s : nu.State) (x : ℕ)
      → l.live (free_some f nu p bytes s) x ≡ l.live s x - given p x
  unfolding free_some
  free_some-live none bytes s x = omega arith
  free_some-live (some p) bytes s x = l.free p bytes s x

  none-live :
      (result a tmp : Option ℕ) (bytes : ℕ) (s : nu.State) (x : ℕ)
      → l.live (free_some f nu tmp bytes (free_some f nu a bytes (free_some f nu result bytes s))) x
        ≡ l.live s x - (given result x + given a x + given tmp x)
  none-live result a tmp bytes s x =
      let s₁ = free_some f nu result bytes s in
      let s₂ = free_some f nu a bytes s₁ in
      omega (
        arith,
        free_some-live result bytes s x,
        free_some-live a bytes s₁ x,
        free_some-live tmp bytes s₂ x,
      )

  arrays-live :
      (n bytes : ℕ) (result a tmp : Option ℕ) (s : nu.State) (x : ℕ)
      → l.live (arrays f nu n bytes result a tmp s) x
        ≡ l.live s x - (given result x + given a x + given tmp x)
  unfolding arrays
  arrays-live n bytes (some result) (some a) (some tmp) s x =
      with_arrays-live n bytes result a tmp s x
  arrays-live n bytes none a tmp s x = none-live none a tmp bytes s x
  arrays-live n bytes (some result) none tmp s x = none-live (some result) none tmp bytes s x
  arrays-live n bytes (some result) (some a) none s x =
      none-live (some result) (some a) none bytes s x

  -- With allocations that count as documented, `numa_mm_repeat` gives back what it allocates: at
  -- each address as many allocations are live when it returns as when it was called. This holds for
  -- each number of iterations, also with the pointers `result` and `tmp` swapped, when libnuma is
  -- not there, and when any of the three allocations fails.
  pub numa_mm_repeat_held :
      (iters : ℤ) (s : nu.State) (x : ℕ) → l.live (numa_mm_repeat f nu iters s) x ≡ l.live s x
  unfolding numa_mm_repeat
  numa_mm_repeat_held iters s x =
      let bytes = side * side * 4 in
      let (result, s₁) = nu.alloc_onnode bytes 0 s in
      let (a, s₂) = nu.alloc_onnode bytes 0 s₁ in
      let (tmp, s₃) = nu.alloc_onnode bytes 0 s₂ in
      let freed : l.live (arrays f nu (rounds iters) bytes result a tmp s₃) x ≡ l.live s x = omega (
        arith,
        l.alloc_onnode bytes 0 s x,
        l.alloc_onnode bytes 0 s₁ x,
        l.alloc_onnode bytes 0 s₂ x,
        arrays-live (rounds iters) bytes result a tmp s₃ x,
      ) in
      elim (Bool-cases (nu.unavailable s)) [ inl e ↦ rw e refl | inr e ↦ rw e freed ]

-- ===== src/Matmul/Numa.antt =====
-- numa_mm_repeat of workloads/matmul/matrix_multiply.c: its three arrays on NUMA nodes. The calls of
-- libnuma, of mprotect, of memset and of the random source are a parameter, and so is the memory of
-- the arrays; the product is the one of the parent.
pub mod Freed
use ltram_policy_bench.Prelude.{ℕ, zero, suc, ◌*◌, Bool, ◌||◌, Option, none, some, if◌then◌else◌}
use ltram_policy_bench.Prelude.Int.{ℤ, rounds}
use ltram_policy_bench.Matmul.{Floats, side, Array, matmul}

-- `numa_available() < 0` as a Boolean; NULL as `none`; `store_rand` writes one element of a
-- pointer's array from rand(). `array` is what a pointer's array holds, and `write_array` puts it
-- there.
pub record Numa (f : Floats) : Type 1 where
  pub State : Type 0
  pub unavailable : State → Bool
  pub alloc_onnode : ℕ → ℕ → State → Option ℕ × State
  pub free : ℕ → ℕ → State → State
  pub srand_time : State → State
  pub store_rand : ℕ → ℕ → State → State
  pub mprotect_read : ℕ → ℕ → State → State
  pub memset : ℕ → ℕ → ℕ → State → State
  pub array : ℕ → State → Array f
  pub write_array : ℕ → Array f → State → State

module _ (f : Floats) (nu : Numa f) where
  -- `if (p) numa_free(p, bytes);`
  unfoldable pub free_some : Option ℕ → ℕ → nu.State → nu.State
  free_some none bytes s = s
  free_some (some p) bytes s = nu.free p bytes s

  unfoldable pub fill_loop : ℕ → ℕ → ℕ → nu.State → nu.State
  fill_loop zero i x s = s
  fill_loop (suc n) i x s = fill_loop n (suc i) x (nu.store_rand x i s)

  -- The seed is not used.
  unfoldable pub fill_random : ℕ → ℕ → ℕ → nu.State → nu.State
  fill_random x n seed s = fill_loop n 0 x (nu.srand_time s)

  -- `matmul` on the arrays at three pointers, which do not overlap.
  unfoldable pub matmul_at : ℕ → ℕ → ℕ → nu.State → nu.State
  matmul_at c a b s = nu.write_array c (matmul f (nu.array c s) (nu.array a s) (nu.array b s)) s

  -- The iterations, with the pointers `result` and `tmp`, which are swapped each time.
  unfoldable pub iterate : ℕ → ℕ → ℕ → ℕ → ℕ → nu.State → (ℕ × ℕ) × nu.State
  iterate zero bytes a result tmp s = ((result, tmp), s)
  iterate (suc n) bytes a result tmp s =
      iterate n bytes a tmp result (matmul_at tmp a result (nu.memset tmp 0 bytes s))

  -- From the allocations that succeeded on.
  unfoldable pub with_arrays : ℕ → ℕ → ℕ → ℕ → ℕ → nu.State → nu.State
  with_arrays n bytes result a tmp s =
      let s₁ = fill_random result (side * side) 0x1234 s in
      let s₂ = fill_random a (side * side) 0x9876 s₁ in
      let ((result', tmp'), s₃) = iterate n bytes a result tmp (nu.mprotect_read a bytes s₂) in
      nu.free result' bytes (nu.free a bytes (nu.free tmp' bytes s₃))

  unfoldable pub arrays : ℕ → ℕ → Option ℕ → Option ℕ → Option ℕ → nu.State → nu.State
  arrays n bytes (some result) (some a) (some tmp) s = with_arrays n bytes result a tmp s
  arrays n bytes result a tmp s = free_some tmp bytes (free_some a bytes (free_some result bytes s))

  unfoldable pub numa_mm_repeat : ℤ → nu.State → nu.State
  numa_mm_repeat iters s =
      if nu.unavailable s
      then s
      else (let bytes = side * side * 4 in
          let (result, s₁) = nu.alloc_onnode bytes 0 s in
          let (a, s₂) = nu.alloc_onnode bytes 0 s₁ in
          let (tmp, s₃) = nu.alloc_onnode bytes 0 s₂ in arrays (rounds iters) bytes result a tmp s₃)

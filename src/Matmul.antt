-- ===== src/Matmul.antt =====
-- workloads/matmul/matrix_multiply.c. An array is a function from indices; the three arrays do not
-- overlap, since each is an allocation of its own. The numbers are a parameter with no laws.
pub mod Product
pub mod Numa
use ltram_policy_bench.Prelude.{ℕ, zero, suc, ◌+◌, ◌*◌, ◌==◌, if◌then◌else◌}

-- `float` with the operations that the loops use, and 0 as memset writes it.
pub record Floats : Type 1 where
  pub Float : Type 0
  pub add : Float → Float → Float
  pub mul : Float → Float → Float
  pub zeroes : Float

abbrev pub side : ℕ
side = 1024

module _ (f : Floats) where
  abbrev pub Array : Type 0
  Array = ℕ → f.Float

  abbrev pub store : ℕ → f.Float → Array → Array
  store i v a x = if x == i then v else a x

  -- The loops over `j`, `k` and `i`: the rounds that are left, then the index.
  unfoldable pub j_loop : ℕ → ℕ → ℕ → ℕ → f.Float → Array → Array → Array
  j_loop zero j i k a_ik b c = c
  j_loop (suc n) j i k a_ik b c =
      let at = i * side + j in
      j_loop n (j + 1) i k a_ik b (store at (f.add (c at) (f.mul a_ik (b (k * side + j)))) c)

  unfoldable pub k_loop : ℕ → ℕ → ℕ → Array → Array → Array → Array
  k_loop zero k i a b c = c
  k_loop (suc n) k i a b c = k_loop n (k + 1) i a b (j_loop side 0 i k (a (i * side + k)) b c)

  unfoldable pub i_loop : ℕ → ℕ → Array → Array → Array → Array
  i_loop zero i a b c = c
  i_loop (suc n) i a b c = i_loop n (i + 1) a b (k_loop side 0 i a b c)

  unfoldable pub matmul : Array → Array → Array → Array
  matmul c a b = i_loop side 0 a b c

  -- The loop of `numa_mm_repeat`: memset, the product, and the swap of the two pointers.
  unfoldable pub mm_repeat : ℕ → Array → Array → Array → Array × Array
  mm_repeat zero a result tmp = (result, tmp)
  mm_repeat (suc n) a result tmp = mm_repeat n a (matmul (λ x. f.zeroes) a result) result

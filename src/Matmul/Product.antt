-- ===== src/Matmul/Product.antt =====
-- The loops of workloads/matmul/matrix_multiply.c compute the product.
use mathlib.Core.Path.{subst}
use ltram_policy_bench.Prelude.{ℕ, zero, suc, ◌+◌, ◌*◌, ◌≤◌, ◌<◌, ◌≡◌, ◌∙◌, refl, ap, arith}
use ltram_policy_bench.Matmul.{
  Floats, Array, side, store, j_loop, k_loop, i_loop, matmul, mm_repeat,
}

module _ (f : Floats) where
  -- The terms of row `i` and column `j` from `k` on, added one after the other to a number.
  unfoldable pub dot : ℕ → ℕ → ℕ → ℕ → Array f → Array f → f.Float → f.Float
  dot zero k i j a b acc = acc
  dot (suc n) k i j a b acc =
      dot n (k + 1) i j a b (f.add acc (f.mul (a (i * side + k)) (b (k * side + j))))

  j_loop-done :
      (n j₀ i k : ℕ) (a_ik : f.Float) (b c : Array f) (x : ℕ)
      → x < i * side + j₀
      → j_loop f n j₀ i k a_ik b c x ≡ c x
  unfolding j_loop
  j_loop-done zero j₀ i k a_ik b c x h = refl
  j_loop-done (suc n) j₀ i k a_ik b c x h =
      let at = i * side + j₀ in
      let c' = store f at (f.add (c at) (f.mul a_ik (b (k * side + j₀)))) c in
      j_loop-done n (j₀ + 1) i k a_ik b c' x (omega arith) ∙ ground arith

  j_loop-above :
      (n j₀ i k : ℕ) (a_ik : f.Float) (b c : Array f) (x : ℕ)
      → i * side + j₀ + n ≤ x
      → j_loop f n j₀ i k a_ik b c x ≡ c x
  unfolding j_loop
  j_loop-above zero j₀ i k a_ik b c x h = refl
  j_loop-above (suc n) j₀ i k a_ik b c x h =
      let at = i * side + j₀ in
      let c' = store f at (f.add (c at) (f.mul a_ik (b (k * side + j₀)))) c in
      j_loop-above n (j₀ + 1) i k a_ik b c' x (omega arith) ∙ ground arith

  -- `d` is the distance from the index of the loop to the column.
  j_loop-at :
      (n j₀ d i k : ℕ) (a_ik : f.Float) (b c : Array f)
      → d < n
      → j_loop f n j₀ i k a_ik b c (i * side + (j₀ + d))
        ≡ f.add (c (i * side + (j₀ + d))) (f.mul a_ik (b (k * side + (j₀ + d))))
  unfolding j_loop
  j_loop-at zero j₀ d i k a_ik b c h = absurd (omega arith)
  j_loop-at (suc n) j₀ zero i k a_ik b c h =
      let at = i * side + j₀ in
      let c' = store f at (f.add (c at) (f.mul a_ik (b (k * side + j₀)))) c in
      let e : j₀ + 0 ≡ j₀ = omega arith in
      rw e (j_loop-done n (j₀ + 1) i k a_ik b c' at (omega arith) ∙ ground arith)
  j_loop-at (suc n) j₀ (suc d) i k a_ik b c h =
      let at = i * side + j₀ in
      let c' = store f at (f.add (c at) (f.mul a_ik (b (k * side + j₀)))) c in
      let x = i * side + (j₀ + 1 + d) in
      let e : j₀ + suc d ≡ j₀ + 1 + d = omega arith in
      let kept : c' x ≡ c x = ground arith in
      rw e (
        j_loop-at n (j₀ + 1) d i k a_ik b c' (omega arith)
        ∙ ap (λ v. f.add v (f.mul a_ik (b (k * side + (j₀ + 1 + d))))) kept)

  -- A row of the product: the columns of that row, and no other number.
  k_loop-at :
      (n k i j : ℕ) (a b c : Array f)
      → j < side
      → k_loop f n k i a b c (i * side + j) ≡ dot n k i j a b (c (i * side + j))
  unfolding k_loop dot
  k_loop-at zero k i j a b c h = refl
  k_loop-at (suc n) k i j a b c h =
      let a_ik = a (i * side + k) in
      let z : 0 + j ≡ j = omega arith in
      let one : j_loop f side 0 i k a_ik b c (i * side + j)
          ≡ f.add (c (i * side + j)) (f.mul a_ik (b (k * side + j))) =
        subst
          (λ m.
            j_loop f side 0 i k a_ik b c (i * side + m)
            ≡ f.add (c (i * side + m)) (f.mul a_ik (b (k * side + m))))
          z (j_loop-at side 0 j i k a_ik b c h) in
      k_loop-at n (k + 1) i j a b (j_loop f side 0 i k a_ik b c) h ∙ ap (dot n (k + 1) i j a b) one

  k_loop-below : (n k i : ℕ) (a b c : Array f) (x : ℕ) → x < i * side → k_loop f n k i a b c x ≡ c x
  unfolding k_loop
  k_loop-below zero k i a b c x h = refl
  k_loop-below (suc n) k i a b c x h =
      let a_ik = a (i * side + k) in
      k_loop-below n (k + 1) i a b (j_loop f side 0 i k a_ik b c) x h
      ∙ j_loop-done side 0 i k a_ik b c x (omega arith)

  k_loop-above :
      (n k i : ℕ) (a b c : Array f) (x : ℕ) → i * side + side ≤ x → k_loop f n k i a b c x ≡ c x
  unfolding k_loop
  k_loop-above zero k i a b c x h = refl
  k_loop-above (suc n) k i a b c x h =
      let a_ik = a (i * side + k) in
      k_loop-above n (k + 1) i a b (j_loop f side 0 i k a_ik b c) x h
      ∙ j_loop-above side 0 i k a_ik b c x (omega arith)

  i_loop-done : (n i : ℕ) (a b c : Array f) (x : ℕ) → x < i * side → i_loop f n i a b c x ≡ c x
  unfolding i_loop
  i_loop-done zero i a b c x h = refl
  i_loop-done (suc n) i a b c x h =
      i_loop-done n (i + 1) a b (k_loop f side 0 i a b c) x (omega arith)
      ∙ k_loop-below side 0 i a b c x h

  i_loop-at :
      (n i₀ d j : ℕ) (a b c : Array f)
      → d < n
      → j < side
      → let x = (i₀ + d) * side + j in i_loop f n i₀ a b c x ≡ dot side 0 (i₀ + d) j a b (c x)
  unfolding i_loop
  i_loop-at zero i₀ d j a b c h k = absurd (omega arith)
  i_loop-at (suc n) i₀ zero j a b c h k =
      let e : i₀ + 0 ≡ i₀ = omega arith in
      rw e (
        i_loop-done n (i₀ + 1) a b (k_loop f side 0 i₀ a b c) (i₀ * side + j) (omega arith)
        ∙ k_loop-at side 0 i₀ j a b c k)
  i_loop-at (suc n) i₀ (suc d) j a b c h k =
      let e : i₀ + suc d ≡ i₀ + 1 + d = omega arith in
      let x = (i₀ + 1 + d) * side + j in
      rw e (
        i_loop-at n (i₀ + 1) d j a b (k_loop f side 0 i₀ a b c) (omega arith) k
        ∙ ap (dot side 0 (i₀ + 1 + d) j a b) (k_loop-above side 0 i₀ a b c x (omega arith)))

  -- Each number of the first array has the products of its row of the second array and its column
  -- of the third array added to it, from the first to the last.
  pub matmul-dot :
      (c a b : Array f) (i j : ℕ)
      → i < side
      → j < side
      → matmul f c a b (i * side + j) ≡ dot side 0 i j a b (c (i * side + j))
  unfolding matmul
  matmul-dot c a b i j h k =
      let z : 0 + i ≡ i = omega arith in
      subst (λ m. i_loop f side 0 a b c (m * side + j) ≡ dot side 0 m j a b (c (m * side + j))) z
        (i_loop-at side 0 i j a b c h k)

  mm_repeat-last :
      (n : ℕ) (a r t : Array f)
      → (mm_repeat f (suc n) a r t).0 ≡ matmul f (λ x. f.zeroes) a (mm_repeat f n a r t).0
  unfolding mm_repeat
  mm_repeat-last zero a r t = refl
  mm_repeat-last (suc n) a r t = mm_repeat-last n a (matmul f (λ x. f.zeroes) a r) r

  -- Each further iteration replaces the result by the product of the matrix and the result so far,
  -- summed from 0: whatever the two arrays that are swapped hold, nothing of them is left in it.
  pub mm_repeat-dot :
      (n i j : ℕ) (a r t : Array f)
      → i < side
      → j < side
      → (mm_repeat f (suc n) a r t).0 (i * side + j)
        ≡ dot side 0 i j a (mm_repeat f n a r t).0 f.zeroes
  mm_repeat-dot n i j a r t h k =
      ap (λ c. c (i * side + j)) (mm_repeat-last n a r t)
      ∙ matmul-dot (λ x. f.zeroes) a (mm_repeat f n a r t).0 i j h k

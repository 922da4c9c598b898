-- ===== src/RwStress/Written.antt =====
-- Which bytes workloads/rwstress/ltram_rw_stress.c writes.
use ltram_policy_bench.Prelude.{
  ℕ, zero, suc, ◌+◌, ◌*◌, ◌<◌, ◌≡◌, ◌≢◌, ◌∙◌, refl, arith, ◌==◌, if◌then◌else◌,
}
use ltram_policy_bench.RwStress.{Os, pgsz, write_loop}

-- Memory that holds what was stored last.
pub record Memory (os : Os) : Type 0 where
  pub byte : ℕ → os.State → ℕ
  pub store :
      (a v x : ℕ) (s : os.State) → byte x (os.store a v s) ≡ (if x == a then v else byte x s)

module _ (os : Os) (m : Memory os) where
  write_loop-other :
      (n i p x : ℕ) (s : os.State)
      → ((k : ℕ) → k < n → x ≢ p + (i + k * pgsz))
      → m.byte x (write_loop os n i p s) ≡ m.byte x s
  unfolding write_loop
  write_loop-other zero i p x s h = refl
  write_loop-other (suc n) i p x s h =
      let first : x ≢ p + i = λ e. h 0 (omega arith) (omega arith) in
      write_loop-other n (i + pgsz) p x (os.store (p + i) 0x5a s)
        (λ k below e. h (suc k) (omega arith) (omega arith))
      ∙ ground (arith, m.store (p + i) 0x5a x s)

  write_loop-at :
      (n i p k : ℕ) (s : os.State)
      → k < n
      → m.byte (p + (i + k * pgsz)) (write_loop os n i p s) ≡ 0x5a
  unfolding write_loop
  write_loop-at zero i p k s h = absurd (omega arith)
  write_loop-at (suc n) i p zero s h =
      let s' = os.store (p + i) 0x5a s in
      let e : p + (i + 0 * pgsz) ≡ p + i = omega arith in
      rw e (
        write_loop-other n (i + pgsz) p (p + i) s' (λ k below e. absurd (omega arith))
        ∙ ground (arith, m.store (p + i) 0x5a (p + i) s))
  write_loop-at (suc n) i p (suc k) s h =
      let e : i + suc k * pgsz ≡ i + pgsz + k * pgsz = omega arith in
      rw e (write_loop-at n (i + pgsz) p k (os.store (p + i) 0x5a s) (omega arith))

  -- The write phase writes the first byte of each page of the mapping, and leaves a byte alone that
  -- is the first one of no page.
  pub write_loop_lem :
      (n p k x : ℕ) (s : os.State)
      → k < n
      → ((l : ℕ) → l < n → x ≢ p + l * pgsz)
      → (m.byte (p + k * pgsz) (write_loop os n 0 p s) ≡ 0x5a)
        × (m.byte x (write_loop os n 0 p s) ≡ m.byte x s)
  write_loop_lem n p k x s below other =
      let e : k * pgsz ≡ 0 + k * pgsz = omega arith in
      (
        rw e (write_loop-at n 0 p k s below),
        write_loop-other n 0 p x s (λ l b e'. other l b (omega arith)),
      )

-- ===== src/Ycsb/Zipfian/Incremental.antt =====
-- The zeta sum of workloads/YCSB-C/core/zipfian_generator.h is kept up to date incrementally.
use Prim.Native.Nat.{max}
use ltram_policy_bench.Prelude.{
  ℕ, zero, suc, ◌+◌, ◌-◌, ◌≤◌, ◌≡◌, refl, sym, ap, ◌∙◌, List, [], ◌∷◌, Option, none, some, arith,
  ltb, ltb→lt, Bool-cases, Option-cases, inl, inr,
}
use ltram_policy_bench.Ycsb.Env.{Env}
use ltram_policy_bench.Ycsb.Zipfian.{
  Zipfian, zeta_loop, zeta_from, zeta, eta_of, raise_zeta, refresh, next, blank, make,
}

module _ (e : Env) where
  zeta_loop-add :
      (theta : e.Double) (m n i : ℕ) (acc : e.Double)
      → zeta_loop e theta (m + n) i acc ≡ zeta_loop e theta n (i + m) (zeta_loop e theta m i acc)
  unfolding zeta_loop
  zeta_loop-add theta zero n i acc =
      let e₁ : 0 + n ≡ n = omega arith in let e₂ : i + 0 ≡ i = omega arith in rw (e₁, e₂)
  zeta_loop-add theta (suc m) n i acc =
      let acc' = e.add acc (e.div (e.of_u64 1) (e.pow (e.of_u64 i) theta)) in
      let e₁ : suc m + n ≡ suc (m + n) = omega arith in
      let e₂ : i + suc m ≡ i + 1 + m = omega arith in
      rw (e₁, e₂) (zeta_loop-add theta m n (i + 1) acc')

  -- What the generator remembers is the sum from scratch.
  pub record IsCurrent (z : Zipfian e) : Type 0 where
    pub zeta_n : z.zeta_n ≡ zeta e z.n_for_zeta z.theta
    pub eta : z.eta ≡ eta_of e z

  raise-zeta_n :
      (num : ℕ) (z : Zipfian e)
      → z.n_for_zeta ≤ num
      → z.zeta_n ≡ zeta e z.n_for_zeta z.theta
      → (raise_zeta e num z).zeta_n ≡ zeta e num z.theta
  unfolding raise_zeta zeta zeta_from
  raise-zeta_n num z h c =
      let n = z.n_for_zeta in
      let whole : num - 0 ≡ (n - 0) + (num - n) = omega arith in
      let start : n + 1 ≡ 0 + 1 + (n - 0) = omega arith in
      rw (c, whole, start) (sym (zeta_loop-add z.theta (n - 0) (num - n) (0 + 1) (e.of_u64 0)))

  raised-IsCurrent :
      (num : ℕ) (z : Zipfian e)
      → z.n_for_zeta ≤ num
      → z.zeta_n ≡ zeta e z.n_for_zeta z.theta
      → IsCurrent (record (raise_zeta e num z) { eta = eta_of e (raise_zeta e num z) })
  unfolding raise_zeta eta_of
  raised-IsCurrent num z h c = record { zeta_n = raise-zeta_n num z h c; eta = refl }

  refresh-IsCurrent : (num : ℕ) (z : Zipfian e) → IsCurrent z → IsCurrent (refresh e num z)
  unfolding refresh
  refresh-IsCurrent num z c = elim (Bool-cases (ltb z.n_for_zeta num)) [
    | inl h ↦ rw h (raised-IsCurrent num z (omega (arith, ltb→lt)) c.zeta_n)
    | inr h ↦ rw h c
  ]

  n_for_zeta-refresh :
      (num : ℕ) (z : Zipfian e) → (refresh e num z).n_for_zeta ≡ max num z.n_for_zeta
  unfolding refresh raise_zeta
  n_for_zeta-refresh num z = ground arith

  theta-refresh : (num : ℕ) (z : Zipfian e) → (refresh e num z).theta ≡ z.theta
  unfolding refresh raise_zeta
  theta-refresh num z = ground arith

  served-IsCurrent : (z : Zipfian e) (v : ℕ) → IsCurrent z → IsCurrent (record z { last_value = v })
  unfolding eta_of
  served-IsCurrent z v c = record { zeta_n = c.zeta_n; eta = c.eta }

  -- `Next` for one number of items after another; `none` once an assertion has failed.
  unfoldable pub draws : List ℕ → Zipfian e → e.Source → Option (List ℕ × Zipfian e × e.Source)
  draws [] z r = some ([], z, r)
  draws (num ∷ nums) z r = elim (next e num z r) [
    | none ↦ none
    | some (v, z', r') ↦ elim (draws nums z' r') [
      | none ↦ none
      | some (vs, z'', r'') ↦ some (v ∷ vs, z'', r'')
    ]
  ]

  abbrev pub largest : List ℕ → ℕ → ℕ
  largest [] n = n
  largest (num ∷ nums) n = largest nums (max num n)

  -- What holds after `draws`.
  pub record Drawn (nums : List ℕ) (z z' : Zipfian e) : Type 0 where
    pub current : IsCurrent z'
    pub items : z'.n_for_zeta ≡ largest nums z.n_for_zeta
    pub theta : z'.theta ≡ z.theta

  next_state :
      (num : ℕ) (z : Zipfian e) (r : e.Source) (v : ℕ) (z' : Zipfian e) (r' : e.Source)
      → next e num z r ≡ some (v, z', r')
      → z' ≡ record (refresh e num z) { last_value = v }
  unfolding next
  next_state num z r v z' r' h = ground arith

  next-Drawn :
      (num : ℕ) (z : Zipfian e) (r : e.Source) (v : ℕ) (z' : Zipfian e) (r' : e.Source)
      → IsCurrent z
      → next e num z r ≡ some (v, z', r')
      → Drawn (num ∷ []) z z'
  next-Drawn num z r v z' r' c h =
      let zr = refresh e num z in
      rw (next_state num z r v z' r' h) (record {
        current = served-IsCurrent zr v (refresh-IsCurrent num z c);
        items = n_for_zeta-refresh num z;
        theta = theta-refresh num z;
      })

  -- However many items each call of `Next` asks for, the zeta sum that a current generator has
  -- afterwards is the one computed from scratch for the largest number it was asked for so far, and
  -- eta is the one that belongs to it.
  pub draws-Drawn :
      (nums : List ℕ) (z : Zipfian e) (r : e.Source) (vs : List ℕ) (z' : Zipfian e) (r' : e.Source)
      → IsCurrent z
      → draws nums z r ≡ some (vs, z', r')
      → Drawn nums z z'
  unfolding draws
  draws-Drawn [] z r vs z' r' c h =
      let same : z' ≡ z = ground arith in
      rw same (record { current = c; items = refl; theta = refl })
  draws-Drawn (num ∷ nums) z r vs z' r' c h = elim (Option-cases (next e num z r)) [
    | inl f ↦ absurd (ground arith)
    | inr ((v, z₁, r₁), f) ↦ elim (Option-cases (draws nums z₁ r₁)) [
      | inl g ↦ absurd (ground arith)
      | inr ((ws, z₂, r₂), g) ↦
          let same : z₂ ≡ z' = ground arith in
          let one = next-Drawn num z r v z₁ r₁ c f in
          let more = draws-Drawn nums z₁ r₁ ws z₂ r₂ one.current g in
          rw (← same) (record {
            current = more.current;
            items = more.items ∙ ap (largest nums) one.items;
            theta = more.theta ∙ one.theta;
          })
    ]
  ]

  blank-raised :
      (lo hi : ℕ) (theta : e.Double)
      → let b = blank e lo hi theta in
        let z = raise_zeta e b.num_items b in IsCurrent (record z { eta = eta_of e z })
  unfolding blank zeta zeta_from zeta_loop
  blank-raised lo hi theta =
      raised-IsCurrent (blank e lo hi theta).num_items (blank e lo hi theta) (omega arith) refl

  -- When the constructor's assertions hold, the zeta sum and eta of the generator that it makes are
  -- the ones computed from scratch.
  pub make-IsCurrent :
      (lo hi : ℕ) (theta : e.Double) (r : e.Source) (z : Zipfian e) (r' : e.Source)
      → make e lo hi theta r ≡ some (z, r')
      → IsCurrent z
  unfolding make
  make-IsCurrent lo hi theta r z r' h =
      let b = blank e lo hi theta in
      let n = b.num_items in
      let z₀ : Zipfian e = record (raise_zeta e n b) { eta = eta_of e (raise_zeta e n b) } in
      let c₀ = blank-raised lo hi theta in
      elim (Option-cases (next e n z₀ r)) [
        | inl f ↦ absurd (ground arith)
        | inr ((v, z₁, r₁), f) ↦
            let same : z₁ ≡ z = ground arith in
            let one = next-Drawn n z₀ r v z₁ r₁ c₀ f in rw (← same) one.current
      ]

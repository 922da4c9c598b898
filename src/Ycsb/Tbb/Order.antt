-- ===== src/Ycsb/Tbb/Order.antt =====
-- What does not depend on the order in which a map of the TBB library iterates.
use mathlib.Core.List.{Permᴰ}
use mathlib.Core.List.Permᴰ.{nil, cons, swap, trans}
use mathlib.Core.Path.{subst}
use ltram_policy_bench.Prelude.{◌≤◌, ◌≡◌, refl, ◌∙◌, List, ◌∷◌, arith, length}
use ltram_policy_bench.Ycsb.Text.{Bytes}
use ltram_policy_bench.Ycsb.HashString.{HashString, wrap}
use ltram_policy_bench.Ycsb.StlHashtable.{find, second}
use ltram_policy_bench.Ycsb.StlHashtable.Nodes.{occurs, IsFormed, AllFormed}

module _ {V : Type 0} where
  -- Two lists have as many nodes for a key, and the same first one.
  abbrev pub SameKey : Bytes → List (HashString × V) → List (HashString × V) → Type 0
  SameKey q xs ys =
      (occurs q xs ≡ occurs q ys) × (second (find (wrap q) xs) ≡ second (find (wrap q) ys))

  SameKey-cons :
      (q : Bytes) (x : HashString × V) (xs ys : List (HashString × V))
      → SameKey q xs ys
      → SameKey q (x ∷ xs) (x ∷ ys)
  unfolding find occurs
  SameKey-cons q (k, v) xs ys h = ground arith

  SameKey-swap :
      (q : Bytes) (x y : HashString × V) (nodes : List (HashString × V))
      → occurs q (x ∷ y ∷ nodes) ≤ 1
      → SameKey q (x ∷ y ∷ nodes) (y ∷ x ∷ nodes)
  unfolding find occurs
  SameKey-swap q (j, v) (k, w) nodes h = ground arith

  occurs-tail :
      (q : Bytes) (x : HashString × V) (nodes : List (HashString × V))
      → occurs q nodes ≤ occurs q (x ∷ nodes)
  unfolding occurs
  occurs-tail q (k, v) nodes = omega arith

  -- Where each key occurs at most once, a map has one value for it in any order.
  pub Permᴰ-SameKey :
      (q : Bytes) {xs ys : List (HashString × V)} → Permᴰ xs ys → occurs q xs ≤ 1 → SameKey q xs ys
  Permᴰ-SameKey q nil h = (refl, refl)
  Permᴰ-SameKey q (cons {a} {l₁ = xs} {l₂ = ys} e d) h =
      let ih = Permᴰ-SameKey q d (omega (arith, occurs-tail q a xs)) in
      subst (λ c. SameKey q (a ∷ xs) (c ∷ ys)) e (SameKey-cons q a xs ys ih)
  Permᴰ-SameKey q (swap {a} {b} {a' = a'} {l = l} e f) h =
      let first = subst (λ c. SameKey q (a ∷ b ∷ l) (c ∷ a ∷ l)) f (SameKey-swap q a b l h) in
      subst (λ c. SameKey q (a ∷ b ∷ l) (a' ∷ c ∷ l)) e first
  Permᴰ-SameKey q (trans d f) h =
      let one = Permᴰ-SameKey q d h in
      let two = Permᴰ-SameKey q f (omega (arith, one.0)) in (one.0 ∙ two.0, one.1 ∙ two.1)

  pub Permᴰ-AllFormed : {xs ys : List (HashString × V)} → Permᴰ xs ys → AllFormed xs → AllFormed ys
  Permᴰ-AllFormed nil h = tt
  Permᴰ-AllFormed (cons {a} e d) h =
      (subst {A = HashString × V} (λ c. IsFormed c.0) e h.0, Permᴰ-AllFormed d h.1)
  Permᴰ-AllFormed (swap e f) h = (
    subst {A = HashString × V} (λ c. IsFormed c.0) f h.1.0,
    (subst {A = HashString × V} (λ c. IsFormed c.0) e h.0, h.1.1),
  )
  Permᴰ-AllFormed (trans d f) h = Permᴰ-AllFormed f (Permᴰ-AllFormed d h)

  pub Permᴰ-length : {xs ys : List (HashString × V)} → Permᴰ xs ys → length xs ≡ length ys
  Permᴰ-length nil = refl
  Permᴰ-length (cons e d) = omega (arith, Permᴰ-length d)
  Permᴰ-length (swap e f) = refl
  Permᴰ-length (trans d f) = Permᴰ-length d ∙ Permᴰ-length f

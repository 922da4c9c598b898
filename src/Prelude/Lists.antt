-- ===== src/Prelude/Lists.antt =====
-- Lists measured by native numbers, and predicates over all their items.
use Prim.Native.Nat.{ℕ, zero, suc, ◌+◌}
use mathlib.Core.Path.{◌≡◌, refl, ap}
use mathlib.Core.List.{List, [], ◌∷◌, ◌++◌, map}
use native.Mathlib.Omega.{arith}

module _ {ℓ} {A : Type ℓ} where
  abbrev pub length : List A → ℕ
  length [] = 0
  length (x ∷ xs) = suc (length xs)

  abbrev pub replicate : ℕ → A → List A
  replicate zero a = []
  replicate (suc n) a = a ∷ replicate n a

  pub length-append : (xs ys : List A) → length (xs ++ ys) ≡ length xs + length ys
  length-append [] ys = omega arith
  length-append (x ∷ xs) ys = omega (arith, length-append xs ys)

  pub length-replicate : (n : ℕ) (a : A) → length (replicate n a) ≡ n
  length-replicate zero a = refl
  length-replicate (suc n) a = ap suc (length-replicate n a)

abbrev pub All {ℓ κ} : {A : Type ℓ} → (A → Type κ) → List A → Type κ
All P [] = Unit
All P (x ∷ xs) = P x × All P xs

module _ {ℓ κ} {A : Type ℓ} where
  pub map-snoc :
      {B : Type κ} (f : A → B) (xs : List A) (x : A)
      → map f (xs ++ (x ∷ [])) ≡ map f xs ++ (f x ∷ [])
  map-snoc f [] x = refl
  map-snoc f (y ∷ xs) x = ap (λ l. f y ∷ l) (map-snoc f xs x)

  -- A predicate on a list with an element in its middle, in three parts.
  pub record AllAround (P : A → Type κ) (xs : List A) (p : A) (ys : List A) : Type κ where
    pub left : All P xs
    pub here : P p
    pub right : All P ys

  pub around_middle :
      (P : A → Type κ) (xs : List A) (p : A) (ys : List A)
      → All P (xs ++ p ∷ ys)
      → AllAround P xs p ys
  around_middle P [] p ys h = record { left = tt; here = h.0; right = h.1 }
  around_middle P (x ∷ xs) p ys h =
      let s = around_middle P xs p ys h.1 in
      record { left = (h.0, s.left); here = s.here; right = s.right }

  pub with_middle :
      (P : A → Type κ) (xs : List A) (p : A) (ys : List A)
      → All P xs
      → P p
      → All P ys
      → All P (xs ++ p ∷ ys)
  with_middle P [] p ys a b c = (b, c)
  with_middle P (x ∷ xs) p ys a b c = (a.0, with_middle P xs p ys a.1 b c)

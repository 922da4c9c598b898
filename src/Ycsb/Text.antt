-- ===== src/Ycsb/Text.antt =====
-- Strings of the benchmark as lists of bytes, and the C view of them.
use ltram_policy_bench.Prelude.{
  ℕ, ◌<◌, ◌≡◌, ◌↔◌, refl, List, [], ◌∷◌, Bool, true, false, ◌&&◌, arith, ◌==◌, ==_iff,
  if◌then◌else◌, All,
}

abbrev pub Bytes : Type 0
Bytes = List ℕ

-- `strcmp(a, b) == 0`, and `==` of two `std::string`.
unfoldable pub str_eq : Bytes → Bytes → Bool
str_eq [] [] = true
str_eq [] (_ ∷ _) = false
str_eq (_ ∷ _) [] = false
str_eq (a ∷ xs) (b ∷ ys) = (a == b) && str_eq xs ys

pub str_eq_iff : (a b : Bytes) → (str_eq a b ≡ true) ↔ (a ≡ b)
unfolding str_eq
str_eq_iff [] [] = ground arith
str_eq_iff [] (b ∷ ys) = ground arith
str_eq_iff (a ∷ xs) [] = ground arith
str_eq_iff (a ∷ xs) (b ∷ ys) = ground (arith, ==_iff a b, str_eq_iff xs ys)

-- `s.c_str()` as a C string: it ends before the first NUL byte.
unfoldable pub c_str : Bytes → Bytes
c_str [] = []
c_str (c ∷ cs) = if c == 0 then [] else c ∷ c_str cs

-- A string that is its own C string.
abbrev pub NoNul : Bytes → Type 0
NoNul = All (λ c. 0 < c)

pub c_str-NoNul : (s : Bytes) → NoNul s → c_str s ≡ s
unfolding c_str
c_str-NoNul [] h = refl
c_str-NoNul (c ∷ cs) h = ground (arith, c_str-NoNul cs)

pub c_str_idem : (s : Bytes) → c_str (c_str s) ≡ c_str s
unfolding c_str
c_str_idem [] = refl
c_str_idem (c ∷ cs) = ground (arith, c_str_idem cs)

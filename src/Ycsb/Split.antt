-- ===== src/Ycsb/Split.antt =====
-- Searching a string for a byte, and cutting it at a byte.
use ltram_policy_bench.Prelude.{
  ℕ, ◌≡◌, refl, List, [], ◌∷◌, ◌++◌, Bool, false, ◌||◌, arith, ◌==◌, if◌then◌else◌,
}
use ltram_policy_bench.Ycsb.Text.{Bytes}

-- Does a byte occur? The negation is `s.find(b) == std::string::npos`.
unfoldable pub has_byte : ℕ → Bytes → Bool
has_byte b [] = false
has_byte b (c ∷ cs) = (c == b) || has_byte b cs

abbrev pub in_front : ℕ → List Bytes → List Bytes
in_front c [] = (c ∷ []) ∷ []
in_front c (w ∷ ws) = (c ∷ w) ∷ ws

-- The parts between the occurrences of a byte.
unfoldable pub split : ℕ → Bytes → List Bytes
split b [] = [] ∷ []
split b (c ∷ cs) = let ws = split b cs in if c == b then [] ∷ ws else in_front c ws

pub split-word :
    (b : ℕ) (w rest : Bytes) → has_byte b w ≡ false → split b (w ++ (b ∷ rest)) ≡ w ∷ split b rest
unfolding split has_byte
split-word b [] rest h = ground arith
split-word b (c ∷ w) rest h = ground (arith, split-word b w rest)

pub split-last : (b : ℕ) (w : Bytes) → has_byte b w ≡ false → split b w ≡ w ∷ []
unfolding split has_byte
split-last b [] h = refl
split-last b (c ∷ w) h = ground (arith, split-last b w)

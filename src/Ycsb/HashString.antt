-- ===== src/Ycsb/HashString.antt =====
-- workloads/YCSB-C/lib/string.h: a C string with its length and its SDBM hash.
pub mod Sdbm
use ltram_policy_bench.Prelude.{
  ℕ, ◌+◌, ◌-◌, ◌*◌, ◌%◌, ◌^◌, ◌≡◌, ◌↔◌, refl, List, [], ◌∷◌, Bool, true, false, not, arith, ◌==◌,
  ==_iff, ltb, if◌then◌else◌, length, ap,
}
use ltram_policy_bench.Prelude.Words.{u64_mod, add64, sub64}
use ltram_policy_bench.Ycsb.Text.{Bytes, str_eq, str_eq_iff}

-- `uint64_t c = *cstr`: `char` is signed on the x86-64 machines of the bench.
unfoldable pub char_to_u64 : ℕ → ℕ
char_to_u64 c = if ltb c 128 then c else c + u64_mod - 256

-- `hash << n`
abbrev pub shl64 : ℕ → ℕ → ℕ
shl64 h n = h * 2 ^ n % u64_mod

-- One round of the loop: `hash = c + (hash << 6) + (hash << 16) - hash`.
unfoldable pub sdbm_step : ℕ → ℕ → ℕ
unfolding char_to_u64
sdbm_step hash c = sub64 (add64 (add64 (char_to_u64 c) (shl64 hash 6)) (shl64 hash 16)) hash

unfoldable pub sdbm_loop : ℕ → Bytes → ℕ
unfolding sdbm_step
sdbm_loop hash [] = hash
sdbm_loop hash (c ∷ cs) = sdbm_loop (sdbm_step hash c) cs

unfoldable pub sdbm_hash : Bytes → ℕ
unfolding sdbm_loop
sdbm_hash cstr = sdbm_loop 0 cstr

pub record HashString : Type 0 where
  pub hash : ℕ
  pub value : Bytes
  pub len : ℕ

-- `set_value`, by which both `Copy` and `Wrap` fill a string.
unfoldable pub set_value : Bytes → HashString
set_value v = record { hash = sdbm_hash v; value = v; len = length v }

-- `Copy` after its `Malloc` and `strcpy`, which leave the same bytes at a new address.
unfoldable pub copy : Bytes → HashString
unfolding set_value
copy cstr = set_value cstr

unfoldable pub wrap : Bytes → HashString
unfolding set_value
wrap cstr = set_value cstr

-- `operator==`
unfoldable pub equal : HashString → HashString → Bool
equal a b = if not (a.hash == b.hash) then false else str_eq a.value b.value

-- Comparing the hashes first changes no answer: two strings that were copied or wrapped compare
-- equal exactly when their bytes are equal.
pub equal-copy-wrap : (a b : Bytes) → (equal (copy a) (wrap b) ≡ true) ↔ (a ≡ b)
unfolding equal copy wrap
equal-copy-wrap a b = ground (arith, str_eq_iff a b, ==_iff (sdbm_hash a) (sdbm_hash b))

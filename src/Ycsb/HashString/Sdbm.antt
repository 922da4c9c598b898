-- ===== src/Ycsb/HashString/Sdbm.antt =====
-- The hash of workloads/YCSB-C/lib/string.h as a polynomial.
use ltram_policy_bench.Prelude.{ℕ, ◌+◌, ◌*◌, ◌%◌, ◌<◌, ◌≡◌, refl, [], ◌∷◌, arith}
use ltram_policy_bench.Prelude.Words.{u64_mod}
use ltram_policy_bench.Ycsb.Text.{Bytes}
use ltram_policy_bench.Ycsb.HashString.{char_to_u64, sdbm_step, sdbm_loop, sdbm_hash}

-- The bytes as the digits of a number to the base 65599, the last one lowest.
pub horner : ℕ → Bytes → ℕ
horner n [] = n
horner n (c ∷ cs) = horner (char_to_u64 c + 65599 * n) cs

step_lem : (h c : ℕ) → h < u64_mod → sdbm_step h c ≡ (char_to_u64 c + 65599 * h) % u64_mod
unfolding sdbm_step
step_lem h c p = omega arith

loop-horner : (n : ℕ) (s : Bytes) → sdbm_loop (n % u64_mod) s ≡ horner n s % u64_mod
unfolding sdbm_loop horner
loop-horner n [] = refl
loop-horner n (c ∷ cs) =
    let next = char_to_u64 c + 65599 * n in
    let step : sdbm_step (n % u64_mod) c ≡ next % u64_mod =
      omega (arith, step_lem (n % u64_mod) c (omega arith)) in
    rw step (loop-horner next cs)

-- The shifts of the loop multiply by 65599: the hash is the number whose digits to that base are
-- the bytes, modulo 2 ^ 64.
pub sdbm_hash-horner : (s : Bytes) → sdbm_hash s ≡ horner 0 s % u64_mod
unfolding sdbm_hash
sdbm_hash-horner s = loop-horner 0 s

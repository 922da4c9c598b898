-- ===== src/Ycsb/Utils.antt =====
-- workloads/YCSB-C/core/utils.h: the FNV hash and the printable character. Also `std::to_string` on
-- a `uint64_t`, whose values have at most 20 digits.
use Prim.Native.Nat.{bit_and, bit_xor}
use ltram_policy_bench.Prelude.{
  ℕ, zero, suc, ◌+◌, ◌-◌, ◌*◌, ◌/◌, ◌%◌, ◌^◌, ◌<◌, ◌≡◌, refl, ap, [], ◌∷◌, ◌++◌, arith, ◌==◌,
  if◌then◌else◌, replicate,
}
use ltram_policy_bench.Prelude.Words.{u64_mod, mul64}
use ltram_policy_bench.Ycsb.Text.{Bytes}

abbrev pub fnv_offset_basis : ℕ
fnv_offset_basis = 0xCBF29CE484222325

abbrev pub fnv_prime : ℕ
fnv_prime = 1099511628211

-- The loop of `FNVHash64`: the rounds that are left, `val` and `hash`.
unfoldable pub fnv_loop : ℕ → ℕ → ℕ → ℕ
fnv_loop zero val hash = hash
fnv_loop (suc n) val hash =
    fnv_loop n (val / 2 ^ 8) (mul64 (bit_xor hash (bit_and val 0xff)) fnv_prime)

unfoldable pub fnv_hash64 : ℕ → ℕ
fnv_hash64 val = fnv_loop 8 val fnv_offset_basis

-- `RandomPrintChar()` on what `rand()` returned.
abbrev pub print_char : ℕ → ℕ
print_char r = r % 94 + 33

-- The digits of a number in front of a text, at most as many as the first argument says.
unfoldable pub digits : ℕ → ℕ → Bytes → Bytes
digits zero n text = text
digits (suc f) n text =
    let text' = (0x30 + n % 10) ∷ text in
    let rest = digits f (n / 10) text' in if n / 10 == 0 then text' else rest

abbrev pub to_string : ℕ → Bytes
to_string n = digits 20 n []

fnv_loop_lem : (n val hash : ℕ) → hash < u64_mod → fnv_loop n val hash < u64_mod
unfolding fnv_loop
fnv_loop_lem zero val hash h = h
fnv_loop_lem (suc n) val hash h =
    fnv_loop_lem n (val / 2 ^ 8) (mul64 (bit_xor hash (bit_and val 0xff)) fnv_prime) (omega arith)

pub fnv_hash64_lem : (val : ℕ) → fnv_hash64 val < u64_mod
unfolding fnv_hash64
fnv_hash64_lem val = fnv_loop_lem 8 val fnv_offset_basis (omega arith)

-- The number that a text of digits spells after the digits of another number.
unfoldable pub number : ℕ → Bytes → ℕ
number n [] = n
number n (c ∷ cs) = number (n * 10 + (c - 0x30)) cs

power : (f : ℕ) → 10 ^ suc f ≡ 10 * 10 ^ f
power f = omega arith

number-digits : (f n : ℕ) (text : Bytes) → n < 10 ^ f → number 0 (digits f n text) ≡ number n text
unfolding digits number
number-digits zero n text h = let none_left : n ≡ 0 = omega arith in rw none_left refl
number-digits (suc f) n text h =
    let text' = (0x30 + n % 10) ∷ text in
    let smaller : n / 10 < 10 ^ f = omega (arith, power f) in
    let whole : n / 10 * 10 + (0x30 + n % 10 - 0x30) ≡ n = omega arith in
    let ih = number-digits f (n / 10) text' smaller in
    ground (arith, ih, whole, ap (λ m. number m text) whole)

pub number-zeros : (z : ℕ) (text : Bytes) → number 0 (replicate z 0x30 ++ text) ≡ number 0 text
unfolding number
number-zeros zero text = refl
number-zeros (suc z) text = number-zeros z text

pub number-to_string : (n : ℕ) → n < u64_mod → number 0 (to_string n) ≡ n
unfolding number
number-to_string n h = number-digits 20 n [] (omega arith)

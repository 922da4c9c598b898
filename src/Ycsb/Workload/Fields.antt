-- ===== src/Ycsb/Workload/Fields.antt =====
-- The fields of workloads/YCSB-C/core/core_workload.cc.
use ltram_policy_bench.Prelude.{
  ℕ, zero, suc, ◌+◌, ◌/◌, ◌%◌, ◌≤◌, ◌<◌, ◌≡◌, refl, List, [], ◌∷◌, ◌++◌, map, arith, ◌==◌,
  if◌then◌else◌, replicate, All, false, inl, inr, Bool-cases,
}
use ltram_policy_bench.Prelude.Int.{rounds}
use ltram_policy_bench.Ycsb.Text.{Bytes, str_eq, c_str}
use ltram_policy_bench.Ycsb.Db.{KvPair}
use ltram_policy_bench.Ycsb.Utils.{digits, to_string, print_char}
use ltram_policy_bench.Ycsb.Workload.{
  Choosers, Settings, Workload, field, next_value, value_loop, build_values,
}

-- The names `field0`, `field1` and so on, from one of them on.
unfoldable pub names_from : ℕ → ℕ → List Bytes
names_from zero i = []
names_from (suc n) i = (field ++ to_string i) ∷ names_from n (i + 1)

-- One character over and over, and one that can be printed.
abbrev pub IsPrintable : Bytes → Type 0
IsPrintable = All (λ b. (33 ≤ b) × (b < 127))

replicate-IsPrintable : (n b : ℕ) → 33 ≤ b → b < 127 → IsPrintable (replicate n b)
replicate-IsPrintable zero b h k = tt
replicate-IsPrintable (suc n) b h k = ((h, k), replicate-IsPrintable n b h k)

module _ (c : Choosers) where
  next_value-IsPrintable : (s : Workload c) → IsPrintable (next_value c s).0
  unfolding next_value
  next_value-IsPrintable s =
      let (len, c₁) = c.next_field_len s.choosers in
      let (r, c₂) = c.rand c₁ in
      replicate-IsPrintable len (print_char r) (omega arith) (omega arith)

  value_loop_lem :
      (n i : ℕ) (s : Workload c)
      → (map (λ p. p.0) (value_loop c n i s).0 ≡ names_from n i)
        × All (λ p. IsPrintable p.1) (value_loop c n i s).0
  unfolding value_loop names_from
  value_loop_lem zero i s = (refl, tt)
  value_loop_lem (suc n) i s =
      let ih = value_loop_lem n (i + 1) (next_value c s).1 in
      (rw ih.0 refl, (next_value-IsPrintable s, ih.1))

  -- A new record has the fields `field0`, `field1` and so on, as many as the field count says, and
  -- every character of their values can be printed and is not a space.
  pub build_values_lem :
      (w : Settings) (s : Workload c)
      → (map (λ p. p.0) (build_values c w s).0 ≡ names_from (rounds w.field_count) 0)
        × All (λ p. IsPrintable p.1) (build_values c w s).0
  unfolding build_values
  build_values_lem w s = value_loop_lem (rounds w.field_count) 0 s

none_left : (n : ℕ) (text : Bytes) → digits 0 n text ≡ text
unfolding digits
none_left n text = refl

digits-step :
    (f n : ℕ) (text : Bytes)
    → let text' = (0x30 + n % 10) ∷ text in
      digits (suc f) n text ≡ (if n / 10 == 0 then text' else digits f (n / 10) text')
unfolding digits
digits-step f n text = refl

digits_front :
    (f n : ℕ) (text : Bytes)
    → (d : ℕ) × (rest : Bytes) × (digits (suc f) n text ≡ d ∷ rest) × (0x30 ≤ d) × (d < 0x3a)
digits_front zero n text = (
  0x30 + n % 10,
  text,
  ground (arith, digits-step 0 n text, none_left (n / 10) ((0x30 + n % 10) ∷ text)),
  omega arith,
  omega arith,
)
digits_front (suc f) n text = elim (Bool-cases (n / 10 == 0)) [
  | inl h ↦
      (0x30 + n % 10, text, ground (arith, digits-step (suc f) n text), omega arith, omega arith)
  | inr h ↦
      let (d, rest, e, lo, hi) = digits_front f (n / 10) ((0x30 + n % 10) ∷ text) in
      (d, rest, ground (arith, e, digits-step (suc f) n text), lo, hi)
]

-- A list of names without a given one, up to the first NUL.
abbrev pub Misses : Bytes → List KvPair → Type 0
Misses f = All (λ p. str_eq (c_str p.0) f ≡ false)

-- The field that a client asks for is called `fieldfield` and a number.
pub doubled-apart :
    (i n : ℕ)
    → str_eq (c_str (field ++ to_string i)) (c_str (field ++ (field ++ to_string n))) ≡ false
unfolding str_eq c_str
doubled-apart i n = let (d, rest, e, lo, hi) = digits_front 19 i [] in rw e (ground arith)

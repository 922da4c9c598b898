-- ===== src/Ycsb/Workload/Keys.antt =====
-- The keys of workloads/YCSB-C/core/core_workload.h.
use ltram_policy_bench.Prelude.{
  ℕ, zero, suc, ◌+◌, ◌-◌, ◌≤◌, ◌<◌, ◌≡◌, refl, ◌∷◌, some, arith, ltb, ltb→lt, if◌then◌else◌, length,
  replicate, length-append, length-replicate, inl, inr, Bool-cases,
}
use ltram_policy_bench.Prelude.Int.{rounds}
use ltram_policy_bench.Prelude.Words.{u64_mod}
use ltram_policy_bench.Ycsb.Text.{Bytes}
use ltram_policy_bench.Ycsb.Utils.{
  fnv_hash64, fnv_hash64_lem, to_string, number, number-zeros, number-to_string,
}
use ltram_policy_bench.Ycsb.Workload.{Choosers, Settings, user, build_key_name, draw_key}

-- The number that a key name spells after `user`.
unfoldable pub key_number : Bytes → ℕ
key_number (u ∷ s ∷ e ∷ r ∷ digits) = number 0 digits
key_number _ = 0

-- A key name spells its number, or the hash of it when the inserts are not ordered, whatever the
-- padding, and has at least as many characters after `user` as the padding asks for.
pub build_key_name_lem :
    (w : Settings) (key_num : ℕ)
    → key_num < u64_mod
    → (key_number (build_key_name w key_num)
        ≡ (if w.ordered_inserts then key_num else fnv_hash64 key_num))
      × (length user + rounds w.zero_padding ≤ length (build_key_name w key_num))
unfolding build_key_name key_number
build_key_name_lem w key_num h =
    let shown = if w.ordered_inserts then key_num else fnv_hash64 key_num in
    let text = to_string shown in
    let zeros : Bytes = replicate (rounds w.zero_padding - length text) 0x30 in
    let fits : shown < u64_mod = ground (arith, fnv_hash64_lem key_num) in
    let padded = number-zeros (rounds w.zero_padding - length text) text in
    let long = length-append zeros text in
    let z = length-replicate {A = ℕ} (rounds w.zero_padding - length text) 0x30 in
    (rw (padded, number-to_string shown fits) refl, omega (arith, long, z))

module _ (c : Choosers) where
  -- The number that the chooser draws after `i` others.
  unfoldable pub drawn_key : ℕ → c.State → ℕ
  drawn_key zero s = (c.next_key s).0
  drawn_key (suc i) s = drawn_key i (c.next_key s).1

  first-suc :
      (last j : ℕ) (s : c.State)
      → last < drawn_key 0 s
      → ((k : ℕ) → k < j → last < drawn_key k (c.next_key s).1)
      → (k : ℕ) → k < suc j
      → last < drawn_key k s
  unfolding drawn_key
  first-suc last j s h first zero below = h
  first-suc last j s h first (suc k) below = first k (omega arith)

  -- As soon as one of the numbers that the fuel covers is not above `Last`, the loop ends, with the
  -- first such number.
  pub draw_key_lem :
      (fuel last i : ℕ) (s : c.State)
      → i < fuel
      → drawn_key i s ≤ last
      → (j : ℕ) × (s' : c.State) × (draw_key c fuel last s ≡ some (drawn_key j s, s'))
        × (j ≤ i)
        × (drawn_key j s ≤ last)
        × ((k : ℕ) → k < j → last < drawn_key k s)
  unfolding draw_key drawn_key
  draw_key_lem zero last i s h d = absurd (omega arith)
  draw_key_lem (suc fuel) last zero s h d =
      (0, (c.next_key s).1, ground arith, omega arith, d, λ k below. absurd (omega arith))
  draw_key_lem (suc fuel) last (suc i) s h d =
      let s₁ = (c.next_key s).1 in
      elim (Bool-cases (ltb last (c.next_key s).0)) [
        | inr b ↦ (0, s₁, ground arith, omega arith, ground arith, λ k below. absurd (omega arith))
        | inl b ↦
            let (j, s', e, below, ok, first) = draw_key_lem fuel last i s₁ (omega arith) d in
            (
              suc j,
              s',
              ground arith,
              omega arith,
              ok,
              first-suc last j s (ltb→lt last (c.next_key s).0 b) first,
            )
      ]

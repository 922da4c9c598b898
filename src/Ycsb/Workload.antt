-- ===== src/Ycsb/Workload.antt =====
-- workloads/YCSB-C/core/core_workload.{h,cc}: what a workload asks the database for. Its generators
-- are reached through the virtual `Next`, so they are an interface, and their states are one state.
pub mod Keys
pub mod Fields
pub mod Names
pub mod Init
pub mod Draws
use ltram_policy_bench.Prelude.{
  ℕ, zero, suc, ◌+◌, ◌-◌, List, [], ◌∷◌, ◌++◌, Bool, Option, none, some, ltb, if◌then◌else◌, length,
  replicate,
}
use ltram_policy_bench.Prelude.Int.{ℤ, rounds}
use ltram_policy_bench.Ycsb.Text.{Bytes}
use ltram_policy_bench.Ycsb.Db.{KvPair}
use ltram_policy_bench.Ycsb.Utils.{fnv_hash64, to_string, print_char}
use ltram_policy_bench.Ycsb.Generators.{counter_next, counter_last}

pub data Operation : Type 0 where
  insert read update scan read_modify_write : Operation

-- `Next` of the generators that `Init` chose, and rand().
pub record Choosers : Type 1 where
  pub State : Type 0
  pub next_operation : State → Operation × State
  pub next_key : State → ℕ × State
  pub next_field : State → ℕ × State
  pub next_scan_length : State → ℕ × State
  pub next_field_len : State → ℕ × State
  pub rand : State → ℕ × State

-- What `Init` reads from the properties.
pub record Settings : Type 0 where
  pub table_name : Bytes
  pub field_count : ℤ
  pub read_all_fields : Bool
  pub write_all_fields : Bool
  pub ordered_inserts : Bool
  pub zero_padding : ℤ

abbrev pub user : Bytes
user = b'u' ∷ b's' ∷ b'e' ∷ b'r' ∷ []

abbrev pub field : Bytes
field = b'f' ∷ b'i' ∷ b'e' ∷ b'l' ∷ b'd' ∷ []

-- `max(0, zero_padding_ - length)`: the subtraction stops at 0.
unfoldable pub build_key_name : Settings → ℕ → Bytes
build_key_name w key_num =
    let key_num_str = to_string (if w.ordered_inserts then key_num else fnv_hash64 key_num) in
    let zeros = rounds w.zero_padding - length key_num_str in
    user ++ (replicate zeros 0x30 ++ key_num_str)

module _ (c : Choosers) where
  -- The two counters are `key_generator_` and `insert_key_sequence_`.
  pub record Workload : Type 0 where
    pub key_generator : ℕ
    pub insert_key_sequence : ℕ
    pub choosers : c.State

  unfoldable pub next_sequence_key : Settings → Workload → Bytes × Workload
  next_sequence_key w s =
      let (key_num, counter) = counter_next s.key_generator in
      (build_key_name w key_num, record s { key_generator = counter })

  -- The loop of `NextTransactionKey`; `none` says that the fuel was not enough.
  unfoldable pub draw_key : ℕ → ℕ → c.State → Option (ℕ × c.State)
  draw_key zero last s = none
  draw_key (suc fuel) last s =
      let (key_num, s') = c.next_key s in
      let rest = draw_key fuel last s' in if ltb last key_num then rest else some (key_num, s')

  unfoldable pub next_transaction_key : ℕ → Settings → Workload → Option (Bytes × Workload)
  next_transaction_key fuel w s =
      elim (draw_key fuel (counter_last s.insert_key_sequence) s.choosers) [
        | none ↦ none
        | some (key_num, choosers) ↦
            some (build_key_name w key_num, record s { choosers = choosers })
      ]

  unfoldable pub next_field_name : Workload → Bytes × Workload
  next_field_name s =
      let (n, choosers) = c.next_field s.choosers in
      (field ++ to_string n, record s { choosers = choosers })

  -- A value: one random character, as often as the length generator says.
  unfoldable pub next_value : Workload → Bytes × Workload
  next_value s =
      let (len, c₁) = c.next_field_len s.choosers in
      let (r, c₂) = c.rand c₁ in (replicate len (print_char r), record s { choosers = c₂ })

  -- The loop of `BuildValues`: the rounds that are left and `i`.
  unfoldable pub value_loop : ℕ → ℕ → Workload → List KvPair × Workload
  value_loop zero i s = ([], s)
  value_loop (suc n) i s =
      let (value, s₁) = next_value s in
      let (values, s₂) = value_loop n (i + 1) s₁ in ((field ++ to_string i, value) ∷ values, s₂)

  unfoldable pub build_values : Settings → Workload → List KvPair × Workload
  build_values w s = value_loop (rounds w.field_count) 0 s

  unfoldable pub build_update : Workload → List KvPair × Workload
  build_update s =
      let (name, s₁) = next_field_name s in
      let (value, s₂) = next_value s₁ in ((name, value) ∷ [], s₂)

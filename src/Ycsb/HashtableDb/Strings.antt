-- ===== src/Ycsb/HashtableDb/Strings.antt =====
-- The value strings that workloads/YCSB-C/db/hashtable_db.cc allocates and frees: CopyString and
-- DeleteString of workloads/YCSB-C/db/lock_stl_db.h, which the databases over TBB repeat.
use ltram_policy_bench.Prelude.{
  ℕ, ◌+◌, ◌-◌, ◌≤◌, ◌≡◌, inl, inr, Bool-cases, Option-cases, List, [], ◌∷◌, true, false, none, some,
  arith, if◌then◌else◌, length, All,
}
use ltram_policy_bench.Ycsb.Text.{Bytes, c_str, str_eq_iff}
use ltram_policy_bench.Ycsb.Db.{KvPair}
use ltram_policy_bench.Ycsb.StringHashtable.{StringHashtable}
use ltram_policy_bench.Ycsb.HashtableDb.{all_entries, copy_string, fill, overwrite, insert_fields}

-- `DeleteString` and the loop over the entries of a field table.
abbrev pub delete_string : ℕ → ℕ
delete_string s = s - 1

unfoldable pub delete_strings : List (Bytes × Bytes) → ℕ → ℕ
delete_strings [] s = s
delete_strings (_ ∷ pairs) s = delete_strings pairs (delete_string s)

module _ (F : StringHashtable Bytes) where
  -- The number of live strings after each loop of the database, beside the loop's table.
  unfoldable pub fill_strings : List KvPair → F.Table → ℕ → ℕ
  fill_strings [] ft s = s
  fill_strings ((field, value) ∷ values) ft s =
      fill_strings values (F.insert (some (c_str field)) (copy_string value) ft).1 (s + 1)

  unfoldable pub overwrite_strings : List KvPair → F.Table → ℕ → ℕ
  overwrite_strings [] ft s = s
  overwrite_strings ((field, value) ∷ values) ft s =
      let (old, ft') = F.update (c_str field) (copy_string value) ft in
      overwrite_strings values
        (elim old [
          | none ↦ (F.insert (some (c_str field)) (copy_string value) ft').1
          | some _ ↦ ft'
        ])
        (elim old [ none ↦ s + 1 | some _ ↦ delete_string (s + 1) ])

  unfoldable pub insert_strings : List KvPair → F.Table → ℕ → ℕ
  insert_strings [] ft s = s
  insert_strings ((field, value) ∷ values) ft s =
      let (done, ft') = F.insert (some (c_str field)) (copy_string value) ft in
      elim done [ true ↦ insert_strings values ft' (s + 1) | false ↦ delete_string (s + 1) ]

  -- `DeleteFieldHashtable`
  unfoldable pub delete_field_hashtable : F.Table → ℕ → ℕ
  delete_field_hashtable ft s = delete_strings (F.entries none all_entries ft) s

  -- The insertions that `fill` makes and that the table refuses.
  unfoldable pub refused : List KvPair → F.Table → ℕ
  refused [] ft = 0
  refused ((field, value) ∷ values) ft =
      let (done, ft') = F.insert (some (c_str field)) (copy_string value) ft in
      (if done then 0 else 1) + refused values ft'

  delete_strings-length :
      (pairs : List (Bytes × Bytes)) (s : ℕ) → delete_strings pairs s ≡ s - length pairs
  unfolding delete_strings
  delete_strings-length [] s = omega arith
  delete_strings-length (_ ∷ pairs) s = omega (arith, delete_strings-length pairs (s - 1))

  fill_balance :
      (values : List KvPair) (ft : F.Table) (s : ℕ)
      → fill_strings values ft s + F.size ft ≡ s + F.size (fill F values ft) + refused values ft
  unfolding fill_strings fill refused
  fill_balance [] ft s = omega arith
  fill_balance ((field, value) ∷ values) ft s =
      let ft' = (F.insert (some (c_str field)) (copy_string value) ft).1 in
      ground
        (arith, F.size-insert (c_str field) (copy_string value) ft, fill_balance values ft' (s + 1))

  overwrite_balance :
      (values : List KvPair) (ft : F.Table) (s : ℕ)
      → overwrite_strings values ft s + F.size ft ≡ s + F.size (overwrite F values ft)
  unfolding overwrite_strings overwrite
  overwrite_balance [] ft s = omega arith
  overwrite_balance ((field, value) ∷ values) ft s =
      let k = c_str field in
      let v = copy_string value in
      let (old, ft') = F.update k v ft in
      let ft'' = (F.insert (some k) v ft').1 in
      let replaced = F.update_result k v ft in
      let absent = F.get-update k k v ft in
      let added = F.insert_result k v ft' in
      let size = F.size-update k v ft in
      let grown = F.size-insert k v ft' in
      elim (Option-cases old) [
        | inl e ↦ ground (
          arith,
          replaced,
          absent,
          added,
          size,
          grown,
          overwrite_balance values ft'' (s + 1),
          str_eq_iff k k,
        )
        | inr (w, e) ↦ ground (arith, size, overwrite_balance values ft' (delete_string (s + 1)))
      ]

  insert_balance :
      (values : List KvPair) (ft : F.Table) (s : ℕ)
      → insert_strings values ft s + F.size ft ≡ s + F.size (insert_fields F values ft).1
  unfolding insert_strings insert_fields
  insert_balance [] ft s = omega arith
  insert_balance ((field, value) ∷ values) ft s =
      let r = F.insert (some (c_str field)) (copy_string value) ft in
      let size = F.size-insert (c_str field) (copy_string value) ft in
      elim (Bool-cases r.0) [
        | inl e ↦ ground (arith, size, insert_balance values r.1 (s + 1))
        | inr e ↦ ground (arith, size)
      ]

  -- Of a record that is there, Update frees each value that it replaces and Insert the copy that is
  -- refused: the live value strings grow by as many as the record has gained fields. Of a new
  -- record, Update leaks one string for each insertion that the table refuses, which is a field
  -- given twice. Deleting a record, of at most 2 ^ 64 - 1 fields, frees one string for each of its
  -- fields.
  pub record_strings :
      (values : List KvPair) (ft : F.Table) (s : ℕ)
      → F.size ft ≤ all_entries
      → (overwrite_strings values ft s + F.size ft ≡ s + F.size (overwrite F values ft))
        × (insert_strings values ft s + F.size ft ≡ s + F.size (insert_fields F values ft).1)
        × (fill_strings values F.new s ≡ s + F.size (fill F values F.new) + refused values F.new)
        × (delete_field_hashtable ft s ≡ s - F.size ft)
  unfolding delete_field_hashtable
  record_strings values ft s fits = (
    overwrite_balance values ft s,
    insert_balance values ft s,
    omega (arith, fill_balance values F.new s, F.size-new),
    omega (
      arith,
      delete_strings-length (F.entries none all_entries ft) s,
      F.all-entries all_entries ft fits,
    ),
  )

module _ (F : StringHashtable Bytes) (K : StringHashtable F.Table) where
  -- The destructor of a database: the loop over its records.
  unfoldable pub delete_records : List (Bytes × F.Table) → ℕ → ℕ
  delete_records [] s = s
  delete_records ((_, ft) ∷ pairs) s = delete_records pairs (delete_field_hashtable F ft s)

  unfoldable pub destroy : K.Table → ℕ → ℕ
  destroy db s = delete_records (K.entries none all_entries db) s

  -- The fields of all records, and that each record has a size that its type can hold.
  abbrev pub field_count : List (Bytes × F.Table) → ℕ
  field_count [] = 0
  field_count ((_, ft) ∷ pairs) = F.size ft + field_count pairs

  abbrev pub EachFits : List (Bytes × F.Table) → Type 0
  EachFits = All (λ p. F.size p.1 ≤ all_entries)

  records-field_count :
      (pairs : List (Bytes × F.Table)) (s : ℕ)
      → EachFits pairs
      → delete_records pairs s ≡ s - field_count pairs
  unfolding delete_records
  records-field_count [] s h = omega arith
  records-field_count ((_, ft) ∷ pairs) s h =
      let one = (record_strings F [] ft s h.0).3 in
      let rest = records-field_count pairs (delete_field_hashtable F ft s) h.1 in
      omega (arith, one, rest)

  -- The destructor frees one string for each field of each record.
  pub destroy_lem :
      (db : K.Table) (s : ℕ)
      → EachFits (K.entries none all_entries db)
      → destroy db s ≡ s - field_count (K.entries none all_entries db)
  unfolding destroy
  destroy_lem db s h = records-field_count (K.entries none all_entries db) s h

-- ===== src/Ycsb/HashtableDb.antt =====
-- workloads/YCSB-C/db/hashtable_db.cc: a database as a table of tables. Its two kinds of table are
-- an implementation of the interface each: one from fields to values, one from keys to field tables.
-- A field table is reached from its key alone, so it is held by value, and a change through the
-- pointer is an `update` of the key's entry.
pub mod Orphan
pub mod Race
pub mod Fields
pub mod Records
pub mod RoundTrip
pub mod Strings
use ltram_policy_bench.Prelude.{
  ℕ, ◌-◌, ◌^◌, List, [], ◌∷◌, ◌++◌, map, Bool, true, false, Option, none, some, if◌then◌else◌,
}
use ltram_policy_bench.Prelude.Int.{ℤ, to_size}
use ltram_policy_bench.Ycsb.Text.{Bytes, c_str}
use ltram_policy_bench.Ycsb.Db.{DbCode, ok, no_data, conflict, KvPair}
use ltram_policy_bench.Ycsb.StringHashtable.{StringHashtable}

-- `size_t n = -1`
abbrev pub all_entries : ℕ
all_entries = 2 ^ 64 - 1

-- `CopyString`: the bytes up to the first NUL.
abbrev pub copy_string : Bytes → Bytes
copy_string = c_str

-- `key_index.c_str()`
unfoldable pub key_index : Bytes → Bytes → Bytes
key_index table key = c_str (table ++ key)

module _ (F : StringHashtable Bytes) where
  -- The loop over the requested fields.
  unfoldable pub read_fields : List Bytes → F.Table → List KvPair
  read_fields [] ft = []
  read_fields (field ∷ fields) ft = elim (F.get (c_str field) ft) [
    | none ↦ read_fields fields ft
    | some value ↦ (field, value) ∷ read_fields fields ft
  ]

  -- All fields, or those that were asked for.
  unfoldable pub read_record : Option (List Bytes) → F.Table → List KvPair
  read_record none ft = F.entries none all_entries ft
  read_record (some fields) ft = read_fields fields ft

  -- The loop of `Update` on a record that is new, and on one that is there.
  unfoldable pub fill : List KvPair → F.Table → F.Table
  fill [] ft = ft
  fill ((field, value) ∷ values) ft =
      fill values (F.insert (some (c_str field)) (copy_string value) ft).1

  unfoldable pub overwrite : List KvPair → F.Table → F.Table
  overwrite [] ft = ft
  overwrite ((field, value) ∷ values) ft =
      let (old, ft') = F.update (c_str field) (copy_string value) ft in
      overwrite values (elim old [
        | none ↦ (F.insert (some (c_str field)) (copy_string value) ft').1
        | some _ ↦ ft'
      ])

  -- The loop of `Insert`, which stops at the first field that is there already.
  unfoldable pub insert_fields : List KvPair → F.Table → DbCode × F.Table
  insert_fields [] ft = (ok, ft)
  insert_fields ((field, value) ∷ values) ft =
      let (done, ft') = F.insert (some (c_str field)) (copy_string value) ft in
      elim done [ true ↦ insert_fields values ft' | false ↦ (conflict, ft') ]

module _ (F : StringHashtable Bytes) (K : StringHashtable F.Table) where
  -- The result vector comes in and goes out.
  unfoldable pub read :
      Bytes → Bytes → Option (List Bytes) → List KvPair → K.Table → DbCode × List KvPair
  read table key fields result db = elim (K.get (key_index table key) db) [
    | none ↦ (no_data, result)
    | some ft ↦ (ok, read_record F fields ft)
  ]

  unfoldable pub scan :
      Bytes → Bytes → ℤ → Option (List Bytes) → K.Table → DbCode × List (List KvPair)
  scan table key len fields db =
      let key_pairs = K.entries (some (key_index table key)) (to_size len) db in
      (ok, map (λ p. read_record F fields p.1) key_pairs)

  -- The pointer `field_table` after a change of the table that it points to.
  abbrev pub write_back : Bytes → F.Table → K.Table → K.Table
  write_back index ft db = (K.update index ft db).1

  unfoldable pub update : Bytes → Bytes → List KvPair → K.Table → DbCode × K.Table
  update table key values db =
      let index = key_index table key in
      elim (K.get index db) [
        | none ↦
            let db' = (K.insert (some index) F.new db).1 in
            (ok, write_back index (fill F values F.new) db')
        | some ft ↦ (ok, write_back index (overwrite F values ft) db)
      ]

  unfoldable pub insert : Bytes → Bytes → List KvPair → K.Table → DbCode × K.Table
  insert table key values db =
      let index = key_index table key in
      elim (K.get index db) [
        | none ↦
            let db' = (K.insert (some index) F.new db).1 in
            let (code, ft) = insert_fields F values F.new in (code, write_back index ft db')
        | some ft ↦ let (code, ft') = insert_fields F values ft in (code, write_back index ft' db)
      ]

  unfoldable pub delete : Bytes → Bytes → K.Table → DbCode × K.Table
  delete table key db =
      let (ft, db') = K.remove (key_index table key) db in
      elim ft [ none ↦ (no_data, db') | some _ ↦ (ok, db') ]

-- ===== src/Tests/Db.antt =====
-- workloads/YCSB-C/db/hashtable_db.cc over the tables of workloads/YCSB-C/lib/stl_hashtable.h.
use ltram_policy_bench.Prelude.{
  ◌+◌, ◌-◌, ◌≡◌, refl, List, [], ◌∷◌, true, false, some, none, if◌then◌else◌, arith,
}
use ltram_policy_bench.Ycsb.Text.{Bytes, str_eq, c_str}
use ltram_policy_bench.Ycsb.Db.{ok, conflict, no_data, KvPair}
use ltram_policy_bench.Ycsb.StringHashtable.{StringHashtable, or_else}
use ltram_policy_bench.Ycsb.StlHashtable
use ltram_policy_bench.Ycsb.StlHashtable.{get, update, remove}
use ltram_policy_bench.Ycsb.StlHashtable.Laws.{stl_hashtable}
use ltram_policy_bench.Ycsb.HashString.{equal, copy, wrap, sdbm_hash}
use ltram_policy_bench.Ycsb.HashtableDb
use ltram_policy_bench.Ycsb.HashtableDb.{key_index, insert_fields, fill, overwrite}
use ltram_policy_bench.Ycsb.HashtableDb.Strings.{
  overwrite_strings, insert_strings, fill_strings, delete_field_hashtable, refused, record_strings,
}
use ltram_policy_bench.Ycsb.HashtableDb.Fields.{first, latest, accepted, same_length}
use ltram_policy_bench.Ycsb.HashtableDb.Records.{
  field_at, exists, Distinct, fields, Plain, update_lem, insert_lem, delete_lem, kept-IsValid,
}
use ltram_policy_bench.Ycsb.HashtableDb.RoundTrip.{read-update}

abbrev field_tables : StringHashtable Bytes
field_tables = stl_hashtable Bytes

abbrev F : Type 0
F = field_tables.Table

abbrev key_tables : StringHashtable F
key_tables = stl_hashtable F

abbrev t : Bytes
t = b't' ∷ []

abbrev k : Bytes
k = b'k' ∷ []

abbrev a : Bytes
a = b'a' ∷ []

abbrev x : Bytes
x = b'x' ∷ []

abbrev y : Bytes
y = b'y' ∷ []

-- The field twice.
abbrev twice : List KvPair
twice = (a, x) ∷ (a, y) ∷ []

abbrev db : key_tables.Table
db = key_tables.new

-- A conflict, and the first value is there.
insert_conflict :
    let (code, db') = HashtableDb.insert field_tables key_tables t k twice db in
    (code ≡ conflict) × (field_at field_tables key_tables db' (key_index t k) a ≡ some x)
unfolding HashtableDb.insert key_index insert_fields stl_hashtable get update StlHashtable.insert
    equal copy wrap sdbm_hash str_eq c_str
insert_conflict = (refl, refl)

update_lem_example :
    let (code, db') = HashtableDb.update field_tables key_tables t k twice db in
    (code ≡ ok)
    × (exists field_tables key_tables db' (key_index t k) ≡ (
        if str_eq (key_index t k) (key_index t k)
        then true
        else exists field_tables key_tables db (key_index t k)))
    × (field_at field_tables key_tables db' (key_index t k) a ≡ (
        if str_eq (key_index t k) (key_index t k)
        then (if exists field_tables key_tables db (key_index t k)
            then or_else (latest a twice) (field_at field_tables key_tables db (key_index t k) a)
            else first a twice)
        else field_at field_tables key_tables db (key_index t k) a))
update_lem_example = update_lem field_tables key_tables t k twice db (key_index t k) a

insert_lem_example :
    let (code, db') = HashtableDb.insert field_tables key_tables t k twice db in
    let taken = accepted twice (field_at field_tables key_tables db (key_index t k)) in
    (code ≡ (if same_length taken twice then ok else conflict))
    × (exists field_tables key_tables db' (key_index t k) ≡ (
        if str_eq (key_index t k) (key_index t k)
        then true
        else exists field_tables key_tables db (key_index t k)))
    × (field_at field_tables key_tables db' (key_index t k) a ≡ (
        if str_eq (key_index t k) (key_index t k)
        then or_else (field_at field_tables key_tables db (key_index t k) a) (first a taken)
        else field_at field_tables key_tables db (key_index t k) a))
insert_lem_example = insert_lem field_tables key_tables t k twice db (key_index t k) a

-- The record that the update made is deleted.
abbrev filled : key_tables.Table
filled = (HashtableDb.update field_tables key_tables t k twice db).1

filled-IsValid : key_tables.IsValid filled
filled-IsValid = (kept-IsValid field_tables key_tables t k twice db key_tables.new-IsValid).0

delete_lem_example :
    let (code, db') = HashtableDb.delete field_tables key_tables t k filled in
    (code ≡ (if exists field_tables key_tables filled (key_index t k) then ok else no_data))
    × (exists field_tables key_tables db' (key_index t k) ≡ (
        if str_eq (key_index t k) (key_index t k)
        then false
        else exists field_tables key_tables filled (key_index t k)))
    × (field_at field_tables key_tables db' (key_index t k) a ≡ (
        if str_eq (key_index t k) (key_index t k)
        then none
        else field_at field_tables key_tables filled (key_index t k) a))
delete_lem_example = delete_lem field_tables key_tables t k filled (key_index t k) a filled-IsValid

delete-filled : (HashtableDb.delete field_tables key_tables t k filled).0 ≡ ok
unfolding HashtableDb.delete HashtableDb.update fill key_index stl_hashtable get update remove
    StlHashtable.insert equal copy wrap sdbm_hash str_eq c_str
delete-filled = refl

-- Two fields.
abbrev pair : List KvPair
pair = (a, x) ∷ (k, y) ∷ []

pair-Distinct : Distinct pair
unfolding first str_eq c_str
pair-Distinct = (refl, (refl, tt))

pair-Plain : Plain pair
pair-Plain = ((omega arith, tt), ((omega arith, tt), tt))

read-update_example :
    HashtableDb.read field_tables key_tables t k
      (some (fields pair))
      []
      (HashtableDb.update field_tables key_tables t k pair db).1
    ≡ (ok, pair)
read-update_example = read-update field_tables key_tables t k pair [] db pair-Distinct pair-Plain

-- A record with the field that is given twice.
abbrev one_field : F
one_field = (field_tables.insert (some a) x field_tables.new).1

record_strings_example :
    (overwrite_strings field_tables twice one_field 4 + field_tables.size one_field
      ≡ 4 + field_tables.size (overwrite field_tables twice one_field))
    × (insert_strings field_tables twice one_field 4 + field_tables.size one_field
        ≡ 4 + field_tables.size (insert_fields field_tables twice one_field).1)
    × (fill_strings field_tables twice field_tables.new 4
        ≡ 4
          + field_tables.size (fill field_tables twice field_tables.new)
          + refused field_tables twice field_tables.new)
    × (delete_field_hashtable field_tables one_field 4 ≡ 4 - field_tables.size one_field)
record_strings_example =
    record_strings field_tables twice one_field 4
      (ground (arith, field_tables.size-new, field_tables.size-insert a x field_tables.new))

-- Of the field that is given twice, one copy is leaked.
twice_leaks : refused field_tables twice field_tables.new ≡ 1
unfolding refused stl_hashtable StlHashtable.insert equal copy wrap sdbm_hash str_eq c_str
twice_leaks = refl

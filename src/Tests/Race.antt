-- ===== src/Tests/Race.antt =====
-- Threads in workloads/YCSB-C/db/hashtable_db.cc over the tables of workloads/YCSB-C/lib/stl_hashtable.h.
use ltram_policy_bench.Prelude.{ℕ, ◌≡◌, ◌≢◌, refl, List, [], ◌∷◌, true, none, some, arith}
use ltram_policy_bench.Ycsb.Text.{Bytes, c_str, str_eq}
use ltram_policy_bench.Ycsb.Db.{KvPair}
use ltram_policy_bench.Ycsb.StringHashtable.{StringHashtable, is_some}
use ltram_policy_bench.Ycsb.StlHashtable
use ltram_policy_bench.Ycsb.StlHashtable.Laws.{stl_hashtable}
use ltram_policy_bench.Ycsb.HashString.{equal, copy, wrap, sdbm_hash}
use ltram_policy_bench.Ycsb.HashtableDb.{copy_string, insert_fields}
use ltram_policy_bench.Ycsb.HashtableDb.Race
use ltram_policy_bench.Ycsb.HashtableDb.Race.{
  Heap, write, idle, reading, updating, inserting, freeing, copies_to_update, copies_to_insert,
  replaces, inserts, moves, here, next,
}
use ltram_policy_bench.Ycsb.HashtableDb.Race.Owned.{Reach-live}
use ltram_policy_bench.Ycsb.HashtableDb.Race.Freed.{read_freed}
use ltram_policy_bench.Ycsb.HashtableDb.Orphan
use ltram_policy_bench.Ycsb.HashtableDb.Orphan.{looking, done}
use ltram_policy_bench.Ycsb.HashtableDb.Orphan.Lost.{insert_lost}

abbrev pointers : StringHashtable ℕ
pointers = stl_hashtable ℕ

abbrev name : Bytes
name = b'f' ∷ []

abbrev text : Bytes
text = b'x' ∷ []

-- No live string.
abbrev nothing : Heap
nothing p = none

abbrev with_name : pointers.Table
with_name = (pointers.insert (some name) 0 pointers.new).1

abbrev renewed : pointers.Table
renewed = (pointers.update name 1 with_name).1

abbrev one_string : Race.Shared pointers
one_string = record { table = with_name; heap = write nothing 0 (some (copy_string text)) }

abbrev two_strings : Race.Shared pointers
two_strings = record {
  table = with_name;
  heap = write (write nothing 0 (some (copy_string text))) 1 (some (copy_string text));
}

abbrev replaced : Race.Shared pointers
replaced = record two_strings { table = renewed }

inserted : pointers.insert (some (c_str name)) 0 pointers.new ≡ (true, with_name)
unfolding stl_hashtable c_str
inserted = refl

updated : pointers.update (c_str name) 1 with_name ≡ (some 0, renewed)
unfolding stl_hashtable StlHashtable.update equal copy sdbm_hash wrap c_str str_eq
updated = refl

has_new : pointers.get name renewed ≡ some 1
unfolding stl_hashtable StlHashtable.update equal copy sdbm_hash wrap str_eq
has_new = refl

has_name : pointers.get (c_str name) with_name ≡ some 0
unfolding stl_hashtable equal copy sdbm_hash wrap c_str str_eq
has_name = refl

-- One thread inserts the field, and another updates it.
two_calls :
    Race.Reach pointers
      (record {
        shared = record { table = pointers.new; heap = nothing };
        threads = idle ∷ idle ∷ [];
      })
      (record { shared = replaced; threads = idle ∷ freeing 0 ∷ [] })
unfolding write
two_calls =
    let start : Race.Shared pointers = record { table = pointers.new; heap = nothing } in
    let copied : Race.Shared pointers = record start {
      heap = write nothing 0 (some (copy_string text));
    } in
    next
      (next
        (next
          (next here (
            moves [] (idle ∷ []) start copied idle (inserting name 0)
              (copies_to_insert start name text 0 refl)))
          (moves [] (idle ∷ []) copied one_string (inserting name 0) idle
            (inserts copied name 0 with_name inserted)))
        (moves (idle ∷ []) [] one_string two_strings idle (updating name 1)
          (copies_to_update one_string name text 1 refl)))
      (moves (idle ∷ []) [] two_strings replaced (updating name 1) (freeing 0)
        (replaces two_strings name 1 0 renewed updated))

Reach-live_example :
    (is_some (replaced.heap 1) ≡ true) × (is_some (replaced.heap 0) ≡ true) × (◌≢◌ {A = ℕ} 1 0)
Reach-live_example =
    Reach-live pointers nothing 2 1 0 name (idle ∷ []) []
      (record { shared = replaced; threads = idle ∷ freeing 0 ∷ [] }) two_calls has_new refl

one_free : one_string.heap 1 ≡ none
unfolding write
one_free = refl

read_freed_example :
    (t : Race.Shared pointers) × Race.Reach pointers
      (record { shared = one_string; threads = idle ∷ idle ∷ [] })
      (record { shared = t; threads = reading 0 ∷ idle ∷ [] })
    × (t.heap 0 ≡ none)
    × (pointers.get (c_str name) t.table ≡ some 1)
read_freed_example = read_freed pointers one_string name text 0 1 [] has_name one_free

abbrev texts : StringHashtable Bytes
texts = stl_hashtable Bytes

abbrev no_records : Orphan.Shared texts pointers name
no_records = record { keys = pointers.new; tables = λ p. none }

abbrev pair : List KvPair
pair = (name, text) ∷ []

insert_lost_example :
    (t : Orphan.Shared texts pointers name) × Orphan.Reach texts pointers name
      (record { shared = no_records; threads = looking [] ∷ looking pair ∷ [] })
      (record {
        shared = t;
        threads =
            done (insert_fields texts [] texts.new).0
            ∷ done (insert_fields texts pair texts.new).0
            ∷ [];
      })
    × (pointers.get name t.keys ≡ some 3)
    × (t.tables 3 ≡ some (insert_fields texts [] texts.new).1)
insert_lost_example =
    insert_lost texts pointers name no_records [] pair 3 4 [] (pointers.get-new name) refl refl
      (omega arith)

-- ===== src/Tests/Loaded.antt =====
-- A client that loads two records and makes two transactions.
use ltram_policy_bench.Prelude.{ℕ, ◌≡◌, refl, List, [], none, some}
use ltram_policy_bench.Ycsb.Text.{Bytes}
use ltram_policy_bench.Ycsb.StringHashtable.{StringHashtable}
use ltram_policy_bench.Ycsb.StlHashtable.Laws.{stl_hashtable}
use ltram_policy_bench.Ycsb.Workload.{
  Operation, build_values, value_loop, next_value, next_sequence_key, next_transaction_key,
  draw_key,
}
use ltram_policy_bench.Ycsb.Client.{
  World, load, transact, do_transaction, perform, do_insert, transaction_insert, on_key,
}
use ltram_policy_bench.Ycsb.Generators.{counter_last}
use ltram_policy_bench.Ycsb.Client.Loaded.{hashtable_db}
use ltram_policy_bench.Tests.Client.{turns, settings, started}

abbrev pub F : StringHashtable Bytes
F = stl_hashtable Bytes

abbrev pub K : StringHashtable F.Table
K = stl_hashtable F.Table

abbrev pub new_db : World (hashtable_db F K) turns
new_db = record { db = K.new; workload = started }

abbrev loaded : World (hashtable_db F K) turns
loaded = (load (hashtable_db F K) turns 2 settings new_db).1

-- What the transactions returned, which is something.
abbrev result : List Operation × ℕ × World (hashtable_db F K) turns
result = elim (transact (hashtable_db F K) turns 2 9 settings loaded) [
  | none ↦ ([], 0, loaded)
  | some r ↦ r
]

result_runs : transact (hashtable_db F K) turns 2 9 settings loaded ≡ some result
unfolding transact do_transaction perform load do_insert transaction_insert build_values value_loop
    next_value next_sequence_key on_key next_transaction_key draw_key counter_last
result_runs = refl

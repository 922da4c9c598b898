-- ===== src/Tests/Client.antt =====
-- workloads/YCSB-C/core with generators that count, and a database that takes everything.
use ltram_policy_bench.Prelude.{
  ℕ, ◌+◌, ◌%◌, ◌≤◌, ◌≡◌, refl, [], ◌∷◌, true, false, some, if◌then◌else◌, arith, ltb, length,
}
use ltram_policy_bench.Prelude.Int.{pos}
use ltram_policy_bench.Ycsb.Text.{Bytes}
use ltram_policy_bench.Ycsb.Db.{ok}
use ltram_policy_bench.Ycsb.StlHashtable.Laws.{stl_hashtable}
use ltram_policy_bench.Ycsb.HashtableDb
use ltram_policy_bench.Ycsb.HashtableDb.{key_index}
use ltram_policy_bench.Ycsb.Utils.{fnv_hash64, digits}
use ltram_policy_bench.Ycsb.Zipfian.{next, refresh, pick}
use ltram_policy_bench.Ycsb.Generators.{
  Scrambled, scrambled_next, scramble, DiscreteGenerator, discrete_next, choose, counter_next,
  counter_last,
}
use ltram_policy_bench.Ycsb.Workload.{
  Operation, Choosers, Settings, Workload, user, build_key_name, draw_key, next_transaction_key,
  next_sequence_key, next_field_name, next_value, value_loop, build_values,
}
use ltram_policy_bench.Ycsb.Workload.Keys.{key_number, build_key_name_lem}
use ltram_policy_bench.Ycsb.Client.{
  Db, World, asked_fields, transact, do_transaction, perform, on_key, do_insert, transaction_insert,
  transaction_read,
}
use ltram_policy_bench.Ycsb.Client.Counters.{Taken, transact-Taken}
use ltram_policy_bench.Ycsb.Client.Asked.{asked_fields-missing}
use ltram_policy_bench.Tests.Zipfian.{whole, ten}

-- Every draw is one more than the last one; the operations take turns.
abbrev pub turns : Choosers
turns = record {
  State = ℕ;
  next_operation = λ s. (if ltb (s % 2) 1 then Operation.insert else Operation.read, s + 1);
  next_key = λ s. (s % 5, s + 1);
  next_field = λ s. (s % 3, s + 1);
  next_scan_length = λ s. (s, s + 1);
  next_field_len = λ s. (2, s + 1);
  rand = λ s. (s, s + 1);
}

abbrev pub settings : Settings
settings = record {
  table_name = b't' ∷ [];
  field_count = pos 2;
  read_all_fields = false;
  write_all_fields = true;
  ordered_inserts = true;
  zero_padding = pos 3;
}

abbrev all_ok : Db
all_ok = record {
  State = ℕ;
  read = λ t k f s. (ok, [], s);
  scan = λ t k n f s. (ok, [], s);
  update = λ t k v s. (ok, s);
  insert = λ t k v s. (ok, s + 1);
}

key_printed : build_key_name settings 42 ≡ b'u' ∷ b's' ∷ b'e' ∷ b'r' ∷ b'0' ∷ b'4' ∷ b'2' ∷ []
unfolding build_key_name digits
key_printed = refl

build_key_name_lem_example :
    (key_number (build_key_name settings 42) ≡ (if true then 42 else fnv_hash64 42))
    × (length user + 3 ≤ length (build_key_name settings 42))
build_key_name_lem_example = build_key_name_lem settings 42 (omega arith)

abbrev pub started : Workload turns
started = record { key_generator = 3; insert_key_sequence = 3; choosers = 0 }

abbrev world : World all_ok turns
world = record { db = 0; workload = started }

abbrev world' : World all_ok turns
world' = record {
  db = 1;
  workload = record { key_generator = 4; insert_key_sequence = 3; choosers = 8 };
}

two_transactions :
    transact all_ok turns 2 5 settings world
    ≡ some (Operation.insert ∷ Operation.read ∷ [], 2, world')
unfolding transact do_transaction perform on_key do_insert transaction_insert transaction_read
    asked_fields build_values value_loop next_value next_field_name next_sequence_key
    next_transaction_key draw_key counter_next counter_last
two_transactions = refl

transact-Taken_example :
    Taken turns 1 started world'.workload
    × (length (Operation.insert ∷ Operation.read ∷ []) ≡ 2)
    × (2 ≤ 2)
transact-Taken_example =
    transact-Taken all_ok turns 2 5 settings world world' (Operation.insert ∷ Operation.read ∷ []) 2
      two_transactions

asked_fields-missing_example :
    let F = stl_hashtable Bytes in
    let K = stl_hashtable F.Table in
    HashtableDb.read F K
      (b't' ∷ [])
      user
      (asked_fields all_ok turns settings started).0
      []
      (HashtableDb.insert F K (b't' ∷ []) user (build_values turns settings started).0 K.new).1
    ≡ (ok, [])
asked_fields-missing_example =
    let F = stl_hashtable Bytes in
    let K = stl_hashtable F.Table in
    asked_fields-missing all_ok turns F K settings started started user [] K.new refl
      (K.get-new (key_index (b't' ∷ []) user))

abbrev scrambled : Scrambled whole
scrambled = record { base = 7; num_items = 10; generator = ten }

scrambled_runs :
    scrambled_next whole scrambled 0
    ≡ some (scramble 7 10 0, record scrambled { generator = record ten { last_value = 0 } }, 1)
unfolding scrambled_next next refresh pick
scrambled_runs = refl

abbrev mix : DiscreteGenerator whole ℕ
mix = record { values = (4, 1) ∷ (5, 9) ∷ []; sum = 1 }

mix_runs : (discrete_next whole mix 3).0 ≡ some 5
unfolding discrete_next choose
mix_runs = refl

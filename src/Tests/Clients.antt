-- ===== src/Tests/Clients.antt =====
-- Two threads of workloads/YCSB-C/ycsbc.cc that load two records in turns into an empty hash-table
-- database; then one that makes two transactions.
use ltram_policy_bench.Prelude.{
  ℕ, ◌+◌, ◌*◌, ◌≤◌, ◌<◌, ◌≡◌, ◌⊎◌, refl, List, [], ◌∷◌, true, false, none, some, arith,
}
use ltram_policy_bench.Prelude.Int.{pos, rounds}
use ltram_policy_bench.Ycsb.Text.{Bytes, c_str, str_eq}
use ltram_policy_bench.Ycsb.Db.{ok}
use ltram_policy_bench.Ycsb.HashtableDb
use ltram_policy_bench.Ycsb.HashtableDb.{insert, insert_fields, key_index}
use ltram_policy_bench.Ycsb.Threads.{ops_each}
use ltram_policy_bench.Ycsb.Generators.{counter_next, counter_last}
use ltram_policy_bench.Ycsb.Workload.{
  Operation, Workload, build_key_name, next_transaction_key, draw_key, next_sequence_key,
  build_values, value_loop, next_value,
}
use ltram_policy_bench.Ycsb.StlHashtable
use ltram_policy_bench.Ycsb.StlHashtable.Laws.{stl_hashtable}
use ltram_policy_bench.Ycsb.HashString.{equal, copy, wrap, sdbm_hash}
use ltram_policy_bench.Ycsb.Utils.{digits}
use ltram_policy_bench.Ycsb.Client.{
  World, transact, do_transaction, perform, load, do_insert, transaction_insert, on_key,
}
use ltram_policy_bench.Ycsb.Client.Loaded.{hashtable_db}
use ltram_policy_bench.Ycsb.Clients.{
  putting, Caller, returned, start, run, callers_of, call_threads, sum_oks, Sys, Reach, here, next,
  starts, ends, AllDone,
}
use ltram_policy_bench.Ycsb.Clients.Alone.{transact-Reach}
use ltram_policy_bench.Ycsb.Clients.Sum.{Reach-sum}
use ltram_policy_bench.Ycsb.Clients.Progress.{CanStep, load-CanStart}
use ltram_policy_bench.Ycsb.Clients.Ends.{steps, Reach-steps}
use ltram_policy_bench.Ycsb.Clients.Read.{clients_read}
use ltram_policy_bench.Tests.Client.{turns, settings}
use ltram_policy_bench.Tests.Loaded.{F, K, new_db}

abbrev Shared : Type 0
Shared = World (hashtable_db F K) turns

abbrev with_counter : ℕ → Workload turns → Workload turns
with_counter n s = record s { key_generator = n }

abbrev first_key : Bytes
first_key = build_key_name settings 3

abbrev second_key : Bytes
second_key = build_key_name settings 4

abbrev both_drawn : Shared
both_drawn = record new_db { workload = with_counter 5 new_db.workload }

abbrev second_put : Shared
second_put = (run (hashtable_db F K) turns settings (putting second_key) both_drawn).1

abbrev both_put : Shared
both_put = (run (hashtable_db F K) turns settings (putting first_key) second_put).1

abbrev idle : ℕ → ℕ → Caller
idle left oks = record { left = left; oks = oks; call = none }

abbrev at_start : Sys (hashtable_db F K) turns
at_start = record { world = new_db; callers = callers_of (pos 2) (pos 2) }

abbrev at_end : Sys (hashtable_db F K) turns
at_end = record { world = both_put; callers = idle 0 1 ∷ idle 0 1 ∷ [] }

abbrev in_call : Bytes → Caller
in_call key = record { left = 0; oks = 0; call = some (putting key) }

first_drawn :
    start (hashtable_db F K) turns true 9 settings new_db.workload
    ≡ some (putting first_key, with_counter 4 new_db.workload)
unfolding start next_sequence_key counter_next
first_drawn = refl

second_drawn :
    start (hashtable_db F K) turns true 9 settings (with_counter 4 new_db.workload)
    ≡ some (putting second_key, with_counter 5 new_db.workload)
unfolding start next_sequence_key counter_next
second_drawn = refl

put_second :
    run (hashtable_db F K) turns settings (putting second_key) both_drawn
    ≡ (returned true, second_put)
unfolding run build_values value_loop next_value insert key_index insert_fields stl_hashtable equal
    copy sdbm_hash c_str digits
put_second = refl

put_first :
    run (hashtable_db F K) turns settings (putting first_key) second_put ≡ (returned true, both_put)
unfolding run build_values value_loop next_value insert key_index insert_fields stl_hashtable
    StlHashtable.update equal copy sdbm_hash c_str build_key_name digits wrap str_eq
put_first = refl

-- The first thread draws its key first and puts its record last.
in_turns : Reach (hashtable_db F K) turns true 9 settings at_start at_end
unfolding call_threads ops_each
in_turns =
    let x = record new_db { workload = with_counter 4 new_db.workload } in
    next
      (next
        (next (next here (starts [] (idle 1 0 ∷ []) 0 0 new_db (putting first_key) _ first_drawn))
          (starts (in_call first_key ∷ []) [] 0 0 x (putting second_key) _ second_drawn))
        (ends (in_call first_key ∷ []) [] 0 0 both_drawn second_put (putting second_key) true
          put_second))
      (ends [] (idle 0 1 ∷ []) 0 0 second_put both_put (putting first_key) true put_first)

finished : AllDone at_end.callers
finished = (refl, refl, (refl, refl, tt))

abbrev result : List Operation × ℕ × Shared
result = elim (transact (hashtable_db F K) turns 2 9 settings both_put) [
  | none ↦ ([], 0, both_put)
  | some r ↦ r
]

result_runs : transact (hashtable_db F K) turns 2 9 settings both_put ≡ some result
unfolding transact do_transaction perform load do_insert transaction_insert build_values value_loop
    next_value next_sequence_key on_key next_transaction_key draw_key counter_last run
result_runs = refl

abbrev under_way : Sys (hashtable_db F K) turns
under_way = record { world = result.2; callers = idle 0 (0 + result.1) ∷ idle 2 0 ∷ [] }

one_at_work :
    Reach
      (hashtable_db F K)
      turns
      false
      9
      settings
      (record { world = both_put; callers = callers_of (pos 4) (pos 2) })
      under_way
unfolding call_threads ops_each
one_at_work =
    transact-Reach (hashtable_db F K) turns 9 settings [] (idle 2 0 ∷ []) 2 0 result.1 both_put
      result.2 result.0 result_runs

two_keys : 1 < rounds (pos 2) * ops_each (pos 2) (pos 2)
unfolding ops_each
two_keys = omega arith

clients_read_example :
    (HashtableDb.read F K settings.table_name (build_key_name settings 4) none [] result.2.db).0
    ≡ ok
clients_read_example =
    clients_read F K turns 9 settings new_db (pos 2) (pos 4) (pos 2) 1 none [] (omega arith)
      in_turns finished one_at_work two_keys

Reach-sum_example : sum_oks at_end.callers ≤ 2
Reach-sum_example =
    Reach-sum (hashtable_db F K) turns true 9 settings (pos 2) (pos 2) new_db in_turns

Reach-steps_example :
    (steps (hashtable_db F K) turns true 9 settings in_turns ≤ 3 * 2)
    × (AllDone at_end.callers ⊎ CanStep (hashtable_db F K) turns true 9 settings at_end)
Reach-steps_example =
    Reach-steps (hashtable_db F K) turns true 9 settings (pos 2) (pos 2) new_db at_end in_turns
      (load-CanStart (hashtable_db F K) turns 9 settings 3)

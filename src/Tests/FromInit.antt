-- ===== src/Tests/FromInit.antt =====
-- `Init` of workloads/YCSB-C/core/core_workload.cc and then a client that reads, over whole numbers.
use ltram_policy_bench.Prelude.{
  ◌+◌, ◌*◌, ◌≤◌, ◌⊎◌, ◌≡◌, refl, List, [], ◌∷◌, true, false, none, some, arith, inl, ℕ,
}
use ltram_policy_bench.Prelude.Int.{pos}
use ltram_policy_bench.Prelude.Words.{sub64}
use ltram_policy_bench.Ycsb.Text.{Bytes, str_eq}
use ltram_policy_bench.Ycsb.Env.{Env}
use ltram_policy_bench.Ycsb.Build.{made}
use ltram_policy_bench.Ycsb.Properties.{Properties, get_property}
use ltram_policy_bench.Ycsb.Generators.{add_value, discrete_next, choose, counter_last}
use ltram_policy_bench.Ycsb.Generators.Virtual.{constant, uniform, new_uniform}
use ltram_policy_bench.Ycsb.Workload.{Operation, Choosers, next_transaction_key, draw_key}
use ltram_policy_bench.Ycsb.Workload.Names.{
  record_count_property, read_proportion_property, uniform_word, constant_word,
}
use ltram_policy_bench.Ycsb.Workload.Init.{
  Reader, Core, init, field_len_generator, proportions, operations, new_key_chooser,
  new_scan_len_chooser, assemble, str_to_bool,
}
use ltram_policy_bench.Ycsb.Workload.Init.Ready.{IsBetween, request_distribution}
use ltram_policy_bench.Ycsb.Workload.Draws.Steady.{
  IsCovered, Live, live, choices_of, DrawsAlike, spread, fixed,
}
use ltram_policy_bench.Ycsb.Client.{World, transact, do_transaction, perform, on_key}
use ltram_policy_bench.Ycsb.Client.FromInit.{
  field_length_distribution, scan_length_distribution, init-returns,
}
use ltram_policy_bench.Ycsb.StringHashtable.{StringHashtable, find_pair}
use ltram_policy_bench.Ycsb.StlHashtable.Laws.{stl_hashtable}
use ltram_policy_bench.Ycsb.Client.Loaded.{hashtable_db}
use ltram_policy_bench.Ycsb.Threads.{ops_each}
use ltram_policy_bench.Ycsb.Clients.{Caller, callers_of, call_threads, Sys, Reach, AllDone}
use ltram_policy_bench.Ycsb.Clients.Alone.{transact-Reach}
use ltram_policy_bench.Ycsb.Clients.Progress.{CanStep}
use ltram_policy_bench.Ycsb.Clients.Ends.{steps}
use ltram_policy_bench.Ycsb.Clients.FromInit.{init-ends}
use ltram_policy_bench.Tests.Zipfian.{whole}
use ltram_policy_bench.Tests.Init.{decimal_of}

-- Whole numbers, with random_double always 0.
abbrev low : Env
low = record whole { random_double = λ r. (0, r + 1) }

abbrev reader_low : Reader low
reader_low = record {
  stoi = λ s. elim (decimal_of s) [ none ↦ none | some n ↦ some (pos n) ];
  stod = decimal_of;
  of_int = λ z. 0;
  to_int = λ d. pos d;
  zipfian_const = 0;
}

abbrev nine_reads : Properties
nine_reads = (record_count_property, b'7' ∷ []) ∷ (read_proportion_property, b'9' ∷ []) ∷ []

abbrev set_up : Core low reader_low nine_reads
set_up =
    assemble low reader_low nine_reads (pos 1) (pos 1) true false (pos 7) (pos 0)
      (record { read = 9; update = 0; insert = 0; scan = 0; read_modify_write = 0 })
      (record {
        field_len = constant 1;
        key_chooser = uniform 0 6 0;
        field_chooser = uniform 0 0 0;
        scan_len_chooser = uniform 1 1 1;
      })

set_up_runs : init low reader_low nine_reads 5 ≡ made (set_up, 8)
unfolding init field_len_generator proportions new_key_chooser new_scan_len_chooser new_uniform
    str_to_bool get_property find_pair str_eq
set_up_runs = refl

always_read : IsCovered low set_up.op_chooser
unfolding assemble operations add_value discrete_next choose
always_read r = (Operation.read, refl)

within_bounds : IsBetween low reader_low nine_reads
within_bounds lo hi r h = (omega arith, h)

uniform_keys : str_eq (request_distribution low reader_low nine_reads) uniform_word ≡ true
unfolding get_property find_pair str_eq
uniform_keys = refl

uniform_scans : str_eq (scan_length_distribution low reader_low nine_reads) uniform_word ≡ true
unfolding get_property find_pair str_eq
uniform_scans = refl

constant_lengths : str_eq (field_length_distribution low reader_low nine_reads) constant_word ≡ true
unfolding get_property find_pair str_eq
constant_lengths = refl

abbrev low_draws : Choosers
low_draws = live low (sub64 set_up.record_count 1) set_up.op_chooser always_read

abbrev F : StringHashtable Bytes
F = stl_hashtable Bytes

abbrev K : StringHashtable F.Table
K = stl_hashtable F.Table

init-returns_example :
    (s : Live low) × (choices_of low
        (sub64 set_up.record_count 1)
        set_up.op_chooser
        always_read
        reader_low
        nine_reads
        s
      ≡ set_up.choices)
    × (s.source ≡ 8)
    × DrawsAlike low
        (sub64 set_up.record_count 1)
        set_up.op_chooser
        always_read
        reader_low
        nine_reads
    × (os : List Operation) × (oks : ℕ) × (w : World (hashtable_db F K) low_draws) × (transact
          (hashtable_db F K)
          low_draws
          4
          1
          set_up.settings
          (record {
            db = K.new;
            workload = record {
              key_generator = set_up.key_generator;
              insert_key_sequence = set_up.insert_key_sequence;
              choosers = s;
            };
          })
        ≡ some (os, oks, w))
init-returns_example =
    init-returns low reader_low nine_reads 5 8 set_up (hashtable_db F K) K.new 4 always_read
      within_bounds set_up_runs uniform_keys uniform_scans (inl constant_lengths)

-- As `Init` left it.
abbrev at_first : World (hashtable_db F K) low_draws
at_first = record {
  db = K.new;
  workload = record {
    key_generator = set_up.key_generator;
    insert_key_sequence = set_up.insert_key_sequence;
    choosers = record {
      key_last = 0;
      field_chooser = spread 0 0 0;
      scan_len_chooser = spread 1 1 1;
      field_len = fixed 1;
      source = 8;
    };
  };
}

-- What one transaction returns, which is something.
abbrev one_read : List Operation × ℕ × World (hashtable_db F K) low_draws
one_read = elim (transact (hashtable_db F K) low_draws 1 1 set_up.settings at_first) [
  | none ↦ ([], 0, at_first)
  | some r ↦ r
]

one_read_runs : transact (hashtable_db F K) low_draws 1 1 set_up.settings at_first ≡ some one_read
unfolding transact do_transaction perform always_read on_key next_transaction_key draw_key
    counter_last
one_read_runs = refl

abbrev idle : ℕ → ℕ → Caller
idle left oks = record { left = left; oks = oks; call = none }

abbrev half_way : Sys (hashtable_db F K) low_draws
half_way = record { world = one_read.2; callers = idle 0 (0 + one_read.1) ∷ idle 1 0 ∷ [] }

one_thread_ran :
    Reach
      (hashtable_db F K)
      low_draws
      false
      1
      set_up.settings
      (record { world = at_first; callers = callers_of (pos 2) (pos 2) })
      half_way
unfolding call_threads ops_each
one_thread_ran =
    transact-Reach (hashtable_db F K) low_draws 1 set_up.settings [] (idle 1 0 ∷ []) 1 0 one_read.1
      at_first one_read.2 one_read.0 one_read_runs

init-ends_example :
    (steps (hashtable_db F K) low_draws false 1 set_up.settings one_thread_ran ≤ 3 * 2)
    × (AllDone half_way.callers
        ⊎ CanStep (hashtable_db F K) low_draws false 1 set_up.settings half_way)
init-ends_example =
    init-ends low reader_low nine_reads 5 8 set_up (hashtable_db F K) always_read (pos 2) (pos 2)
      at_first half_way one_thread_ran within_bounds set_up_runs refl

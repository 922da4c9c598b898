-- ===== src/Tests/Run.antt =====
-- Whole runs of workloads/YCSB-C/ycsbc.cc with two threads and two records.
use ltram_policy_bench.Prelude.{
  ℕ, ◌+◌, ◌≡◌, refl, List, [], ◌∷◌, ◌++◌, true, false, Option, none, some,
}
use ltram_policy_bench.Prelude.Int.{pos}
use ltram_policy_bench.Ycsb.Text.{Bytes, str_eq}
use ltram_policy_bench.Ycsb.Build.{made}
use ltram_policy_bench.Ycsb.Properties.{
  Properties, get_property, at, int_at, set_property, load_text, load_line, cut, trim, trim_back,
  trim_front,
}
use ltram_policy_bench.Ycsb.Split.{split}
use ltram_policy_bench.Ycsb.StringHashtable.{find_pair}
use ltram_policy_bench.Ycsb.CommandLine
use ltram_policy_bench.Ycsb.CommandLine.{
  dbname, threadcount, flag_of, parse_args, parse_command_line, str_start_with,
}
use ltram_policy_bench.Ycsb.DbFactory.{lock_stl, lock_stl_word, create_db}
use ltram_policy_bench.Ycsb.Generators.{counter_last}
use ltram_policy_bench.Ycsb.Generators.Virtual.{constant, uniform, new_uniform}
use ltram_policy_bench.Ycsb.Workload.{
  Operation, build_values, value_loop, next_value, next_sequence_key, next_transaction_key,
  draw_key,
}
use ltram_policy_bench.Ycsb.Workload.Names.{record_count_property, operation_count_property}
use ltram_policy_bench.Ycsb.Workload.Init.{
  Core, assemble, init, field_len_generator, proportions, new_key_chooser, new_scan_len_chooser,
  str_to_bool,
}
use ltram_policy_bench.Ycsb.Timer
use ltram_policy_bench.Ycsb.Timer.{Clock}
use ltram_policy_bench.Ycsb.Threads.{ops_each, launched}
use ltram_policy_bench.Ycsb.Client.{
  World, load, transact, do_transaction, perform, do_insert, transaction_insert, on_key,
}
use ltram_policy_bench.Ycsb.Client.Loaded.{hashtable_db}
use ltram_policy_bench.Ycsb.Clients.{Caller, callers_of, call_threads, sum_oks, Sys, Reach}
use ltram_policy_bench.Ycsb.Clients.Alone.{Reach-trans, load-Reach, transact-Reach}
use ltram_policy_bench.Ycsb.Main.{loads, with_db, with_created, with_parsed, main}
use ltram_policy_bench.Ycsb.Main.Run.{Report, finished, ktps_of, Runs, completed}
use ltram_policy_bench.Tests.Client.{turns}
use ltram_policy_bench.Tests.Init.{reader}
use ltram_policy_bench.Tests.Loaded.{F, K}
use ltram_policy_bench.Tests.Zipfian.{whole}

abbrev pub two : Bytes
two = b'2' ∷ []

abbrev line : Bytes → Bytes
line property = property ++ b'=' ∷ b'2' ∷ []

-- Every file gives two records and two operations.
abbrev contents : Bytes → Option Bytes
contents name = some (line record_count_property ++ b'\n' ∷ line operation_count_property)

abbrev argv : List Bytes
argv = CommandLine.db ∷ lock_stl_word ∷ CommandLine.threads ∷ two ∷ CommandLine.file ∷ two ∷ []

abbrev ps : Properties
ps =
    (dbname, lock_stl_word)
    ∷ (threadcount, two)
    ∷ (record_count_property, two)
    ∷ (operation_count_property, two)
    ∷ []

abbrev pub wl : Core whole reader ps
wl =
    assemble whole reader ps (pos 1) (pos 1) true false (pos 2) (pos 0)
      (record { read = 0; update = 0; insert = 0; scan = 0; read_modify_write = 0 })
      (record {
        field_len = constant 1;
        key_chooser = uniform 0 1 0;
        field_chooser = uniform 0 0 0;
        scan_len_chooser = uniform 1 1 1;
      })

main_runs :
    main whole reader contents false argv 5
    ≡ made (loads ps two lock_stl wl (pos 2) (pos 2) (launched wl.key_generator (pos 2) (pos 2)), 8)
unfolding main with_parsed with_created with_db create_db parse_command_line parse_args flag_of
    str_start_with set_property load_text init field_len_generator proportions new_key_chooser
    new_scan_len_chooser new_uniform str_to_bool get_property at int_at find_pair str_eq split
    load_line cut trim trim_back trim_front
main_runs = refl

abbrev Shared : Type 0
Shared = World (hashtable_db F K) turns

abbrev pub Threads : Type 0
Threads = Sys (hashtable_db F K) turns

abbrev pub at_first : Shared
at_first = record {
  db = K.new;
  workload = record {
    key_generator = wl.key_generator;
    insert_key_sequence = wl.insert_key_sequence;
    choosers = 0;
  };
}

abbrev idle : ℕ → ℕ → Caller
idle left oks = record { left = left; oks = oks; call = none }

-- One thread loads its record, and then the other.
abbrev load_one : Shared → ℕ × Shared
load_one = load (hashtable_db F K) turns 1 wl.settings

abbrev once_loaded : Shared
once_loaded = (load_one at_first).1

abbrev pub all_loaded : Shared
all_loaded = (load_one once_loaded).1

abbrev pub after_loading : Threads
after_loading = record {
  world = all_loaded;
  callers = idle 0 (0 + (load_one at_first).0) ∷ idle 0 (0 + (load_one once_loaded).0) ∷ [];
}

pub loading :
    Reach
      (hashtable_db F K)
      turns
      true
      9
      wl.settings
      (record { world = at_first; callers = callers_of (pos 2) (pos 2) })
      after_loading
unfolding call_threads ops_each
loading =
    Reach-trans (hashtable_db F K) turns true 9 wl.settings
      (load-Reach (hashtable_db F K) turns 9 wl.settings [] (idle 1 0 ∷ []) 1 0 at_first)
      (load-Reach (hashtable_db F K) turns 9 wl.settings (idle 0 (0 + (load_one at_first).0) ∷ [])
        [] 1 0 once_loaded)

-- The same for a transaction each.
abbrev transact_one : Shared → List Operation × ℕ × Shared
transact_one s = elim (transact (hashtable_db F K) turns 1 9 wl.settings s) [
  | none ↦ ([], 0, s)
  | some r ↦ r
]

abbrev half_way : List Operation × ℕ × Shared
half_way = transact_one all_loaded

abbrev through : List Operation × ℕ × Shared
through = transact_one half_way.2

half_way_runs : transact (hashtable_db F K) turns 1 9 wl.settings all_loaded ≡ some half_way
unfolding transact do_transaction perform load do_insert transaction_insert build_values value_loop
    next_value next_sequence_key on_key next_transaction_key draw_key counter_last assemble
half_way_runs = refl

through_runs : transact (hashtable_db F K) turns 1 9 wl.settings half_way.2 ≡ some through
unfolding transact do_transaction perform load do_insert transaction_insert build_values value_loop
    next_value next_sequence_key on_key next_transaction_key draw_key counter_last assemble
through_runs = refl

abbrev after_running : Threads
after_running = record {
  world = through.2;
  callers = idle 0 (0 + half_way.1) ∷ idle 0 (0 + through.1) ∷ [];
}

running :
    Reach
      (hashtable_db F K)
      turns
      false
      9
      wl.settings
      (record { world = all_loaded; callers = callers_of (pos 2) (pos 2) })
      after_running
unfolding call_threads ops_each
running =
    Reach-trans (hashtable_db F K) turns false 9 wl.settings
      (transact-Reach (hashtable_db F K) turns 9 wl.settings [] (idle 1 0 ∷ []) 1 0 half_way.1
        all_loaded half_way.2 half_way.0 half_way_runs)
      (transact-Reach (hashtable_db F K) turns 9 wl.settings (idle 0 (0 + half_way.1) ∷ []) [] 1 0
        through.1 half_way.2 through.2 through.0 through_runs)

-- Each reading of the clock is a second later.
abbrev pub clock : Clock whole
clock = record { State = ℕ; TimePoint = ℕ; now = λ s. (s, s + 1); span = λ t t'. t' + 1 }

abbrev report : Report whole
report = record {
  loaded = sum_oks after_loading.callers;
  db_name = lock_stl_word;
  file_name = two;
  num_threads = pos 2;
  ktps = ktps_of whole reader (pos 2) (Timer.stop whole clock (Timer.start whole clock 0).0 7).0;
}

known : int_at reader.stoi operation_count_property ps ≡ some (pos 2)
unfolding int_at at find_pair str_eq
known = refl

run :
    Runs whole reader clock
      (hashtable_db F K)
      turns
      9
      wl.settings
      ps
      two
      (pos 2)
      (pos 2)
      at_first
      (finished report)
      through.2
unfolding at find_pair str_eq
run =
    completed after_loading after_running (pos 2) lock_stl_word 0 7 loading
      (refl, refl, (refl, refl, tt)) known running (refl, refl, (refl, refl, tt)) refl

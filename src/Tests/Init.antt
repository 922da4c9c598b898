-- ===== src/Tests/Init.antt =====
-- `Init` of workloads/YCSB-C/core/core_workload.cc over whole numbers.
use ltram_policy_bench.Prelude.{ℕ, ◌≡◌, refl, [], ◌∷◌, true, false, Option, none, some, ◌-◌}
use ltram_policy_bench.Prelude.Int.{pos}
use ltram_policy_bench.Ycsb.Text.{Bytes, str_eq}
use ltram_policy_bench.Ycsb.Build.{made, thrown}
use ltram_policy_bench.Ycsb.StringHashtable.{find_pair}
use ltram_policy_bench.Ycsb.Properties.{Properties, get_property}
use ltram_policy_bench.Ycsb.Generators.{add_value, discrete_next, choose}
use ltram_policy_bench.Ycsb.Generators.Virtual.{constant, uniform, new_uniform}
use ltram_policy_bench.Ycsb.Workload.{Operation}
use ltram_policy_bench.Ycsb.Workload.Names.{record_count_property}
use ltram_policy_bench.Ycsb.Workload.Init.{
  Reader, Mix, Core, init, field_len_generator, proportions, operations, new_key_chooser,
  new_scan_len_chooser, assemble, str_to_bool,
}
use ltram_policy_bench.Ycsb.Workload.Init.Ready.{IsReady, init-IsReady}
use ltram_policy_bench.Tests.Zipfian.{whole}

-- Every text but the empty one is a number.
abbrev pub decimal_of : Bytes → Option ℕ
decimal_of [] = none
decimal_of (c ∷ cs) = some (c - 0x30)

abbrev pub reader : Reader whole
reader = record {
  stoi = λ s. elim (decimal_of s) [ none ↦ none | some n ↦ some (pos n) ];
  stod = decimal_of;
  of_int = λ z. 0;
  to_int = λ d. pos d;
  zipfian_const = 0;
}

abbrev seven_records : Properties
seven_records = (record_count_property, b'7' ∷ []) ∷ []

abbrev after_init : Core whole reader seven_records
after_init =
    assemble whole reader seven_records (pos 1) (pos 1) true false (pos 7) (pos 0)
      (record { read = 0; update = 0; insert = 0; scan = 0; read_modify_write = 0 })
      (record {
        field_len = constant 1;
        key_chooser = uniform 0 6 0;
        field_chooser = uniform 0 0 0;
        scan_len_chooser = uniform 1 1 1;
      })

init_runs : init whole reader seven_records 5 ≡ made (after_init, 8)
unfolding init field_len_generator proportions new_key_chooser new_scan_len_chooser new_uniform
    str_to_bool get_property find_pair str_eq
init_runs = refl

-- Without a number of records `Init` throws.
init_throws : init whole reader [] 5 ≡ thrown
unfolding init field_len_generator proportions get_property find_pair str_eq
init_throws = refl

init-IsReady_example : IsReady whole reader seven_records after_init
init-IsReady_example = init-IsReady whole reader seven_records 5 8 after_init init_runs

abbrev reads_only : Mix whole reader []
reads_only = record { read = 9; update = 0; insert = 0; scan = 0; read_modify_write = 0 }

draws_read : (discrete_next whole (operations whole reader [] reads_only) 0).0 ≡ some Operation.read
unfolding discrete_next choose operations add_value
draws_read = refl

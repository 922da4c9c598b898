-- ===== src/Tests/Main.antt =====
-- `main` of workloads/YCSB-C/ycsbc.cc with and without a database.
use mathlib.Core.List.{Perm}
use ltram_policy_bench.Prelude.{ℕ, ◌≡◌, refl, List, [], ◌∷◌, true, false, Option, some, arith}
use ltram_policy_bench.Prelude.Int.{pos, to_size}
use ltram_policy_bench.Ycsb.Text.{Bytes, str_eq}
use ltram_policy_bench.Ycsb.Build.{made, thrown}
use ltram_policy_bench.Ycsb.Properties.{
  Properties, get_property, at, int_at, set_property, load_text, load_line, cut, trim, trim_back,
  trim_front,
}
use ltram_policy_bench.Ycsb.Split.{split}
use ltram_policy_bench.Ycsb.StringHashtable.{find_pair}
use ltram_policy_bench.Ycsb.CommandLine
use ltram_policy_bench.Ycsb.CommandLine.{
  dbname, threadcount, flag_of, parse_args, parse_command_line, str_start_with,
}
use ltram_policy_bench.Ycsb.CommandLine.Options.{of_threads, of_host, spell}
use ltram_policy_bench.Ycsb.DbFactory.{basic, basic_word, create_db}
use ltram_policy_bench.Ycsb.Generators.{counter_next}
use ltram_policy_bench.Ycsb.Generators.Virtual.{constant, uniform, new_uniform}
use ltram_policy_bench.Ycsb.Workload.Names.{record_count_property}
use ltram_policy_bench.Ycsb.Workload.Init.{
  Core, assemble, init, field_len_generator, proportions, new_key_chooser, new_scan_len_chooser,
  str_to_bool,
}
use ltram_policy_bench.Ycsb.Threads.{Loader, ops_each, launch, launched, draw, Reach, here, next}
use ltram_policy_bench.Ycsb.Threads.Keys.{numbers}
use ltram_policy_bench.Ycsb.Main.{loads, with_db, with_created, with_parsed, main}
use ltram_policy_bench.Ycsb.Main.Start.{main_keys}
use ltram_policy_bench.Ycsb.Main.Unnamed.{main_unnamed}
use ltram_policy_bench.Tests.Init.{reader}
use ltram_policy_bench.Tests.Zipfian.{whole}

-- Every file holds `recordcount=3`.
abbrev contents : Bytes → Option Bytes
contents name =
    some (
      b'r' ∷ b'e' ∷ b'c' ∷ b'o' ∷ b'r' ∷ b'd' ∷ b'c' ∷ b'o' ∷ b'u' ∷ b'n' ∷ b't' ∷ b'=' ∷ b'3' ∷ [])

abbrev two : Bytes
two = b'2' ∷ []

abbrev argv : List Bytes
argv = CommandLine.db ∷ basic_word ∷ CommandLine.threads ∷ two ∷ CommandLine.file ∷ two ∷ []

abbrev ps : Properties
ps = (dbname, basic_word) ∷ (threadcount, two) ∷ (record_count_property, b'3' ∷ []) ∷ []

abbrev wl : Core whole reader ps
wl =
    assemble whole reader ps (pos 1) (pos 1) true false (pos 3) (pos 0)
      (record { read = 0; update = 0; insert = 0; scan = 0; read_modify_write = 0 })
      (record {
        field_len = constant 1;
        key_chooser = uniform 0 2 0;
        field_chooser = uniform 0 0 0;
        scan_len_chooser = uniform 1 1 1;
      })

main_runs :
    main whole reader contents false argv 5
    ≡ made (loads ps two basic wl (pos 2) (pos 3) (launched wl.key_generator (pos 3) (pos 2)), 8)
unfolding main with_parsed with_created with_db create_db parse_command_line parse_args flag_of
    str_start_with set_property load_text init field_len_generator proportions new_key_chooser
    new_scan_len_chooser new_uniform str_to_bool get_property at int_at find_pair str_eq split
    load_line cut trim trim_back trim_front
main_runs = refl

abbrev loader : ℕ → List ℕ → Loader
loader left drawn = record { left = left; drawn = drawn }

two_loaded :
    Reach
      (launched wl.key_generator (pos 3) (pos 2))
      (record { counter = 2; threads = loader 0 (1 ∷ []) ∷ loader 0 (0 ∷ []) ∷ [] })
unfolding ops_each launch counter_next assemble
two_loaded =
    next (next here (draw (loader 1 [] ∷ []) [] 0 0 [])) (draw [] (loader 0 (0 ∷ []) ∷ []) 1 0 [])

counter_low : wl.key_generator ≡ 0
unfolding assemble
counter_low = refl

main_keys_example :
    (wl.record_count ≡ to_size (pos 3)) × Perm (1 ∷ 0 ∷ []) (numbers wl.key_generator 2)
main_keys_example =
    main_keys whole reader contents false argv 5 8 ps two basic wl (pos 2) (pos 3) main_runs
      two_loaded refl (omega arith) (omega (arith, counter_low))

main_unnamed_example :
    main whole reader contents true (spell (of_threads two ∷ of_host two ∷ [])) 5 ≡ thrown
main_unnamed_example =
    main_unnamed whole reader contents true (of_threads two) (of_host two ∷ []) 5 tt

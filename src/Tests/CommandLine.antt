-- ===== src/Tests/CommandLine.antt =====
-- The command line and the property files of workloads/YCSB-C at small inputs.
use ltram_policy_bench.Prelude.{◌≡◌, refl, List, [], ◌∷◌, Option, none, some, if◌then◌else◌}
use ltram_policy_bench.Ycsb.Text.{Bytes, str_eq}
use ltram_policy_bench.Ycsb.Split.{has_byte}
use ltram_policy_bench.Ycsb.Properties.{
  Properties, set_property, trim, trim_front, trim_back, load_text,
}
use ltram_policy_bench.Ycsb.Properties.Load.{IsPlain, ArePlain, render, set_all, load_text-render}
use ltram_policy_bench.Ycsb.CommandLine.{
  parsed, parse_args, parse_command_line, threads, threadcount, db, dbname, str_start_with, flag_of,
}
use ltram_policy_bench.Ycsb.CommandLine.Options.{
  Choice, of_threads, of_file, of_db, spell, effect, parse_command_line-spell,
}

abbrev a : Bytes
a = b'a' ∷ []

abbrev four : Bytes
four = b'4' ∷ []

-- A value with a space and a second `=` in it.
abbrev mixed : Bytes
mixed = b'x' ∷ 0x20 ∷ b'=' ∷ b'y' ∷ []

abbrev lines : Properties
lines = (a, mixed) ∷ (threadcount, four) ∷ (a, four) ∷ []

first-IsPlain : IsPlain a mixed
unfolding has_byte trim trim_front trim_back
first-IsPlain = record {
  no_comment = refl;
  no_equals = refl;
  one_line = (refl, refl);
  trimmed = (refl, refl);
}

second-IsPlain : IsPlain threadcount four
unfolding has_byte trim trim_front trim_back
second-IsPlain = record {
  no_comment = refl;
  no_equals = refl;
  one_line = (refl, refl);
  trimmed = (refl, refl);
}

third-IsPlain : IsPlain a four
unfolding has_byte trim trim_front trim_back
third-IsPlain = record {
  no_comment = refl;
  no_equals = refl;
  one_line = (refl, refl);
  trimmed = (refl, refl);
}

lines-ArePlain : ArePlain lines
lines-ArePlain = (first-IsPlain, (second-IsPlain, (third-IsPlain, tt)))

load_text-render_example : load_text (render lines) [] ≡ set_all lines []
load_text-render_example = load_text-render lines [] lines-ArePlain

set_all_runs : set_all lines [] ≡ (a, four) ∷ (threadcount, four) ∷ []
unfolding set_all set_property str_eq
set_all_runs = refl

-- One file, which sets the number of threads.
abbrev files : Bytes → Option Bytes
files name = if str_eq name a then some (render lines) else none

abbrev choices : List Choice
choices = of_file a ∷ of_db mixed ∷ []

parse_command_line-spell_example :
    parse_command_line files (spell (of_threads four ∷ choices)) []
    ≡ effect files (of_threads four ∷ choices) [] []
parse_command_line-spell_example = parse_command_line-spell files (of_threads four) choices []

abbrev line : List Bytes
line = threads ∷ four ∷ db ∷ a ∷ []

line_parsed : parse_command_line files line [] ≡ parsed [] ((threadcount, four) ∷ (dbname, a) ∷ [])
unfolding parse_command_line parse_args flag_of str_eq str_start_with set_property
line_parsed = refl

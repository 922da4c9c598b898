-- ===== src/Ycsb/CommandLine.antt =====
-- ParseCommandLine and StrStartWith of workloads/YCSB-C/ycsbc.cc. The files are a function from
-- names to texts, where `none` is a file that does not open.
pub mod Options
use ltram_policy_bench.Prelude.{
  ℕ, List, [], ◌∷◌, Bool, true, false, ◌&&◌, Option, none, some, ◌==◌, if◌then◌else◌,
}
use ltram_policy_bench.Ycsb.Text.{Bytes, str_eq}
use ltram_policy_bench.Ycsb.Properties.{Properties, set_property, load_text}

-- The program goes on with a file name and properties, calls exit(0), or ends by an exception.
pub data Parsed : Type 0 where
  parsed : Bytes → Properties → Parsed
  exited : Parsed
  uncaught : Parsed

unfoldable pub str_start_with : Bytes → Bytes → Bool
str_start_with str [] = true
str_start_with [] (p ∷ pre) = false
str_start_with (c ∷ str) (p ∷ pre) = (c == p) && str_start_with str pre

-- `-threads`, `-db`, `-host`, `-port`, `-slaves` and `-P`.
abbrev pub threads : Bytes
threads = b'-' ∷ b't' ∷ b'h' ∷ b'r' ∷ b'e' ∷ b'a' ∷ b'd' ∷ b's' ∷ []

abbrev pub db : Bytes
db = b'-' ∷ b'd' ∷ b'b' ∷ []

abbrev pub host : Bytes
host = b'-' ∷ b'h' ∷ b'o' ∷ b's' ∷ b't' ∷ []

abbrev pub port : Bytes
port = b'-' ∷ b'p' ∷ b'o' ∷ b'r' ∷ b't' ∷ []

abbrev pub slaves : Bytes
slaves = b'-' ∷ b's' ∷ b'l' ∷ b'a' ∷ b'v' ∷ b'e' ∷ b's' ∷ []

abbrev pub file : Bytes
file = b'-' ∷ b'P' ∷ []

abbrev pub threadcount : Bytes
threadcount = b't' ∷ b'h' ∷ b'r' ∷ b'e' ∷ b'a' ∷ b'd' ∷ b'c' ∷ b'o' ∷ b'u' ∷ b'n' ∷ b't' ∷ []

abbrev pub dbname : Bytes
dbname = b'd' ∷ b'b' ∷ b'n' ∷ b'a' ∷ b'm' ∷ b'e' ∷ []

-- What an option does with the argument after it.
pub data Flag : Type 0 where
  property : Bytes → Flag
  load_file : Flag
  unknown : Flag

unfoldable pub flag_of : Bytes → Flag
flag_of arg =
    if str_eq arg threads
    then property threadcount
    else if str_eq arg db
    then property dbname
    else if str_eq arg host
    then property (b'h' ∷ b'o' ∷ b's' ∷ b't' ∷ [])
    else if str_eq arg port
    then property (b'p' ∷ b'o' ∷ b'r' ∷ b't' ∷ [])
    else if str_eq arg slaves
    then property (b's' ∷ b'l' ∷ b'a' ∷ b'v' ∷ b'e' ∷ b's' ∷ [])
    else if str_eq arg file
    then load_file
    else unknown

module _ (contents : Bytes → Option Bytes) where
  -- The loop, from `argv[argindex]` on, and the test after it. With one argument left, each branch
  -- ends in exit(0).
  unfoldable pub parse_args : List Bytes → Bytes → Properties → Parsed
  parse_args [] filename props = parsed filename props
  parse_args (arg ∷ []) filename props = exited
  parse_args (arg ∷ value ∷ args) filename props =
      if str_start_with arg (b'-' ∷ [])
      then elim (flag_of arg) [
        | property name ↦ parse_args args filename (set_property name value props)
        | load_file ↦ elim (contents value) [
          | none ↦ uncaught
          | some text ↦ parse_args args value (load_text text props)
        ]
        | unknown ↦ exited
      ]
      else exited

  -- `argv` without the name of the program.
  unfoldable pub parse_command_line : List Bytes → Properties → Parsed
  parse_command_line [] props = exited
  parse_command_line (arg ∷ args) props = parse_args (arg ∷ args) [] props

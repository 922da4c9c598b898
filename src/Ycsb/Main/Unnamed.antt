-- ===== src/Ycsb/Main/Unnamed.antt =====
-- A run of workloads/YCSB-C/ycsbc.cc without the name of a database.
use ltram_policy_bench.Prelude.{
  ◌≡◌, refl, ◌∙◌, List, [], ◌∷◌, Bool, false, Option, none, some, arith,
}
use ltram_policy_bench.Prelude.Int.{ℤ}
use ltram_policy_bench.Ycsb.Text.{Bytes, str_eq}
use ltram_policy_bench.Ycsb.Env.{Env}
use ltram_policy_bench.Ycsb.Build.{thrown}
use ltram_policy_bench.Ycsb.Properties.{Properties, at, get_property, set_property}
use ltram_policy_bench.Ycsb.Properties.Load.{find_pair-set_property}
use ltram_policy_bench.Ycsb.StringHashtable.{find_pair}
use ltram_policy_bench.Ycsb.CommandLine.{parsed, dbname, threadcount}
use ltram_policy_bench.Ycsb.CommandLine.Options.{
  Choice, of_threads, of_db, of_host, of_port, of_slaves, of_file, spell, effect,
  parse_command_line-spell,
}
use ltram_policy_bench.Ycsb.DbFactory.{create_db, host_word, port_word, slaves_word}
use ltram_policy_bench.Ycsb.Workload.Init.{Reader}
use ltram_policy_bench.Ycsb.Main.{with_created, with_parsed, main}

-- Neither `-db` nor a file.
abbrev pub IsUnnamed : List Choice → Type 0
IsUnnamed [] = Unit
IsUnnamed (of_db _ ∷ os) = ⊥
IsUnnamed (of_file _ ∷ os) = ⊥
IsUnnamed (_ ∷ os) = IsUnnamed os

abbrev NoName : Properties → Type 0
NoName ps = find_pair dbname ps ≡ none

NoName-set :
    (k v : Bytes) (ps : Properties)
    → str_eq k dbname ≡ false
    → NoName ps
    → NoName (set_property k v ps)
NoName-set k v ps other h = ground (arith, find_pair-set_property dbname k v ps)

get_property-NoName : (ps : Properties) → NoName ps → get_property dbname [] ps ≡ []
unfolding get_property
get_property-NoName ps h = ground arith

create_db-NoName :
    (stoi : Bytes → Option ℤ) (use_tbb : Bool) (ps : Properties)
    → NoName ps
    → create_db stoi use_tbb ps ≡ some none
unfolding create_db str_eq
create_db-NoName stoi use_tbb ps h =
    let empty : get_property dbname [] ps ≡ [] = get_property-NoName ps h in rw empty (ground arith)

module _ (contents : Bytes → Option Bytes) where
  effect-NoName :
      (os : List Choice) (name : Bytes) (ps : Properties)
      → IsUnnamed os
      → NoName ps
      → (name' : Bytes) × (ps' : Properties) × (effect contents os name ps ≡ parsed name' ps')
        × NoName ps'
  unfolding effect str_eq
  effect-NoName [] name ps u h = (name, ps, refl, h)
  effect-NoName (of_threads v ∷ os) name ps u h =
      effect-NoName os name (set_property threadcount v ps) u (NoName-set threadcount v ps refl h)
  effect-NoName (of_host v ∷ os) name ps u h =
      effect-NoName os name (set_property host_word v ps) u (NoName-set host_word v ps refl h)
  effect-NoName (of_port v ∷ os) name ps u h =
      effect-NoName os name (set_property port_word v ps) u (NoName-set port_word v ps refl h)
  effect-NoName (of_slaves v ∷ os) name ps u h =
      effect-NoName os name (set_property slaves_word v ps) u (NoName-set slaves_word v ps refl h)
  effect-NoName (of_db v ∷ os) name ps u h = absurd u
  effect-NoName (of_file v ∷ os) name ps u h = absurd u

module _ (e : Env) (rd : Reader e) (contents : Bytes → Option Bytes) (use_tbb : Bool) where
  -- Options that name no database, neither with -db nor in a file, do not select the basic one: there
  -- is no database, and the message about that, which looks the name up, throws an exception that
  -- nothing catches, before there is a workload, whatever the other options are.
  pub main_unnamed :
      (o : Choice) (os : List Choice) (r : e.Source)
      → IsUnnamed (o ∷ os)
      → main e rd contents use_tbb (spell (o ∷ os)) r ≡ thrown
  unfolding main with_parsed with_created at find_pair
  main_unnamed o os r u =
      let (name, ps, parses, no_name) = effect-NoName contents (o ∷ os) [] [] u refl in
      rw (parse_command_line-spell contents o os [] ∙ parses)
        (rw (create_db-NoName rd.stoi use_tbb ps no_name) (rw no_name refl))

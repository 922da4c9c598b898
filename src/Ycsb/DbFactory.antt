-- ===== src/Ycsb/DbFactory.antt =====
-- `DBFactory::CreateDB` of workloads/YCSB-C/db/db_factory.cc.
use ltram_policy_bench.Prelude.{[], ◌∷◌, Bool, ◌&&◌, Option, none, some, if◌then◌else◌}
use ltram_policy_bench.Prelude.Int.{ℤ}
use ltram_policy_bench.Ycsb.Text.{Bytes, str_eq, c_str}
use ltram_policy_bench.Ycsb.Properties.{Properties, get_property}
use ltram_policy_bench.Ycsb.CommandLine.{dbname}

-- The database that is made. One of Redis has its host, its port and its number of slaves.
pub data Database : Type 0 where
  basic lock_stl tbb_rand tbb_scan : Database
  redis : Bytes → ℤ → ℤ → Database

abbrev pub basic_word : Bytes
basic_word = b'b' ∷ b'a' ∷ b's' ∷ b'i' ∷ b'c' ∷ []

abbrev pub lock_stl_word : Bytes
lock_stl_word = b'l' ∷ b'o' ∷ b'c' ∷ b'k' ∷ b'_' ∷ b's' ∷ b't' ∷ b'l' ∷ []

abbrev pub redis_word : Bytes
redis_word = b'r' ∷ b'e' ∷ b'd' ∷ b'i' ∷ b's' ∷ []

abbrev pub tbb_rand_word : Bytes
tbb_rand_word = b't' ∷ b'b' ∷ b'b' ∷ b'_' ∷ b'r' ∷ b'a' ∷ b'n' ∷ b'd' ∷ []

abbrev pub tbb_scan_word : Bytes
tbb_scan_word = b't' ∷ b'b' ∷ b'b' ∷ b'_' ∷ b's' ∷ b'c' ∷ b'a' ∷ b'n' ∷ []

abbrev pub host_word : Bytes
host_word = b'h' ∷ b'o' ∷ b's' ∷ b't' ∷ []

abbrev pub port_word : Bytes
port_word = b'p' ∷ b'o' ∷ b'r' ∷ b't' ∷ []

abbrev pub slaves_word : Bytes
slaves_word = b's' ∷ b'l' ∷ b'a' ∷ b'v' ∷ b'e' ∷ b's' ∷ []

abbrev pub local_host : Bytes
local_host = b'1' ∷ b'2' ∷ b'7' ∷ b'.' ∷ b'0' ∷ b'.' ∷ b'0' ∷ b'.' ∷ b'1' ∷ []

abbrev pub default_port : Bytes
default_port = b'6' ∷ b'3' ∷ b'7' ∷ b'9' ∷ []

-- `stoi` is a parameter, where `none` is an exception; so is whether USE_TBB is defined.
module _ (stoi : Bytes → Option ℤ) (use_tbb : Bool) where
  -- The branch of Redis.
  unfoldable pub new_redis : Properties → Option Database
  new_redis ps = elim (stoi (get_property port_word default_port ps)) [
    | none ↦ none
    | some port ↦ elim (stoi (get_property slaves_word (b'0' ∷ []) ps)) [
      | none ↦ none
      | some slaves ↦ some (redis (c_str (get_property host_word local_host ps)) port slaves)
    ]
  ]

  -- `none` is an exception, and `some none` NULL.
  unfoldable pub create_db : Properties → Option (Option Database)
  create_db ps =
      let name = get_property dbname [] ps in
      if str_eq name basic_word
      then some (some basic)
      else if str_eq name lock_stl_word
      then some (some lock_stl)
      else if str_eq name redis_word
      then (elim (new_redis ps) [ none ↦ none | some d ↦ some (some d) ])
      else if use_tbb && str_eq name tbb_rand_word
      then some (some tbb_rand)
      else if use_tbb && str_eq name tbb_scan_word
      then some (some tbb_scan)
      else some none

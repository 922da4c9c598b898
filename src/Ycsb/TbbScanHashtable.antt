-- ===== src/Ycsb/TbbScanHashtable.antt =====
-- workloads/YCSB-C/lib/tbb_scan_hashtable.h: the table over a concurrent_unordered_map. Its lock,
-- which orders the calls of several threads, is in Ycsb/TbbLocks; each operation here is one of
-- them alone. `blocks` counts the key copies that were allocated and not freed.
pub mod Laws
use ltram_policy_bench.Prelude.{ℕ, ◌+◌, ◌-◌, List, Bool, false, Option, none, some, if◌then◌else◌}
use ltram_policy_bench.Ycsb.Text.{Bytes}
use ltram_policy_bench.Ycsb.HashString.{HashString, copy, wrap}
use ltram_policy_bench.Ycsb.StlHashtable.{collect}
use ltram_policy_bench.Ycsb.Tbb.{ConcurrentMap}

module _ {V : Type 0} (tbb : ConcurrentMap V) where
  pub record TbbScanHashtable : Type 0 where
    pub table : tbb.Map
    pub blocks : ℕ

  abbrev pub empty : TbbScanHashtable
  empty = record { table = tbb.new; blocks = 0 }

  -- Each operation goes on from the iterator that `find` returns, where `none` is `end()`.
  unfoldable pub get : Bytes → TbbScanHashtable → Option V
  get key t = elim (tbb.find (wrap key) t.table) [ none ↦ none | some it ↦ some it.1 ]

  unfoldable pub insert : Option Bytes → V → TbbScanHashtable → Bool × TbbScanHashtable
  insert none value t = (false, t)
  insert (some key) value t =
      let (second, table) = tbb.insert (copy key) value t.table in
      (second, record { table = table; blocks = t.blocks + 1 })

  unfoldable pub update : Bytes → V → TbbScanHashtable → Option V × TbbScanHashtable
  update key value t = elim (tbb.find (wrap key) t.table) [
    | none ↦ (none, t)
    | some it ↦ (some it.1, record t { table = tbb.assign (wrap key) value t.table })
  ]

  unfoldable pub remove : Bytes → TbbScanHashtable → Option V × TbbScanHashtable
  remove key t = elim (tbb.find (wrap key) t.table) [
    | none ↦ (none, t)
    | some it ↦ (some it.1, record { table = tbb.erase (wrap key) t.table; blocks = t.blocks - 1 })
  ]

  unfoldable pub entries : Option Bytes → ℕ → TbbScanHashtable → List (Bytes × V)
  entries none n t = collect n (tbb.nodes t.table)
  entries (some key) n t = collect n (tbb.from (wrap key) t.table)

  unfoldable pub size : TbbScanHashtable → ℕ
  size t = tbb.size t.table

-- ===== src/Ycsb/TbbRandHashtable.antt =====
-- workloads/YCSB-C/lib/tbb_rand_hashtable.h: the table over a concurrent_hash_map. Its lock, which
-- orders the calls of several threads, is in Ycsb/TbbLocks; each operation here is one of them
-- alone. `blocks` counts the key copies that were allocated and not freed.
pub mod Laws
use ltram_policy_bench.Prelude.{ℕ, ◌+◌, ◌-◌, List, Bool, false, Option, none, some, if◌then◌else◌}
use ltram_policy_bench.Ycsb.Text.{Bytes}
use ltram_policy_bench.Ycsb.HashString.{HashString, copy, wrap}
use ltram_policy_bench.Ycsb.StlHashtable.{collect}
use ltram_policy_bench.Ycsb.Tbb.{ConcurrentMap}

module _ {V : Type 0} (tbb : ConcurrentMap V) where
  pub record TbbRandHashtable : Type 0 where
    pub table : tbb.Map
    pub blocks : ℕ

  abbrev pub empty : TbbRandHashtable
  empty = record { table = tbb.new; blocks = 0 }

  -- Each operation goes on with what `find` put into the accessor.
  unfoldable pub get : Bytes → TbbRandHashtable → Option V
  get key t = elim (tbb.find (wrap key) t.table) [ none ↦ none | some result ↦ some result.1 ]

  unfoldable pub insert : Option Bytes → V → TbbRandHashtable → Bool × TbbRandHashtable
  insert none value t = (false, t)
  insert (some key) value t =
      let (done, table) = tbb.insert (copy key) value t.table in
      (done, record { table = table; blocks = t.blocks + 1 })

  unfoldable pub update : Bytes → V → TbbRandHashtable → Option V × TbbRandHashtable
  update key value t = elim (tbb.find (wrap key) t.table) [
    | none ↦ (none, t)
    | some result ↦ (some result.1, record t { table = tbb.assign (wrap key) value t.table })
  ]

  unfoldable pub remove : Bytes → TbbRandHashtable → Option V × TbbRandHashtable
  remove key t = elim (tbb.find (wrap key) t.table) [
    | none ↦ (none, t)
    | some result ↦
        (some result.1, record { table = tbb.erase (wrap key) t.table; blocks = t.blocks - 1 })
  ]

  unfoldable pub entries : Option Bytes → ℕ → TbbRandHashtable → List (Bytes × V)
  entries none n t = collect n (tbb.nodes t.table)
  entries (some key) n t = collect n (tbb.from (wrap key) t.table)

  unfoldable pub size : TbbRandHashtable → ℕ
  size t = tbb.size t.table

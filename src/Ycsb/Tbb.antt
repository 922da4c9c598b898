-- ===== src/Ycsb/Tbb.antt =====
-- The maps of the TBB library, concurrent_hash_map and concurrent_unordered_map, as the tables of
-- workloads/YCSB-C/lib/tbb_rand_hashtable.h and tbb_scan_hashtable.h use them.
pub mod Order
pub mod Held
pub mod Agree
use mathlib.Core.List.{Permᴰ}
use ltram_policy_bench.Prelude.{
  ℕ, ◌≤◌, ◌≡◌, List, [], ◌∷◌, Bool, true, false, Option, none, some, length,
}
use ltram_policy_bench.Ycsb.Text.{Bytes}
use ltram_policy_bench.Ycsb.HashString.{HashString, wrap}
use ltram_policy_bench.Ycsb.StlHashtable
use ltram_policy_bench.Ycsb.StlHashtable.Nodes.{occurs}

abbrev pub first {ℓ} : {A : Type ℓ} → List A → Option A
first [] = none
first (a ∷ _) = some a

-- A map with at most one node for each key. `nodes` is what an iteration from `begin()` meets, and
-- `from` what one from `equal_range(key).first` meets. The order in which a map iterates may change
-- with any change of the map.
pub record ConcurrentMap (V : Type 0) : Type 1 where
  pub Map : Type 0
  pub new : Map
  pub find : HashString → Map → Option (HashString × V)
  pub insert : HashString → V → Map → Bool × Map
  pub assign : HashString → V → Map → Map
  pub erase : HashString → Map → Map
  pub from : HashString → Map → List (HashString × V)
  pub nodes : Map → List (HashString × V)
  pub size : Map → ℕ
  pub nodes-new : nodes new ≡ []
  pub once : (q : Bytes) (m : Map) → occurs q (nodes m) ≤ 1
  pub size-nodes : (m : Map) → size m ≡ length (nodes m)
  pub find-nodes :
      (k : Bytes) (m : Map) → find (wrap k) m ≡ first (StlHashtable.find (wrap k) (nodes m))
  pub insert_taken :
      (k : Bytes) (v : V) (m : Map) {p : HashString × V}
      → find (wrap k) m ≡ some p
      → insert (wrap k) v m ≡ (false, m)
  pub insert_free :
      (k : Bytes) (v : V) (m : Map)
      → find (wrap k) m ≡ none
      → ((insert (wrap k) v m).0 ≡ true)
        × Permᴰ (nodes (insert (wrap k) v m).1) ((wrap k, v) ∷ nodes m)
  pub nodes-assign :
      (k : Bytes) (v : V) (m : Map)
      → Permᴰ (nodes (assign (wrap k) v m)) (StlHashtable.assign (wrap k) v (nodes m))
  pub nodes-erase :
      (k : Bytes) (m : Map)
      → Permᴰ (nodes (erase (wrap k) m)) (StlHashtable.erase (wrap k) (nodes m))

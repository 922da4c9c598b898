-- ===== src/Ycsb/StlHashtable.antt =====
-- workloads/YCSB-C/lib/stl_hashtable.h: the table over std::unordered_map. The map is the list of
-- its nodes in the order in which it iterates; where an insertion puts a new node is unspecified in
-- C++, so it is the head here and no theorem speaks of the order. `blocks` counts the key copies
-- that were allocated and not freed.
pub mod Nodes
pub mod Laws
pub mod History
use ltram_policy_bench.Prelude.{
  ℕ, zero, suc, ◌+◌, ◌-◌, ◌≡◌, List, [], ◌∷◌, Bool, true, false, Option, none, some, if◌then◌else◌,
  length,
}
use ltram_policy_bench.Ycsb.Text.{Bytes}
use ltram_policy_bench.Ycsb.HashString.{HashString, copy, wrap, equal}

module _ {ℓ} {V : Type ℓ} where
  -- `table_.find(key)`: the nodes from the one that was found on; none is `end()`.
  unfoldable pub find : HashString → List (HashString × V) → List (HashString × V)
  find key [] = []
  find key ((k, v) ∷ nodes) = if equal k key then (k, v) ∷ nodes else find key nodes

  -- `pos->second = value` at the node that `find` returns.
  unfoldable pub assign : HashString → V → List (HashString × V) → List (HashString × V)
  assign key value [] = []
  assign key value ((k, v) ∷ nodes) =
      if equal k key then (k, value) ∷ nodes else (k, v) ∷ assign key value nodes

  -- `table_.erase(pos)` at that node.
  unfoldable pub erase : HashString → List (HashString × V) → List (HashString × V)
  erase key [] = []
  erase key ((k, v) ∷ nodes) = if equal k key then nodes else (k, v) ∷ erase key nodes

  -- The loop of `Entries` from a position, with the rounds that are left.
  unfoldable pub collect : ℕ → List (HashString × V) → List (Bytes × V)
  collect zero nodes = []
  collect (suc n) [] = []
  collect (suc n) ((k, v) ∷ nodes) = (k.value, v) ∷ collect n nodes

pub record StlHashtable {ℓ} (V : Type ℓ) : Type ℓ where
  pub table : List (HashString × V)
  pub blocks : ℕ

module _ {ℓ} {V : Type ℓ} where
  abbrev pub empty : StlHashtable V
  empty = record { table = []; blocks = 0 }

  -- The value at a position; NULL at `end()`.
  abbrev pub second : List (HashString × V) → Option V
  second [] = none
  second ((k, v) ∷ _) = some v

  unfoldable pub get : Bytes → StlHashtable V → Option V
  unfolding find
  get key t = second (find (wrap key) t.table)

  -- Each operation goes on from the position that the map gave it; [] is `end()`.
  abbrev pub insert_at :
      List (HashString × V) → HashString → V → StlHashtable V → Bool × StlHashtable V
  insert_at [] skey value t =
      (true, record { table = (skey, value) ∷ t.table; blocks = t.blocks + 1 })
  insert_at (_ ∷ _) skey value t = (false, record t { blocks = t.blocks + 1 })

  abbrev pub update_at :
      List (HashString × V) → HashString → V → StlHashtable V → Option V × StlHashtable V
  update_at [] key value t = (none, t)
  update_at ((_, old) ∷ _) key value t = (some old, record t { table = assign key value t.table })

  abbrev pub remove_at :
      List (HashString × V) → HashString → StlHashtable V → Option V × StlHashtable V
  remove_at [] key t = (none, t)
  remove_at ((_, old) ∷ _) key t =
      (some old, record { table = erase key t.table; blocks = t.blocks - 1 })

  -- The key is copied before the map is asked; the map keeps the copy only if the key is new.
  unfoldable pub insert : Option Bytes → V → StlHashtable V → Bool × StlHashtable V
  unfolding find
  insert none value t = (false, t)
  insert (some key) value t = let skey = copy key in insert_at (find skey t.table) skey value t

  unfoldable pub update : Bytes → V → StlHashtable V → Option V × StlHashtable V
  unfolding find assign
  update key value t = update_at (find (wrap key) t.table) (wrap key) value t

  unfoldable pub remove : Bytes → StlHashtable V → Option V × StlHashtable V
  unfolding find erase
  remove key t = remove_at (find (wrap key) t.table) (wrap key) t

  unfoldable pub entries : Option Bytes → ℕ → StlHashtable V → List (Bytes × V)
  unfolding find collect
  entries none n t = collect n t.table
  entries (some key) n t = collect n (find (wrap key) t.table)

  unfoldable pub size : StlHashtable V → ℕ
  size t = length t.table

-- ===== src/Ycsb/StlHashtable/Laws.antt =====
-- The table of workloads/YCSB-C/lib/stl_hashtable.h implements the interface of
-- workloads/YCSB-C/lib/string_hashtable.h.
use ltram_policy_bench.Prelude.{
  ℕ, ◌+◌, ◌≤◌, ◌≡◌, refl, List, [], ◌∷◌, true, false, Option, none, some, arith, if◌then◌else◌,
  length,
}
use ltram_policy_bench.Ycsb.Text.{Bytes, str_eq, str_eq_iff}
use ltram_policy_bench.Ycsb.HashString.{HashString, copy, wrap}
use ltram_policy_bench.Ycsb.StringHashtable.{StringHashtable, find_pair, is_some, or_else}
use ltram_policy_bench.Ycsb.StlHashtable.{
  find, StlHashtable, empty, insert_at, update_at, remove_at, get, insert, update, remove, entries,
  size,
}
use ltram_policy_bench.Ycsb.StlHashtable.Nodes.{
  copy-wrap, wrap-IsFormed, equal-copy, occurs, occurs-absent, find-assign, occurs-assign,
  find-erase, occurs-erase-le, AllFormed, formed-assign, formed-erase, find_pair-collect,
  length-collect, length-assign, length-collect_all,
}

module _ {ℓ} {V : Type ℓ} where
  -- No two nodes have equal keys, and each key carries its hash.
  pub record IsValid (t : StlHashtable V) : Type 0 where
    pub once : (q : Bytes) → occurs q t.table ≤ 1
    pub formed : AllFormed t.table

  pub empty-IsValid : IsValid empty
  unfolding occurs
  empty-IsValid = record { once = λ q. omega arith; formed = tt }

  insert_at-formed :
      (pos : List (HashString × V)) (k : Bytes) (v : V) (t : StlHashtable V)
      → AllFormed t.table
      → AllFormed (insert_at pos (copy k) v t).1.table
  insert_at-formed [] k v t h = (wrap-IsFormed k, h)
  insert_at-formed (_ ∷ _) k v t h = h

  update_at-formed :
      (pos : List (HashString × V)) (key : HashString) (v : V) (t : StlHashtable V)
      → AllFormed t.table
      → AllFormed (update_at pos key v t).1.table
  update_at-formed [] key v t h = h
  update_at-formed ((_, old) ∷ _) key v t h = formed-assign key v t.table h

  remove_at-formed :
      (pos : List (HashString × V)) (key : HashString) (t : StlHashtable V)
      → AllFormed t.table
      → AllFormed (remove_at pos key t).1.table
  remove_at-formed [] key t h = h
  remove_at-formed ((_, old) ∷ _) key t h = formed-erase key t.table h

  pub insert-IsValid :
      (k : Option Bytes) (v : V) (t : StlHashtable V) → IsValid t → IsValid (insert k v t).1
  unfolding insert occurs
  insert-IsValid none v t h = h
  insert-IsValid (some k) v t h = record {
    once = λ q.
        ground
          (arith, h.once q, equal-copy k q, occurs-absent q t.table, str_eq_iff k q, copy-wrap k);
    formed = insert_at-formed (find (copy k) t.table) k v t h.formed;
  }

  pub update-IsValid :
      (k : Bytes) (v : V) (t : StlHashtable V) → IsValid t → IsValid (update k v t).1
  unfolding update
  update-IsValid k v t h = record {
    once = λ q. ground (arith, h.once q, occurs-assign k q v t.table);
    formed = update_at-formed (find (wrap k) t.table) (wrap k) v t h.formed;
  }

  pub remove-IsValid : (k : Bytes) (t : StlHashtable V) → IsValid t → IsValid (remove k t).1
  unfolding remove
  remove-IsValid k t h = record {
    once = λ q. ground (arith, h.once q, occurs-erase-le k q t.table);
    formed = remove_at-formed (find (wrap k) t.table) (wrap k) t h.formed;
  }

  pub insert_result :
      (k : Bytes) (v : V) (t : StlHashtable V)
      → (insert (some k) v t).0 ≡ (if is_some (get k t) then false else true)
  unfolding insert get
  insert_result k v t = ground (arith, copy-wrap k)

  pub get-insert :
      (k q : Bytes) (v : V) (t : StlHashtable V)
      → get q (insert (some k) v t).1 ≡ (if str_eq k q then or_else (get q t) (some v) else get q t)
  unfolding insert get find
  get-insert k q v t = ground (arith, str_eq_iff k q, equal-copy k q, copy-wrap k)

  pub update_result : (k : Bytes) (v : V) (t : StlHashtable V) → (update k v t).0 ≡ get k t
  unfolding update get
  update_result k v t = ground arith

  pub get-update :
      (k q : Bytes) (v : V) (t : StlHashtable V)
      → get q (update k v t).1
        ≡ (if str_eq k q then (if is_some (get q t) then some v else none) else get q t)
  unfolding update get
  get-update k q v t = ground (arith, str_eq_iff k q, find-assign k q v t.table)

  pub remove_result : (k : Bytes) (t : StlHashtable V) → (remove k t).0 ≡ get k t
  unfolding remove get
  remove_result k t = ground arith

  pub get-remove :
      (k q : Bytes) (t : StlHashtable V)
      → IsValid t
      → get q (remove k t).1 ≡ (if str_eq k q then none else get q t)
  unfolding remove get
  get-remove k q t h = ground (arith, str_eq_iff k q, find-erase k q t.table (h.once q))

  pub find_pair-entries :
      (q : Bytes) (n : ℕ) (t : StlHashtable V)
      → IsValid t
      → size t ≤ n
      → find_pair q (entries none n t) ≡ get q t
  unfolding entries get size
  find_pair-entries q n t h fits = find_pair-collect q n t.table h.formed fits

  pub length-entries :
      (key : Option Bytes) (n : ℕ) (t : StlHashtable V) → length (entries key n t) ≤ n
  unfolding entries
  length-entries none n t = length-collect n t.table
  length-entries (some key) n t = length-collect n (find (wrap key) t.table)

  pub size-insert :
      (k : Bytes) (v : V) (t : StlHashtable V)
      → let (done, t') = insert (some k) v t in size t' ≡ size t + (if done then 1 else 0)
  unfolding insert size
  size-insert k v t = ground arith

  pub size-update : (k : Bytes) (v : V) (t : StlHashtable V) → size (update k v t).1 ≡ size t
  unfolding update size
  size-update k v t = ground (arith, length-assign (wrap k) v t.table)

  pub all-entries : (n : ℕ) (t : StlHashtable V) → size t ≤ n → length (entries none n t) ≡ size t
  unfolding entries size
  all-entries n t h = length-collect_all n t.table h

-- The table keeps every promise of the interface: what each operation returns, what `Get` reads
-- after it, and the invariant that these rest on.
unfoldable pub stl_hashtable : (V : Type 0) → StringHashtable V
unfolding insert get find size
stl_hashtable V = record {
  Table = StlHashtable V;
  new = empty;
  get = get;
  insert = insert;
  update = update;
  remove = remove;
  entries = entries;
  size = size;
  IsValid = IsValid;
  new-IsValid = empty-IsValid;
  insert-IsValid = insert-IsValid;
  update-IsValid = update-IsValid;
  remove-IsValid = remove-IsValid;
  get-new = λ q. refl;
  insert_null = λ v t. refl;
  insert_result = insert_result;
  get-insert = get-insert;
  update_result = update_result;
  get-update = get-update;
  remove_result = remove_result;
  get-remove = get-remove;
  find_pair-entries = find_pair-entries;
  length-entries = length-entries;
  size-new = refl;
  size-insert = size-insert;
  size-update = size-update;
  all-entries = all-entries;
}

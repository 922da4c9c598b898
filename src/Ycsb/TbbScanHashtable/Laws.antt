-- ===== src/Ycsb/TbbScanHashtable/Laws.antt =====
-- The table of workloads/YCSB-C/lib/tbb_scan_hashtable.h implements the interface of
-- workloads/YCSB-C/lib/string_hashtable.h.
use ltram_policy_bench.Prelude.{
  ℕ, ◌+◌, ◌≤◌, ◌≡◌, ◌∙◌, ap, refl, inl, inr, Option-cases, true, false, Option, none, some, arith,
  if◌then◌else◌, length,
}
use ltram_policy_bench.Ycsb.Text.{Bytes, str_eq, str_eq_iff}
use ltram_policy_bench.Ycsb.HashString.{wrap}
use ltram_policy_bench.Ycsb.StringHashtable.{StringHashtable, find_pair, is_some, or_else}
use ltram_policy_bench.Ycsb.StlHashtable
use ltram_policy_bench.Ycsb.StlHashtable.Nodes.{
  find_pair-collect, length-collect, length-collect_all,
}
use ltram_policy_bench.Ycsb.Tbb.{ConcurrentMap}
use ltram_policy_bench.Ycsb.Tbb.Held
use ltram_policy_bench.Ycsb.Tbb.Held.{
  size-assign, held, IsFormedMap, find-held, insert-held, held-insert, held-assign, held-erase,
  insert-IsFormedMap, assign-IsFormedMap, erase-IsFormedMap,
}
use ltram_policy_bench.Ycsb.TbbScanHashtable.{
  TbbScanHashtable, empty, get, insert, update, remove, entries, size,
}

module _ {V : Type 0} (tbb : ConcurrentMap V) where
  -- Each key that the table holds carries its hash.
  abbrev pub IsValid : TbbScanHashtable tbb → Type 0
  IsValid t = IsFormedMap tbb t.table

  get-held : (q : Bytes) (t : TbbScanHashtable tbb) → get tbb q t ≡ held tbb q t.table
  unfolding get
  get-held q t = find-held tbb q t.table

  pub insert_result :
      (k : Bytes) (v : V) (t : TbbScanHashtable tbb)
      → (insert tbb (some k) v t).0 ≡ (if is_some (get tbb k t) then false else true)
  unfolding insert
  insert_result k v t = ground (arith, get-held k t, insert-held tbb k v t.table)

  pub get-insert :
      (k q : Bytes) (v : V) (t : TbbScanHashtable tbb)
      → get tbb q (insert tbb (some k) v t).1
        ≡ (if str_eq k q then or_else (get tbb q t) (some v) else get tbb q t)
  unfolding insert
  get-insert k q v t =
      let t' = (insert tbb (some k) v t).1 in
      ground (arith, get-held q t, get-held q t', held-insert tbb k q v t.table)

  pub insert-IsValid :
      (k : Option Bytes) (v : V) (t : TbbScanHashtable tbb)
      → IsValid t
      → IsValid (insert tbb k v t).1
  unfolding insert
  insert-IsValid none v t h = h
  insert-IsValid (some k) v t h = insert-IsFormedMap tbb k v t.table h

  pub update_result :
      (k : Bytes) (v : V) (t : TbbScanHashtable tbb) → (update tbb k v t).0 ≡ get tbb k t
  unfolding update get
  update_result k v t = ground arith

  held-update :
      (k q : Bytes) (v : V) (t : TbbScanHashtable tbb)
      → held tbb q (update tbb k v t).1.table ≡ (
          if str_eq k q
          then (if is_some (held tbb q t.table) then some v else none)
          else held tbb q t.table)
  unfolding update
  held-update k q v t = elim (Option-cases (tbb.find (wrap k) t.table)) [
    | inl e ↦ ground (arith, find-held tbb k t.table, str_eq_iff k q)
    | inr (p, e) ↦ ground (arith, held-assign tbb k q v t.table)
  ]

  pub get-update :
      (k q : Bytes) (v : V) (t : TbbScanHashtable tbb)
      → get tbb q (update tbb k v t).1
        ≡ (if str_eq k q then (if is_some (get tbb q t) then some v else none) else get tbb q t)
  get-update k q v t =
      let t' = (update tbb k v t).1 in
      ground (arith, get-held q t, get-held q t', held-update k q v t)

  pub update-IsValid :
      (k : Bytes) (v : V) (t : TbbScanHashtable tbb) → IsValid t → IsValid (update tbb k v t).1
  unfolding update
  update-IsValid k v t h = elim (Option-cases (tbb.find (wrap k) t.table)) [
    | inl e ↦ rw (update, e) h
    | inr (p, e) ↦ rw (update, e) (assign-IsFormedMap tbb k v t.table h)
  ]

  pub remove_result : (k : Bytes) (t : TbbScanHashtable tbb) → (remove tbb k t).0 ≡ get tbb k t
  unfolding remove get
  remove_result k t = ground arith

  held-remove :
      (k q : Bytes) (t : TbbScanHashtable tbb)
      → held tbb q (remove tbb k t).1.table ≡ (if str_eq k q then none else held tbb q t.table)
  unfolding remove
  held-remove k q t = elim (Option-cases (tbb.find (wrap k) t.table)) [
    | inl e ↦ ground (arith, find-held tbb k t.table, str_eq_iff k q)
    | inr (p, e) ↦ ground (arith, held-erase tbb k q t.table)
  ]

  pub get-remove :
      (k q : Bytes) (t : TbbScanHashtable tbb)
      → get tbb q (remove tbb k t).1 ≡ (if str_eq k q then none else get tbb q t)
  get-remove k q t =
      let t' = (remove tbb k t).1 in ground (arith, get-held q t, get-held q t', held-remove k q t)

  pub remove-IsValid :
      (k : Bytes) (t : TbbScanHashtable tbb) → IsValid t → IsValid (remove tbb k t).1
  unfolding remove
  remove-IsValid k t h = elim (Option-cases (tbb.find (wrap k) t.table)) [
    | inl e ↦ rw (remove, e) h
    | inr (p, e) ↦ rw (remove, e) (erase-IsFormedMap tbb k t.table h)
  ]

  pub find_pair-entries :
      (q : Bytes) (n : ℕ) (t : TbbScanHashtable tbb)
      → IsValid t
      → size tbb t ≤ n
      → find_pair q (entries tbb none n t) ≡ get tbb q t
  unfolding entries size
  find_pair-entries q n t h fits =
      let all : length (tbb.nodes t.table) ≤ n = omega (arith, tbb.size-nodes t.table) in
      ground (arith, find_pair-collect q n (tbb.nodes t.table) h all, get-held q t)

  pub length-entries :
      (key : Option Bytes) (n : ℕ) (t : TbbScanHashtable tbb) → length (entries tbb key n t) ≤ n
  unfolding entries
  length-entries none n t = length-collect n (tbb.nodes t.table)
  length-entries (some key) n t = length-collect n (tbb.from (wrap key) t.table)

  pub get-new : (q : Bytes) → get tbb q (empty tbb) ≡ none
  unfolding StlHashtable.find
  get-new q = ground (arith, get-held q (empty tbb), tbb.nodes-new)

  pub new-IsValid : IsValid (empty tbb)
  new-IsValid = rw tbb.nodes-new tt

  pub size-new : size tbb (empty tbb) ≡ 0
  unfolding size
  size-new = tbb.size-nodes tbb.new ∙ ap (λ nodes. length nodes) tbb.nodes-new

  pub size-insert :
      (k : Bytes) (v : V) (t : TbbScanHashtable tbb)
      → let (done, t') = insert tbb (some k) v t in
        size tbb t' ≡ size tbb t + (if done then 1 else 0)
  unfolding insert size
  size-insert k v t = Held.size-insert tbb k v t.table

  pub size-update :
      (k : Bytes) (v : V) (t : TbbScanHashtable tbb) → size tbb (update tbb k v t).1 ≡ size tbb t
  unfolding update size
  size-update k v t = ground (arith, size-assign tbb k v t.table)

  pub all-entries :
      (n : ℕ) (t : TbbScanHashtable tbb)
      → size tbb t ≤ n
      → length (entries tbb none n t) ≡ size tbb t
  unfolding entries size
  all-entries n t h =
      let nodes = tbb.size-nodes t.table in
      omega (arith, nodes, length-collect_all n (tbb.nodes t.table) (omega (arith, nodes)))

  unfoldable pub tbb_scan : StringHashtable V
  unfolding insert
  tbb_scan = record {
    Table = TbbScanHashtable tbb;
    new = empty tbb;
    get = get tbb;
    insert = insert tbb;
    update = update tbb;
    remove = remove tbb;
    entries = entries tbb;
    size = size tbb;
    IsValid = IsValid;
    new-IsValid = new-IsValid;
    insert-IsValid = insert-IsValid;
    update-IsValid = update-IsValid;
    remove-IsValid = remove-IsValid;
    get-new = get-new;
    insert_null = λ v t. refl;
    insert_result = insert_result;
    get-insert = get-insert;
    update_result = update_result;
    get-update = get-update;
    remove_result = remove_result;
    get-remove = λ k q t h. get-remove k q t;
    find_pair-entries = find_pair-entries;
    length-entries = length-entries;
    size-new = size-new;
    size-insert = size-insert;
    size-update = size-update;
    all-entries = all-entries;
  }

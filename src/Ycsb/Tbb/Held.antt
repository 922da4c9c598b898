-- ===== src/Ycsb/Tbb/Held.antt =====
-- Which values a map of the TBB library holds after an operation, for keys that are strings.
use mathlib.Core.List.{Permᴰ}
use mathlib.Core.List.Permᴰ
use mathlib.Core.Path.{subst}
use ltram_policy_bench.Prelude.{
  ◌+◌, ◌≡◌, sym, ◌∙◌, inl, inr, Option-cases, List, ◌∷◌, true, false, Option, none, some, arith,
  if◌then◌else◌,
}
use ltram_policy_bench.Ycsb.Text.{Bytes, str_eq, str_eq_iff}
use ltram_policy_bench.Ycsb.HashString.{HashString, copy, wrap}
use ltram_policy_bench.Ycsb.StringHashtable.{is_some, or_else}
use ltram_policy_bench.Ycsb.StlHashtable
use ltram_policy_bench.Ycsb.StlHashtable.{second}
use ltram_policy_bench.Ycsb.StlHashtable.Nodes.{
  AllFormed, copy-wrap, wrap-IsFormed, equal-copy, find-assign, find-erase, formed-assign,
  formed-erase, length-assign,
}
use ltram_policy_bench.Ycsb.Tbb.{ConcurrentMap}
use ltram_policy_bench.Ycsb.Tbb.Order.{Permᴰ-SameKey, Permᴰ-AllFormed, Permᴰ-length}

module _ {V : Type 0} (tbb : ConcurrentMap V) where
  -- The value at the node of a key.
  abbrev pub held : Bytes → tbb.Map → Option V
  held q m = second (StlHashtable.find (wrap q) (tbb.nodes m))

  abbrev pub IsFormedMap : tbb.Map → Type 0
  IsFormedMap m = AllFormed (tbb.nodes m)

  -- Where the nodes are those of a list in some order, the value is that of the list.
  held-order :
      (q : Bytes) (m : tbb.Map) {nodes : List (HashString × V)}
      → Permᴰ (tbb.nodes m) nodes
      → held q m ≡ second (StlHashtable.find (wrap q) nodes)
  held-order q m d = (Permᴰ-SameKey q d (tbb.once q m)).1

  pub find-held :
      (q : Bytes) (m : tbb.Map)
      → (elim (tbb.find (wrap q) m) [ none ↦ none | some p ↦ some p.1 ]) ≡ held q m
  find-held q m = ground (arith, tbb.find-nodes q m)

  find_cons :
      (k q : Bytes) (v : V) (nodes : List (HashString × V))
      → second (StlHashtable.find (wrap q) ((wrap k, v) ∷ nodes))
        ≡ (if str_eq k q then some v else second (StlHashtable.find (wrap q) nodes))
  unfolding StlHashtable.find
  find_cons k q v nodes = ground (arith, equal-copy k q, copy-wrap k)

  pub insert-held :
      (k : Bytes) (v : V) (m : tbb.Map)
      → (tbb.insert (copy k) v m).0 ≡ (if is_some (held k m) then false else true)
  insert-held k v m = elim (Option-cases (tbb.find (wrap k) m)) [
    | inl e ↦ ground (arith, copy-wrap k, find-held k m, tbb.insert_free k v m e)
    | inr (p, e) ↦ ground (arith, copy-wrap k, find-held k m, tbb.insert_taken k v m e)
  ]

  pub held-insert :
      (k q : Bytes) (v : V) (m : tbb.Map)
      → held q (tbb.insert (copy k) v m).1
        ≡ (if str_eq k q then or_else (held q m) (some v) else held q m)
  held-insert k q v m = elim (Option-cases (tbb.find (wrap k) m)) [
    | inl e ↦
        let placed = (tbb.insert_free k v m e).1 in
        let moved = held-order q (tbb.insert (wrap k) v m).1 placed in
        ground
          (arith, copy-wrap k, moved, find_cons k q v (tbb.nodes m), find-held k m, str_eq_iff k q)
    | inr (p, e) ↦
        ground (arith, copy-wrap k, tbb.insert_taken k v m e, find-held k m, str_eq_iff k q)
  ]

  pub held-assign :
      (k q : Bytes) (v : V) (m : tbb.Map)
      → held q (tbb.assign (wrap k) v m)
        ≡ (if str_eq k q then (if is_some (held q m) then some v else none) else held q m)
  held-assign k q v m =
      held-order q (tbb.assign (wrap k) v m) (tbb.nodes-assign k v m)
      ∙ find-assign k q v (tbb.nodes m)

  pub held-erase :
      (k q : Bytes) (m : tbb.Map)
      → held q (tbb.erase (wrap k) m) ≡ (if str_eq k q then none else held q m)
  held-erase k q m =
      held-order q (tbb.erase (wrap k) m) (tbb.nodes-erase k m)
      ∙ find-erase k q (tbb.nodes m) (tbb.once q m)

  pub insert-IsFormedMap :
      (k : Bytes) (v : V) (m : tbb.Map) → IsFormedMap m → IsFormedMap (tbb.insert (copy k) v m).1
  unfolding wrap copy
  insert-IsFormedMap k v m h = rw (copy-wrap k) (elim (Option-cases (tbb.find (wrap k) m)) [
    | inl e ↦ Permᴰ-AllFormed (Permᴰ.symm (tbb.insert_free k v m e).1) (wrap-IsFormed k, h)
    | inr (p, e) ↦ subst (λ r. IsFormedMap r.1) (sym (tbb.insert_taken k v m e)) h
  ])

  pub assign-IsFormedMap :
      (k : Bytes) (v : V) (m : tbb.Map) → IsFormedMap m → IsFormedMap (tbb.assign (wrap k) v m)
  assign-IsFormedMap k v m h =
      Permᴰ-AllFormed (Permᴰ.symm (tbb.nodes-assign k v m))
        (formed-assign (wrap k) v (tbb.nodes m) h)

  pub erase-IsFormedMap :
      (k : Bytes) (m : tbb.Map) → IsFormedMap m → IsFormedMap (tbb.erase (wrap k) m)
  erase-IsFormedMap k m h =
      Permᴰ-AllFormed (Permᴰ.symm (tbb.nodes-erase k m)) (formed-erase (wrap k) (tbb.nodes m) h)

  pub size-insert :
      (k : Bytes) (v : V) (m : tbb.Map)
      → let (done, m') = tbb.insert (copy k) v m in
        tbb.size m' ≡ tbb.size m + (if done then 1 else 0)
  unfolding copy wrap
  size-insert k v m = elim (Option-cases (tbb.find (wrap k) m)) [
    | inl e ↦
        let free = tbb.insert_free k v m e in
        let m' = (tbb.insert (wrap k) v m).1 in
        ground (arith, free.0, Permᴰ-length free.1, tbb.size-nodes m, tbb.size-nodes m')
    | inr (p, e) ↦ ground (arith, tbb.insert_taken k v m e)
  ]

  pub size-assign :
      (k : Bytes) (v : V) (m : tbb.Map) → tbb.size (tbb.assign (wrap k) v m) ≡ tbb.size m
  size-assign k v m = omega (
    arith,
    Permᴰ-length (tbb.nodes-assign k v m),
    length-assign (wrap k) v (tbb.nodes m),
    tbb.size-nodes m,
    tbb.size-nodes (tbb.assign (wrap k) v m),
  )

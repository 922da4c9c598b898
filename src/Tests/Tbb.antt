-- ===== src/Tests/Tbb.antt =====
-- A map with the documented behaviour of those of the TBB library: a list of nodes.
use mathlib.Core.List.{Permᴰ}
use mathlib.Core.List.Permᴰ
use mathlib.Core.Path.{subst}
use ltram_policy_bench.Prelude.{
  ℕ, ◌≤◌, ◌≡◌, refl, sym, List, [], ◌∷◌, Bool, true, false, Option, none, some, arith, length,
}
use ltram_policy_bench.Ycsb.Text.{Bytes, str_eq_iff}
use ltram_policy_bench.Ycsb.HashString.{HashString, wrap}
use ltram_policy_bench.Ycsb.StringHashtable.History.{Call, put, change, drop, mean, run}
use ltram_policy_bench.Ycsb.StlHashtable.{find, assign, erase, second}
use ltram_policy_bench.Ycsb.StlHashtable.Nodes.{
  occurs, occurs-absent, occurs-assign, occurs-erase-le, equal-copy, copy-wrap,
}
use ltram_policy_bench.Ycsb.Tbb.{ConcurrentMap, first}
use ltram_policy_bench.Ycsb.Tbb.Agree.{tables_agree}
use ltram_policy_bench.Ycsb.TbbRandHashtable.Laws.{tbb_rand}
use ltram_policy_bench.Ycsb.TbbScanHashtable.Laws.{tbb_scan}

-- The nodes, of which each key has at most one.
abbrev Nodes : Type 0
Nodes = (nodes : List (HashString × ℕ)) × ((q : Bytes) → occurs q nodes ≤ 1)

placed-once :
    (k q : Bytes) (v : ℕ) (nodes : List (HashString × ℕ))
    → occurs q nodes ≤ 1
    → second (find (wrap k) nodes) ≡ none
    → occurs q ((wrap k, v) ∷ nodes) ≤ 1
unfolding occurs
placed-once k q v nodes h e =
    ground (arith, occurs-absent q nodes, equal-copy k q, copy-wrap k, str_eq_iff k q)

second-first :
    (nodes : List (HashString × ℕ))
    → second nodes ≡ (elim (first nodes) [ none ↦ none | some p ↦ some p.1 ])
second-first [] = refl
second-first (_ ∷ nodes) = refl

place :
    (k : Bytes) (v : ℕ) (m : Nodes) (o : Option ℕ) → second (find (wrap k) m.0) ≡ o → Bool × Nodes
place k v m none e = (true, ((wrap k, v) ∷ m.0, λ q. placed-once k q v m.0 (m.1 q) e))
place k v m (some w) e = (false, m)

abbrev place_found : HashString → ℕ → Nodes → Bool × Nodes
place_found k v m = place k.value v m (second (find (wrap k.value) m.0)) refl

place-taken :
    (k : Bytes) (v : ℕ) (m : Nodes) (o : Option ℕ) (e : second (find (wrap k) m.0) ≡ o)
    {p : HashString × ℕ}
    → first (find (wrap k) m.0) ≡ some p
    → place k v m o e ≡ (false, m)
unfolding place
place-taken k v m none e h = absurd (ground (arith, second-first (find (wrap k) m.0)))
place-taken k v m (some w) e h = refl

place-free :
    (k : Bytes) (v : ℕ) (m : Nodes) (o : Option ℕ) (e : second (find (wrap k) m.0) ≡ o)
    → first (find (wrap k) m.0) ≡ none
    → ((place k v m o e).0 ≡ true) × ((place k v m o e).1.0 ≡ (wrap k, v) ∷ m.0)
unfolding place
place-free k v m none e h = (refl, refl)
place-free k v m (some w) e h = absurd (ground (arith, second-first (find (wrap k) m.0)))

nodes_map : ConcurrentMap ℕ
unfolding occurs wrap
nodes_map = record {
  Map = Nodes;
  new = ([], λ q. omega arith);
  find = λ k m. first (find k m.0);
  insert = place_found;
  assign = λ k v m.
      (assign (wrap k.value) v m.0, λ q. omega (arith, occurs-assign k.value q v m.0, m.1 q));
  erase =
      λ k m. (erase (wrap k.value) m.0, λ q. omega (arith, occurs-erase-le k.value q m.0, m.1 q));
  from = λ k m. find k m.0;
  nodes = λ m. m.0;
  size = λ m. length m.0;
  nodes-new = refl;
  once = λ q m. m.1 q;
  size-nodes = λ m. refl;
  find-nodes = λ k m. refl;
  insert_taken = λ k v m h. place-taken k v m (second (find (wrap k) m.0)) refl h;
  insert_free = λ k v m h.
      let free = place-free k v m (second (find (wrap k) m.0)) refl h in
      (
        free.0,
        subst (λ nodes. Permᴰ nodes ((wrap k, v) ∷ m.0)) (sym free.1)
            (Permᴰ.refl ((wrap k, v) ∷ m.0)),
      );
  nodes-assign = λ k v m. Permᴰ.refl (assign (wrap k) v m.0);
  nodes-erase = λ k m. Permᴰ.refl (erase (wrap k) m.0);
}

abbrev a : Bytes
a = b'a' ∷ []

-- The second insertion is refused.
abbrev calls : List (Call ℕ)
calls = put a 1 ∷ put a 2 ∷ change a 3 ∷ drop a ∷ []

tables_agree_example :
    let H = tbb_rand nodes_map in
    let U = tbb_scan nodes_map in
    let rand = run H calls H.new in
    let scan = run U calls U.new in
    (rand.0 ≡ (mean calls (λ q. none)).0)
    × (scan.0 ≡ (mean calls (λ q. none)).0)
    × (H.get a rand.1 ≡ U.get a scan.1)
tables_agree_example = tables_agree nodes_map nodes_map calls a

-- ===== src/Ycsb/StlHashtable/History.antt =====
-- Any sequence of calls on the table of workloads/YCSB-C/lib/stl_hashtable.h, against a map that is
-- a function of the key.
use ltram_policy_bench.Prelude.{
  ℕ, ◌+◌, ◌-◌, ◌≤◌, ◌<◌, ◌≡◌, refl, List, [], ◌∷◌, Bool, true, arith, if◌then◌else◌, length,
}
use ltram_policy_bench.Ycsb.HashString.{HashString, wrap}
use ltram_policy_bench.Ycsb.StringHashtable.{is_some}
use ltram_policy_bench.Ycsb.StringHashtable.History
use ltram_policy_bench.Ycsb.StringHashtable.History.{Call, put, change, drop, mean, run_means}
use ltram_policy_bench.Ycsb.StlHashtable.{
  find, erase, StlHashtable, empty, second, get, insert, update, remove, size,
}
use ltram_policy_bench.Ycsb.StlHashtable.Nodes.{length-assign}
use ltram_policy_bench.Ycsb.StlHashtable.Laws.{IsValid, stl_hashtable}

module _ {V : Type 0} where
  abbrev pub perform : Call V → StlHashtable V → Bool × StlHashtable V
  unfolding stl_hashtable
  perform = History.perform (stl_hashtable V)

  abbrev pub run : List (Call V) → StlHashtable V → List Bool × StlHashtable V
  unfolding stl_hashtable
  run = History.run (stl_hashtable V)

  -- Whatever calls are made on a valid table, each reports what the map reports, and in the end
  -- `Get` reads what the map holds.
  pub run-mean :
      (cs : List (Call V)) (t : StlHashtable V)
      → IsValid t
      → ((run cs t).0 ≡ (mean cs (λ q. get q t)).0)
        × ((λ q. get q (run cs t).1) ≡ (mean cs (λ q. get q t)).1)
  unfolding stl_hashtable
  run-mean = run_means (stl_hashtable V)

  -- How many insertions were refused.
  unfoldable pub refused : List (Call V) → List Bool → ℕ
  refused (put k v ∷ cs) (b ∷ bs) = (if b then 0 else 1) + refused cs bs
  refused (_ ∷ cs) (b ∷ bs) = refused cs bs
  refused _ _ = 0

  found-pos :
      (k : HashString) (nodes : List (HashString × V))
      → is_some (second (find k nodes)) ≡ true
      → 0 < length nodes
  unfolding find
  found-pos k [] e = absurd (cc)
  found-pos k (_ ∷ nodes) e = omega arith

  length-erase :
      (k : HashString) (nodes : List (HashString × V))
      → length (erase k nodes)
        ≡ (if is_some (second (find k nodes)) then length nodes - 1 else length nodes)
  unfolding erase find
  length-erase k [] = refl
  length-erase k ((j, w) ∷ nodes) = ground (arith, length-erase k nodes, found-pos k nodes)

  perform-blocks :
      (c : Call V) (t : StlHashtable V)
      → size t ≤ t.blocks
      → let (b, t') = perform c t in
        (t'.blocks + size t ≡ t.blocks + size t' + refused (c ∷ []) (b ∷ []))
        × (size t' ≤ t'.blocks)
  unfolding History.perform stl_hashtable refused size insert update remove
  perform-blocks (put k v) t h = ground arith
  perform-blocks (change k v) t h = ground (arith, length-assign (wrap k) v t.table)
  perform-blocks (drop k) t h =
      ground (arith, length-erase (wrap k) t.table, found-pos (wrap k) t.table)

  refused-cons :
      (c : Call V) (cs : List (Call V)) (b : Bool) (bs : List Bool)
      → refused (c ∷ cs) (b ∷ bs) ≡ refused (c ∷ []) (b ∷ []) + refused cs bs
  unfolding refused
  refused-cons (put k v) cs b bs = omega arith
  refused-cons (change k v) cs b bs = omega arith
  refused-cons (drop k) cs b bs = omega arith

  run-blocks :
      (cs : List (Call V)) (t : StlHashtable V)
      → size t ≤ t.blocks
      → let (bs, t') = run cs t in t'.blocks + size t ≡ t.blocks + size t' + refused cs bs
  unfolding History.run stl_hashtable
  run-blocks [] t h = unfold refused in omega arith
  run-blocks (c ∷ cs) t h =
      let (b, t') = perform c t in
      let step = perform-blocks c t h in
      let ih = run-blocks cs t' step.1 in omega (arith, refused-cons c cs b (run cs t').0)

  -- The copy of the key that an insertion makes is never freed when the insertion is refused: after
  -- any calls on an empty table, the key copies still allocated are one for each entry and one for
  -- each refused insertion.
  pub blocks-run :
      (cs : List (Call V)) → let (bs, t) = run cs empty in t.blocks ≡ size t + refused cs bs
  unfolding size
  blocks-run cs = omega (arith, run-blocks cs empty (omega arith))

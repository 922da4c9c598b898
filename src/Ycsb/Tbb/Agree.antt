-- ===== src/Ycsb/Tbb/Agree.antt =====
-- The tables of workloads/YCSB-C/lib/tbb_rand_hashtable.h and tbb_scan_hashtable.h beside each
-- other.
use mathlib.Core.Path.{fun_ext}
use ltram_policy_bench.Prelude.{◌≡◌, sym, ◌∙◌, ap, List, none}
use ltram_policy_bench.Ycsb.Text.{Bytes}
use ltram_policy_bench.Ycsb.StringHashtable.{StringHashtable}
use ltram_policy_bench.Ycsb.StringHashtable.History.{Call, mean, run, view, run_means}
use ltram_policy_bench.Ycsb.Tbb.{ConcurrentMap}
use ltram_policy_bench.Ycsb.TbbRandHashtable.Laws.{tbb_rand}
use ltram_policy_bench.Ycsb.TbbScanHashtable.Laws.{tbb_scan}

module _ {V : Type 0} where
  -- A new table stands for the map with no values.
  fresh :
      (T : StringHashtable V) (cs : List (Call V))
      → ((run T cs T.new).0 ≡ (mean cs (λ q. none)).0)
        × (view T (run T cs T.new).1 ≡ (mean cs (λ q. none)).1)
  fresh T cs =
      let means = run_means T cs T.new T.new-IsValid in
      let nothing : view T T.new ≡ (λ q. none) = fun_ext T.get-new in
      (means.0 ∙ ap (λ f. (mean cs f).0) nothing, means.1 ∙ ap (λ f. (mean cs f).1) nothing)

  -- Over maps that do what TBB documents, whatever insertions, updates and removals are made on a
  -- new table of each of the two kinds, one call after the other, and in whatever order their maps
  -- iterate: both report for each call what a map that is a function of the key reports, and both
  -- then read the same value for each key.
  pub tables_agree :
      (hash_map unordered_map : ConcurrentMap V) (cs : List (Call V)) (q : Bytes)
      → let H = tbb_rand hash_map in
        let U = tbb_scan unordered_map in
        let rand = run H cs H.new in
        let scan = run U cs U.new in
        (rand.0 ≡ (mean cs (λ q. none)).0)
        × (scan.0 ≡ (mean cs (λ q. none)).0)
        × (H.get q rand.1 ≡ U.get q scan.1)
  tables_agree hash_map unordered_map cs q =
      let rand = fresh (tbb_rand hash_map) cs in
      let scan = fresh (tbb_scan unordered_map) cs in
      (rand.0, scan.0, ap (λ f. f q) (rand.1 ∙ sym scan.1))

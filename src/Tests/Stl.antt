-- ===== src/Tests/Stl.antt =====
-- workloads/YCSB-C/lib at small tables.
use ltram_policy_bench.Prelude.{ℕ, ◌+◌, ◌*◌, ◌≡◌, refl, List, [], ◌∷◌, true, false}
use ltram_policy_bench.Ycsb.Text.{Bytes, str_eq}
use ltram_policy_bench.Ycsb.HashString.{copy, wrap, equal, sdbm_hash}
use ltram_policy_bench.Ycsb.StlHashtable.{empty, size, get, insert, update, remove}
use ltram_policy_bench.Ycsb.StlHashtable.Laws.{empty-IsValid}
use ltram_policy_bench.Ycsb.StringHashtable.History
use ltram_policy_bench.Ycsb.StringHashtable.History.{Call, put, change, drop, mean}
use ltram_policy_bench.Ycsb.StlHashtable.Laws.{stl_hashtable}
use ltram_policy_bench.Ycsb.StlHashtable.History.{run, refused, run-mean, blocks-run}

abbrev ab : Bytes
ab = b'a' ∷ b'b' ∷ []

abbrev cd : Bytes
cd = b'c' ∷ b'd' ∷ []

-- Seven calls, among them a refused insertion and two calls on a key that is gone.
abbrev calls : List (Call ℕ)
calls = put ab 1 ∷ put cd 2 ∷ put ab 3 ∷ change cd 4 ∷ drop ab ∷ drop ab ∷ change ab 5 ∷ []

sdbm_hash_runs : sdbm_hash ab ≡ b'a' * 65599 + b'b'
unfolding sdbm_hash
sdbm_hash_runs = refl

run_replies : (run calls empty).0 ≡ true ∷ true ∷ false ∷ true ∷ true ∷ false ∷ false ∷ []
unfolding History.run History.perform stl_hashtable insert update remove equal copy wrap sdbm_hash
    str_eq
run_replies = refl

run_leaks : ((run calls empty).1.blocks ≡ 2) × (size (run calls empty).1 ≡ 1)
unfolding History.run History.perform stl_hashtable insert update remove size equal copy wrap
    sdbm_hash str_eq
run_leaks = (refl, refl)

run-mean_example :
    ((run calls empty).0 ≡ (mean calls (λ q. get q empty)).0)
    × ((λ q. get q (run calls empty).1) ≡ (mean calls (λ q. get q empty)).1)
run-mean_example = run-mean calls empty empty-IsValid

blocks-run_example : let (bs, t) = run calls empty in t.blocks ≡ size t + refused calls bs
blocks-run_example = blocks-run calls

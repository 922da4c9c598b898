-- ===== src/Tests/Lock.antt =====
-- Two calls on the table of workloads/YCSB-C/lib/lock_stl_hashtable.h, one after the other.
use ltram_policy_bench.Prelude.{ℕ, [], ◌∷◌, false, none}
use ltram_policy_bench.Ycsb.LockStlHashtable.{
  insert, size, flag, act, position, waiting, done, Sys, lock, look, change, unlock, call, thread,
  Reach, here, next, started,
}
use ltram_policy_bench.Ycsb.LockStlHashtable.Linear.{IsLinear, Reach-IsLinear}
use ltram_policy_bench.Ycsb.StlHashtable.{empty}

-- A table refuses the NULL key. The call of Size comes in, and waits until the mutex is free.
abbrev refused : Sys ℕ
refused = record {
  table = empty;
  locked = false;
  calls = waiting size ∷ done (insert none 1) (flag false) ∷ [];
  log = (insert none 1, flag false) ∷ [];
}

refused_reached : Reach (started empty) refused
unfolding act position
refused_reached =
    next
      (next
        (next
          (next (next (next here (call _ (insert none 1))) (thread [] [] [] (lock _ _)))
            (call _ size))
          (thread (waiting size ∷ []) [] [] (look _ _ _)))
        (thread (waiting size ∷ []) [] [] (change _ _ _ _)))
      (thread (waiting size ∷ []) [] _ (unlock _ _ _ _))

Reach-IsLinear_example : IsLinear empty refused
Reach-IsLinear_example = Reach-IsLinear refused_reached

-- ===== src/Ycsb/HashtableDb/Race/Freed.antt =====
-- A race of workloads/YCSB-C/db/hashtable_db.cc: Read copies a string that Update has freed.
use ltram_policy_bench.Prelude.{ℕ, ◌≡◌, List, [], ◌∷◌, none, some, arith}
use ltram_policy_bench.Ycsb.Text.{Bytes, c_str, str_eq_iff}
use ltram_policy_bench.Ycsb.StringHashtable.{StringHashtable}
use ltram_policy_bench.Ycsb.HashtableDb.{copy_string}
use ltram_policy_bench.Ycsb.HashtableDb.Race.{
  write, Pc, idle, reading, updating, freeing, Shared, gets, copies_to_update, replaces, frees,
  moves, Reach, here, next,
}

module _ (F : StringHashtable ℕ) where
  -- Whenever a field is in the table and two threads are idle, one can read the field while the other
  -- updates it, with any value at any free address, so that the string that the first is about to
  -- copy has been freed.
  pub read_freed :
      (s : Shared F) (field value : Bytes) (p q : ℕ) (rest : List Pc)
      → F.get (c_str field) s.table ≡ some p
      → s.heap q ≡ none
      → (t : Shared F) × Reach F
          (record { shared = s; threads = idle ∷ idle ∷ rest })
          (record { shared = t; threads = reading p ∷ idle ∷ rest })
        × (t.heap p ≡ none)
        × (F.get (c_str field) t.table ≡ some q)
  unfolding write
  read_freed s field value p q rest has free =
      let f = c_str field in
      let table = (F.update f q s.table).1 in
      let old : F.update f q s.table ≡ (some p, table) =
        ground (arith, F.update_result f q s.table, has) in
      let s₁ : Shared F = record s { heap = write s.heap q (some (copy_string value)) } in
      let s₂ : Shared F = record s₁ { table = table } in
      let s₃ : Shared F = record s₂ { heap = write s₂.heap p none } in
      (
        s₃,
        next
            (next
              (next (next here (moves [] (idle ∷ rest) s s idle (reading p) (gets s field p has))) (
                moves (reading p ∷ []) rest s s₁ idle (updating field q)
                  (copies_to_update s field value q free)))
              (moves (reading p ∷ []) rest s₁ s₂ (updating field q) (freeing p)
                (replaces s₁ field q p table old)))
            (moves (reading p ∷ []) rest s₂ s₃ (freeing p) idle (frees s₂ p)),
        ground arith,
        ground (arith, F.get-update f f q s.table, has, str_eq_iff f f),
      )

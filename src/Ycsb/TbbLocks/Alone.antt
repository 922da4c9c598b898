-- ===== src/Ycsb/TbbLocks/Alone.antt =====
-- Which calls on the tables of workloads/YCSB-C/lib/tbb_rand_hashtable.h and tbb_scan_hashtable.h
-- never run at the same time.
use ltram_policy_bench.Prelude.{◌≡◌, refl, ap, List, ◌∷◌, ◌++◌, none, some, arith, inl, inr, ◌⊎◌}
use ltram_policy_bench.Ycsb.Text.{Bytes}
use ltram_policy_bench.Ycsb.LockStlHashtable.{Op, get, insert, update, remove, entries, size}
use ltram_policy_bench.Ycsb.TbbLocks.{
  exclusive, unlocked, scan_mode, RwMutex, Pc, inside, Sys, Reach,
}
use ltram_policy_bench.Ycsb.TbbLocks.Exclusive.{others_unlocked}

-- The calls that reach no entry of the map: an insertion of NULL, which returns at once, and Size.
abbrev pub IsHarmless : {V : Type 0} → Op V → Type 0
IsHarmless {V} op = (op ≡ size) ⊎ ((v : V) × (op ≡ insert none v))

scan_mode-IsHarmless : {V : Type 0} (op : Op V) → scan_mode op ≡ unlocked → IsHarmless op
unfolding scan_mode
scan_mode-IsHarmless (get k) h = absurd (ground arith)
scan_mode-IsHarmless (insert none v) h = inr (v, refl)
scan_mode-IsHarmless (insert (some k) v) h = absurd (ground arith)
scan_mode-IsHarmless (update k v) h = absurd (ground arith)
scan_mode-IsHarmless (remove k) h = absurd (ground arith)
scan_mode-IsHarmless (entries k n) h = absurd (ground arith)
scan_mode-IsHarmless size h = inl refl

module _ {V : Type 0} (mutex : RwMutex) where
  -- With a mutex that keeps a writer apart from all others, in the table over
  -- concurrent_unordered_map, whatever the threads call and in whatever order they run: while
  -- Remove erases a node, or Update writes a value, no other call is between its start and its end,
  -- past its lock if it takes one, but calls of Size and insertions of NULL. So no Get, Insert of a
  -- key, Entries or other Update or Remove is at the map.
  pub scan_changes_alone :
      {s : Sys {V = V} scan_mode mutex} (before after before' after' : List (Pc V))
      (op other : Op V) (k : Bytes) (v : V)
      → Reach scan_mode mutex s
      → s.calls ≡ before ++ inside op ∷ after
      → (op ≡ remove k) ⊎ (op ≡ update k v)
      → before ++ after ≡ before' ++ inside other ∷ after'
      → IsHarmless other
  unfolding scan_mode
  scan_changes_alone before after before' after' op other k v r same changes there =
      let alone : scan_mode op ≡ exclusive = elim changes [
        | inl e ↦ ap scan_mode e
        | inr e ↦ ap scan_mode e
      ] in
      scan_mode-IsHarmless other
        (others_unlocked scan_mode mutex before after before' after' op other r same alone there)

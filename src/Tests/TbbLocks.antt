-- ===== src/Tests/TbbLocks.antt =====
-- Two calls on each of the tables over TBB, with a lock that counts.
use ltram_policy_bench.Prelude.{ℕ, ◌+◌, ◌≡◌, refl, [], ◌∷◌, Bool, true, false, none, inl}
use ltram_policy_bench.Ycsb.Text.{Bytes}
use ltram_policy_bench.Ycsb.LockStlHashtable.{get, insert, remove, entries, size}
use ltram_policy_bench.Ycsb.TbbLocks.{
  rand_mode, scan_mode, RwMutex, enter, waiting, inside, Sys, lock, Reach, call, thread, start,
  next,
}
use ltram_policy_bench.Ycsb.TbbLocks.Alone.{IsHarmless, scan_changes_alone}

record Counts : Type 0 where
  writers : ℕ
  readers : ℕ

abbrev Acquires : Bool → Counts → Counts → Type 0
Acquires true l l' = (l.writers ≡ 0) × (l.readers ≡ 0) × (l'.writers ≡ 1) × (l'.readers ≡ 0)
Acquires false l l' = (l.writers ≡ 0) × (l'.writers ≡ 0) × (l'.readers ≡ l.readers + 1)

abbrev Releases : Bool → Counts → Counts → Type 0
Releases true l l' = (l.writers ≡ l'.writers + 1) × (l'.readers ≡ l.readers)
Releases false l l' = (l'.writers ≡ l.writers) × (l.readers ≡ l'.readers + 1)

abbrev counting : RwMutex
counting = record {
  State = Counts;
  free = record { writers = 0; readers = 0 };
  Acquire = Acquires;
  Release = Releases;
  writers = λ l. l.writers;
  readers = λ l. l.readers;
  nobody = (refl, refl);
  write = λ a. a;
  read = λ a. a;
  write_end = λ a. a;
  read_end = λ a. a;
}

abbrev key : Bytes
key = b'k' ∷ []

abbrev one_writer : Counts
one_writer = record { writers = 1; readers = 0 }

-- The call of Get came later and waits; one of Size does not wait.
abbrev walking : Sys {V = ℕ} rand_mode counting
walking = record {
  lock = one_writer;
  calls = waiting (get key) ∷ inside size ∷ inside (entries none 5) ∷ [];
}

-- While one thread removes a key, another one inserts NULL.
abbrev removing : Sys {V = ℕ} scan_mode counting
removing = record { lock = one_writer; calls = inside (insert none 7) ∷ inside (remove key) ∷ [] }

removing_reached : Reach scan_mode counting removing
unfolding scan_mode
removing_reached =
    next
      (next
        (next (next start (call _ (remove key)))
          (thread [] [] (lock (remove key) refl (refl, refl, refl, refl))))
        (call _ (insert none 7)))
      (thread [] (inside (remove key) ∷ []) (enter one_writer (insert none 7) refl))

scan_changes_alone_example : IsHarmless {V = ℕ} (insert none 7)
scan_changes_alone_example =
    scan_changes_alone counting (inside (insert none 7) ∷ []) [] [] [] (remove key) (insert none 7)
      key 0 removing_reached refl (inl refl) refl

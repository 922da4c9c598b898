-- ===== src/Ycsb/TbbLocks/Exclusive.antt =====
-- The mutex of the tables of Ycsb/TbbLocks: who has it, for any choice of locks.
use ltram_policy_bench.Prelude.{ℕ, ◌+◌, ◌≤◌, ◌<◌, ◌≡◌, refl, ap, List, [], ◌∷◌, ◌++◌, arith}
use ltram_policy_bench.Ycsb.LockStlHashtable.{Op}
use ltram_policy_bench.Ycsb.TbbLocks.{
  Mode, exclusive, shared, unlocked, RwMutex, Pc, waiting, inside, finished, Move, lock,
  lock_shared, unlock, unlock_shared, enter, leave, Sys, call, thread, Reach, start, next,
}

abbrev writes : Mode → ℕ
writes exclusive = 1
writes _ = 0

abbrev reads : Mode → ℕ
reads shared = 1
reads _ = 0

no_lock : (m : Mode) → writes m ≡ 0 → reads m ≡ 0 → m ≡ unlocked
no_lock exclusive w r = absurd (omega (arith, w))
no_lock shared w r = absurd (omega (arith, r))
no_lock unlocked w r = refl

module _ {V : Type 0} (mode : Op V → Mode) where
  -- The calls between their lock and the end of their block, with an exclusive and with a shared
  -- lock.
  abbrev write_of : Pc V → ℕ
  write_of (inside op) = writes (mode op)
  write_of _ = 0

  abbrev read_of : Pc V → ℕ
  read_of (inside op) = reads (mode op)
  read_of _ = 0

  abbrev writing : List (Pc V) → ℕ
  writing [] = 0
  writing (p ∷ ps) = write_of p + writing ps

  abbrev reading : List (Pc V) → ℕ
  reading [] = 0
  reading (p ∷ ps) = read_of p + reading ps

  writing-append : (ps qs : List (Pc V)) → writing (ps ++ qs) ≡ writing ps + writing qs
  writing-append [] qs = omega arith
  writing-append (p ∷ ps) qs = omega (arith, writing-append ps qs)

  reading-append : (ps qs : List (Pc V)) → reading (ps ++ qs) ≡ reading ps + reading qs
  reading-append [] qs = omega arith
  reading-append (p ∷ ps) qs = omega (arith, reading-append ps qs)

  module _ (mutex : RwMutex) where
    -- The mutex knows who has it, and a writer has it alone.
    pub record IsExclusive (s : Sys mode mutex) : Type 0 where
      pub writers : mutex.writers s.lock ≡ writing s.calls
      pub readers : mutex.readers s.lock ≡ reading s.calls
      pub single : writing s.calls ≤ 1
      pub apart : 0 < writing s.calls → reading s.calls ≡ 0

    -- One call's step keeps this, where the mutex counts the step and stays exclusive.
    counted :
        (before after : List (Pc V)) {l l' : mutex.State} (p p' : Pc V)
        → IsExclusive (record { lock = l; calls = before ++ p ∷ after })
        → mutex.writers l' + write_of p ≡ mutex.writers l + write_of p'
        → mutex.readers l' + read_of p ≡ mutex.readers l + read_of p'
        → mutex.writers l' ≤ 1
        → (0 < mutex.writers l' → mutex.readers l' ≡ 0)
        → IsExclusive (record { lock = l'; calls = before ++ p' ∷ after })
    counted before after {l} {l'} p p' h w r one none_reads =
        let w₁ = writing-append before (p ∷ after) in
        let w₂ = writing-append before (p' ∷ after) in
        let r₁ = reading-append before (p ∷ after) in
        let r₂ = reading-append before (p' ∷ after) in
        let writers : mutex.writers l' ≡ writing (before ++ p' ∷ after) =
          omega (arith, w₁, w₂, h.writers, w) in
        let readers : mutex.readers l' ≡ reading (before ++ p' ∷ after) =
          omega (arith, r₁, r₂, h.readers, r) in
        record {
          writers = writers;
          readers = readers;
          single = omega (arith, writers, one);
          apart = λ some. omega (arith, readers, none_reads (omega (arith, writers, some)));
        }

    thread-IsExclusive :
        (before after : List (Pc V)) {l l' : mutex.State} {p p' : Pc V}
        → Move mode mutex l p l' p'
        → IsExclusive (record { lock = l; calls = before ++ p ∷ after })
        → IsExclusive (record { lock = l'; calls = before ++ p' ∷ after })
    thread-IsExclusive before after (lock op e a) h =
        let law = mutex.write a in
        let w = ap writes e in
        let r = ap reads e in
        counted before after (waiting op) (inside op) h (omega (arith, law, w))
          (omega (arith, law, r)) (omega (arith, law)) (λ _. omega (arith, law))
    thread-IsExclusive before after (lock_shared op e a) h =
        let law = mutex.read a in
        let w = ap writes e in
        let r = ap reads e in
        counted before after (waiting op) (inside op) h (omega (arith, law, w))
          (omega (arith, law, r)) (omega (arith, law)) (λ some. absurd (omega (arith, law, some)))
    thread-IsExclusive before after (unlock op e a) h =
        let law = mutex.write_end a in
        let w = ap writes e in
        let r = ap reads e in
        counted before after (inside op) (finished op) h (omega (arith, law, w))
          (omega (arith, law, r)) (omega (arith, law, h.writers, h.single))
          (λ some. absurd (omega (arith, law, some, h.writers, h.single)))
    thread-IsExclusive before after (unlock_shared op e a) h =
        let law = mutex.read_end a in
        let w = ap writes e in
        let r = ap reads e in
        counted before after (inside op) (finished op) h (omega (arith, law, w))
          (omega (arith, law, r)) (omega (arith, law, h.writers, h.single))
          (λ some.
            absurd (omega (arith, law, h.readers, h.apart (omega (arith, law, some, h.writers)))))
    thread-IsExclusive before after (enter l op e) h =
        let w = ap writes e in
        let r = ap reads e in
        counted before after (waiting op) (inside op) h (omega (arith, w)) (omega (arith, r))
          (omega (arith, h.writers, h.single))
          (λ some. omega (arith, h.readers, h.apart (omega (arith, h.writers, some))))
    thread-IsExclusive before after (leave l op e) h =
        let w = ap writes e in
        let r = ap reads e in
        counted before after (inside op) (finished op) h (omega (arith, w)) (omega (arith, r))
          (omega (arith, h.writers, h.single))
          (λ some. omega (arith, h.readers, h.apart (omega (arith, h.writers, some))))

    Reach-IsExclusive : {s : Sys mode mutex} → Reach mode mutex s → IsExclusive s
    Reach-IsExclusive start = record {
      writers = mutex.nobody.0;
      readers = mutex.nobody.1;
      single = omega arith;
      apart = λ h. refl;
    }
    Reach-IsExclusive (next r (call s op)) =
        let h = Reach-IsExclusive r in
        record {
          writers = omega (arith, h.writers);
          readers = omega (arith, h.readers);
          single = omega (arith, h.single);
          apart = λ some. omega (arith, h.apart (omega arith));
        }
    Reach-IsExclusive (next r (thread before after m)) =
        thread-IsExclusive before after m (Reach-IsExclusive r)

    -- While a call has the lock exclusively, no other call has it.
    exclusive_alone :
        {s : Sys mode mutex} (before after : List (Pc V)) (op : Op V)
        → Reach mode mutex s
        → s.calls ≡ before ++ inside op ∷ after
        → mode op ≡ exclusive
        → writing (before ++ after) + reading (before ++ after) ≡ 0
    exclusive_alone {s} before after op r same e =
        let h = Reach-IsExclusive r in
        let w = ap writing same in
        let d = ap reading same in
        let me = ap writes e in
        let w₁ = writing-append before (inside op ∷ after) in
        let w₂ = writing-append before after in
        let r₁ = reading-append before (inside op ∷ after) in
        let r₂ = reading-append before after in
        let silent = h.apart (omega (arith, w, w₁, me)) in
        omega (arith, h.single, silent, w, d, me, w₁, w₂, r₁, r₂)

    -- While a call has the lock exclusively, every other call on its way takes no lock.
    pub others_unlocked :
        {s : Sys mode mutex} (before after before' after' : List (Pc V)) (op other : Op V)
        → Reach mode mutex s
        → s.calls ≡ before ++ inside op ∷ after
        → mode op ≡ exclusive
        → before ++ after ≡ before' ++ inside other ∷ after'
        → mode other ≡ unlocked
    others_unlocked before after before' after' op other r same e there =
        let none_locked = exclusive_alone before after op r same e in
        let w = ap writing there in
        let d = ap reading there in
        let w₁ = writing-append before' (inside other ∷ after') in
        let r₁ = reading-append before' (inside other ∷ after') in
        no_lock (mode other) (omega (arith, none_locked, w, w₁)) (omega (arith, none_locked, d, r₁))

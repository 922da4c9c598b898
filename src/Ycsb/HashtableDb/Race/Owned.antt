-- ===== src/Ycsb/HashtableDb/Race/Owned.antt =====
-- No string of a record of workloads/YCSB-C/db/hashtable_db.cc is freed while the table has it, and
-- none is freed twice.
use ltram_policy_bench.Prelude.{
  ℕ, zero, suc, ◌+◌, ◌≤◌, ◌≡◌, ◌≢◌, refl, List, [], ◌∷◌, ◌++◌, true, some, arith, if◌then◌else◌,
  ◌==◌, replicate,
}
use ltram_policy_bench.Ycsb.Text.{Bytes, c_str, str_eq_iff}
use ltram_policy_bench.Ycsb.StringHashtable.{StringHashtable, is_some}
use ltram_policy_bench.Ycsb.HashtableDb.Race.{
  Heap, write, Pc, idle, reading, updating, missed, inserting, freeing, Shared, Move, gets, copies,
  copies_to_update, copies_to_insert, replaces, misses, adds, inserts, refuses, frees, Sys, Step,
  moves, Reach, here, next,
}

-- A thread has the only pointer to the string.
abbrev owns : ℕ → Pc → ℕ
owns p idle = 0
owns p (reading q) = 0
owns p (updating field q) = if q == p then 1 else 0
owns p (missed field q) = if q == p then 1 else 0
owns p (inserting field q) = if q == p then 1 else 0
owns p (freeing q) = if q == p then 1 else 0

abbrev owned : ℕ → List Pc → ℕ
owned p [] = 0
owned p (x ∷ xs) = owns p x + owned p xs

owned-append : (p : ℕ) (xs ys : List Pc) → owned p (xs ++ ys) ≡ owned p xs + owned p ys
owned-append p [] ys = omega arith
owned-append p (x ∷ xs) ys = omega (arith, owned-append p xs ys)

module _ (F : StringHashtable ℕ) where
  -- The strings of the table are live, no thread owns one and no two fields have the same; and a
  -- string that a thread owns is live and has no other owner. The last argument is the number of
  -- owners of each string.
  record IsOwned (s : Shared F) (owners : ℕ → ℕ) : Type 0 where
    stored :
        (k : Bytes) (p : ℕ)
        → F.get k s.table ≡ some p
        → (is_some (s.heap p) ≡ true) × (owners p ≡ 0)
    single : (k q : Bytes) (p : ℕ) → F.get k s.table ≡ some p → F.get q s.table ≡ some p → k ≡ q
    held : (p : ℕ) → owners p ≤ (if is_some (s.heap p) then 1 else 0)

  abbrev Moved : (o o' : ℕ → ℕ) (x y : Pc) → Type 0
  Moved o o' x y = (p : ℕ) → o' p + owns p x ≡ o p + owns p y

  Move-IsOwned :
      {s s' : Shared F} {x y : Pc} (o o' : ℕ → ℕ)
      → Move F s x s' y
      → IsOwned s o
      → Moved o o' x y
      → IsOwned s' o'
  unfolding write
  Move-IsOwned o o' (gets s field p e) h m = record {
    stored = λ k q g. ground (arith, h.stored k q g, m q);
    single = h.single;
    held = λ q. ground (arith, h.held q, m q);
  }
  Move-IsOwned o o' (copies s p value e) h m = record {
    stored = λ k q g. ground (arith, h.stored k q g, m q);
    single = h.single;
    held = λ q. ground (arith, h.held q, m q);
  }
  Move-IsOwned o o' (copies_to_update s field value p e) h m = record {
    stored = λ k q g. ground (arith, h.stored k q g, m q);
    single = h.single;
    held = λ q. ground (arith, h.held q, m q);
  }
  Move-IsOwned o o' (copies_to_insert s field value p e) h m = record {
    stored = λ k q g. ground (arith, h.stored k q g, m q);
    single = h.single;
    held = λ q. ground (arith, h.held q, m q);
  }
  Move-IsOwned o o' (replaces s field p old table e) h m =
      let f = c_str field in
      let was = F.update_result f p s.table in
      record {
        stored = λ k q g. ground (
          arith,
          F.get-update f k p s.table,
          was,
          e,
          h.stored f old,
          h.stored k q,
          h.single f k old,
          m q,
          h.held q,
          str_eq_iff f k,
        );
        single = λ k q r g g'. ground (
          arith,
          F.get-update f k p s.table,
          F.get-update f q p s.table,
          was,
          e,
          h.stored k r,
          h.stored q r,
          h.single k q r,
          h.single f k old,
          h.single f q old,
          m r,
          h.held r,
          str_eq_iff f k,
          str_eq_iff f q,
        );
        held = λ q. ground (arith, was, e, h.stored f old, m q, h.held q);
      }
  Move-IsOwned o o' (misses s field p table e) h m =
      let f = c_str field in
      let was = F.update_result f p s.table in
      record {
        stored = λ k q g. ground (
          arith,
          F.get-update f k p s.table,
          was,
          e,
          h.stored k q,
          m q,
          h.held q,
          str_eq_iff f k,
        );
        single = λ k q r g g'. ground (
          arith,
          F.get-update f k p s.table,
          F.get-update f q p s.table,
          was,
          e,
          h.single k q r,
          str_eq_iff f k,
          str_eq_iff f q,
        );
        held = λ q. ground (arith, m q, h.held q);
      }
  Move-IsOwned o o' (adds s field p) h m =
      let f = c_str field in
      let was = F.insert_result f p s.table in
      record {
        stored = λ k q g.
            ground
              (arith, F.get-insert f k p s.table, was, h.stored k q, m q, h.held q, str_eq_iff f k);
        single = λ k q r g g'. ground (
          arith,
          F.get-insert f k p s.table,
          F.get-insert f q p s.table,
          was,
          h.stored k r,
          h.stored q r,
          h.single k q r,
          m r,
          h.held r,
          str_eq_iff f k,
          str_eq_iff f q,
        );
        held = λ q. ground (arith, m q, h.held q);
      }
  Move-IsOwned o o' (inserts s field p table e) h m =
      let f = c_str field in
      let was = F.insert_result f p s.table in
      record {
        stored = λ k q g. ground (
          arith,
          F.get-insert f k p s.table,
          was,
          e,
          h.stored k q,
          m q,
          h.held q,
          str_eq_iff f k,
        );
        single = λ k q r g g'. ground (
          arith,
          F.get-insert f k p s.table,
          F.get-insert f q p s.table,
          was,
          e,
          h.stored k r,
          h.stored q r,
          h.single k q r,
          m r,
          h.held r,
          str_eq_iff f k,
          str_eq_iff f q,
        );
        held = λ q. ground (arith, m q, h.held q);
      }
  Move-IsOwned o o' (refuses s field p table e) h m =
      let f = c_str field in
      let was = F.insert_result f p s.table in
      record {
        stored = λ k q g. ground (
          arith,
          F.get-insert f k p s.table,
          was,
          e,
          h.stored k q,
          m q,
          h.held q,
          str_eq_iff f k,
        );
        single = λ k q r g g'. ground (
          arith,
          F.get-insert f k p s.table,
          F.get-insert f q p s.table,
          was,
          e,
          h.stored k r,
          h.stored q r,
          h.single k q r,
          m r,
          h.held r,
          str_eq_iff f k,
          str_eq_iff f q,
        );
        held = λ q. ground (arith, m q, h.held q);
      }
  Move-IsOwned o o' (frees s p) h m = record {
    stored = λ k q g. ground (arith, h.stored k q g, m q);
    single = h.single;
    held = λ q. ground (arith, h.held q, m q);
  }

  Step-IsOwned :
      {s t : Sys F}
      → Step F s t
      → IsOwned s.shared (λ p. owned p s.threads)
      → IsOwned t.shared (λ p. owned p t.threads)
  Step-IsOwned (moves before after s s' x y move) h =
      Move-IsOwned (λ p. owned p (before ++ x ∷ after)) (λ p. owned p (before ++ y ∷ after)) move h
        (λ p. omega (arith, owned-append p before (x ∷ after), owned-append p before (y ∷ after)))

  Reach-IsOwned :
      {s t : Sys F}
      → Reach F s t
      → IsOwned s.shared (λ p. owned p s.threads)
      → IsOwned t.shared (λ p. owned p t.threads)
  Reach-IsOwned here h = h
  Reach-IsOwned (next p step) h = Step-IsOwned step (Reach-IsOwned p h)

  owned-idle : (p n : ℕ) → owned p (replicate n idle) ≡ 0
  owned-idle p zero = refl
  owned-idle p (suc n) = omega (arith, owned-idle p n)

  -- Threads use one record, which is new. Whenever the table has a string for a field and a thread is
  -- about to free one, both are live, so no string is freed twice, and they are not the same.
  pub Reach-live :
      (heap : Heap) (n p q : ℕ) (k : Bytes) (before after : List Pc) (t : Sys F)
      → Reach F
          (record { shared = record { table = F.new; heap = heap }; threads = replicate n idle })
          t
      → F.get k t.shared.table ≡ some p
      → t.threads ≡ before ++ freeing q ∷ after
      → (is_some (t.shared.heap p) ≡ true) × (is_some (t.shared.heap q) ≡ true) × (p ≢ q)
  Reach-live heap n p q k before after t reached has frees_q =
      let s : Shared F = record { table = F.new; heap = heap } in
      let new_owned : IsOwned s (λ r. owned r (replicate n idle)) = record {
        stored = λ k' r g. absurd (ground (arith, F.get-new k', g));
        single = λ k' q' r g g'. absurd (ground (arith, F.get-new k', g));
        held = λ r. omega (arith, owned-idle r n);
      } in
      let h = Reach-IsOwned reached new_owned in
      let count : owned q t.threads ≡ owned q before + (1 + owned q after) =
        rw frees_q (ground (arith, owned-append q before (freeing q ∷ after))) in
      let live : is_some (t.shared.heap q) ≡ true = ground (arith, h.held q, count) in
      ((h.stored k p has).0, live, λ same. absurd (ground (arith, h.stored k p has, same, count)))

-- ===== src/Ycsb/LockStlHashtable/Linear.antt =====
-- The calls on the table of workloads/YCSB-C/lib/lock_stl_hashtable.h take effect one at a time.
use mathlib.Core.Path.{subst}
use ltram_policy_bench.Prelude.{
  ℕ, ◌+◌, ◌≤◌, ◌≡◌, ◌∙◌, refl, sym, ap, List, [], ◌∷◌, ◌++◌, append-nil, map, Bool, true, false,
  none, some, arith, if◌then◌else◌, All, map-snoc, around_middle, with_middle, inl, inr, ◌⊎◌,
}
use ltram_policy_bench.Ycsb.HashString.{HashString}
use ltram_policy_bench.Ycsb.StlHashtable
use ltram_policy_bench.Ycsb.StlHashtable.{StlHashtable, find, assign, erase, collect}
use ltram_policy_bench.Ycsb.LockStlHashtable.{
  Op, Reply, get, insert, update, remove, entries, size, method, position, act, Pc, waiting,
  holding, at, acted, done, Sys, lock, look, change, unlock, Step, call, thread, Reach, here, next,
  started,
}

module _ {V : Type 0} where
  -- The two halves of a call with nothing between them are the method.
  act-position : (op : Op V) (t : StlHashtable V) → act op (position op t) t ≡ method op t
  unfolding act position method StlHashtable.get StlHashtable.insert StlHashtable.update
      StlHashtable.remove StlHashtable.entries
  act-position (get k) t = refl
  act-position (insert none v) t = refl
  act-position (insert (some k) v) t = refl
  act-position (update k v) t = refl
  act-position (remove k) t = refl
  act-position (entries none n) t = refl
  act-position (entries (some k) n) t = refl
  act-position size t = refl

  -- The methods one after the other.
  unfoldable pub in_turn : List (Op V) → StlHashtable V → List (Reply V) × StlHashtable V
  in_turn [] t = ([], t)
  in_turn (op ∷ ops) t =
      let (r, t') = method op t in let (rs, t'') = in_turn ops t' in (r ∷ rs, t'')

  in_turn-snoc :
      (ops : List (Op V)) (op : Op V) (t : StlHashtable V)
      → let (rs, u) = in_turn ops t in
        in_turn (ops ++ (op ∷ [])) t ≡ (rs ++ ((method op u).0 ∷ []), (method op u).1)
  unfolding in_turn
  in_turn-snoc [] op t = refl
  in_turn-snoc (o ∷ ops) op t =
      let ih = in_turn-snoc ops op (method o t).1 in ap (λ p. ((method o t).0 ∷ p.0, p.1)) ih

  abbrev holds : Pc V → ℕ
  holds (waiting _) = 0
  holds (done _ _) = 0
  holds _ = 1

  abbrev holders : List (Pc V) → ℕ
  holders [] = 0
  holders (p ∷ ps) = holds p + holders ps

  -- A position that was looked up is the position now.
  abbrev IsFresh : StlHashtable V → Pc V → Type 0
  IsFresh t (at op pos) = pos ≡ position op t
  IsFresh t _ = Unit

  -- A call that acted is in the record with its reply.
  abbrev pub IsIn : Op V → Reply V → List (Op V × Reply V) → Type 0
  IsIn op r [] = ⊥
  IsIn op r ((o, q) ∷ log) = ((o ≡ op) × (q ≡ r)) ⊎ IsIn op r log

  abbrev pub IsLogged : List (Op V × Reply V) → Pc V → Type 0
  IsLogged log (acted op r) = IsIn op r log
  IsLogged log (done op r) = IsIn op r log
  IsLogged log _ = Unit

  holders-append : (xs ys : List (Pc V)) → holders (xs ++ ys) ≡ holders xs + holders ys
  holders-append [] ys = omega arith
  holders-append (p ∷ xs) ys = omega (arith, holders-append xs ys)

  -- Calls without the mutex have no position.
  free-IsFresh : (t : StlHashtable V) (ps : List (Pc V)) → holders ps ≡ 0 → All (IsFresh t) ps
  free-IsFresh t [] h = tt
  free-IsFresh t (waiting op ∷ ps) h = (tt, free-IsFresh t ps (omega arith))
  free-IsFresh t (holding op ∷ ps) h = absurd (omega arith)
  free-IsFresh t (at op pos ∷ ps) h = absurd (omega arith)
  free-IsFresh t (acted op r ∷ ps) h = absurd (omega arith)
  free-IsFresh t (done op r ∷ ps) h = (tt, free-IsFresh t ps (omega arith))

  IsIn-append :
      (op : Op V) (r : Reply V) (log more : List (Op V × Reply V))
      → IsIn op r log
      → IsIn op r (log ++ more)
  IsIn-append op r [] more h = absurd h
  IsIn-append op r (l ∷ log) more (inl h) = inl h
  IsIn-append op r (l ∷ log) more (inr h) = inr (IsIn-append op r log more h)

  IsIn-snoc :
      (op : Op V) (r : Reply V) (log : List (Op V × Reply V)) → IsIn op r (log ++ ((op, r) ∷ []))
  IsIn-snoc op r [] = inl (refl, refl)
  IsIn-snoc op r (l ∷ log) = inr (IsIn-snoc op r log)

  IsLogged-append :
      (log more : List (Op V × Reply V)) (p : Pc V) → IsLogged log p → IsLogged (log ++ more) p
  IsLogged-append log more (waiting op) h = tt
  IsLogged-append log more (holding op) h = tt
  IsLogged-append log more (at op pos) h = tt
  IsLogged-append log more (acted op r) h = IsIn-append op r log more h
  IsLogged-append log more (done op r) h = IsIn-append op r log more h

  all-IsLogged-append :
      (log more : List (Op V × Reply V)) (ps : List (Pc V))
      → All (IsLogged log) ps
      → All (IsLogged (log ++ more)) ps
  all-IsLogged-append log more [] h = tt
  all-IsLogged-append log more (p ∷ ps) h =
      (IsLogged-append log more p h.0, all-IsLogged-append log more ps h.1)

  -- The calls that acted, one after the other from the first table, give the replies and the table;
  -- one call has the mutex when it is locked; and every call that acted is in the record.
  pub record IsLinear (t₀ : StlHashtable V) (s : Sys V) : Type 0 where
    pub replay : in_turn (map (λ l. l.0) s.log) t₀ ≡ (map (λ l. l.1) s.log, s.table)
    pub mutex : holders s.calls ≡ (if s.locked then 1 else 0)
    pub fresh : All (IsFresh s.table) s.calls
    pub logged : All (IsLogged s.log) s.calls

  -- A step that leaves the table as it is.
  quiet-IsLinear :
      (t₀ t : StlHashtable V) (before after : List (Pc V)) (log : List (Op V × Reply V))
      (b b' : Bool) (p p' : Pc V)
      → IsLinear t₀ (record { table = t; locked = b; calls = before ++ p ∷ after; log = log })
      → holds p' + (if b then 1 else 0) ≡ holds p + (if b' then 1 else 0)
      → IsFresh t p'
      → (IsLogged log p → IsLogged log p')
      → IsLinear t₀
          (record { table = t; locked = b'; calls = before ++ p' ∷ after; log = log ++ [] })
  quiet-IsLinear t₀ t before after log b b' p p' h m f l =
      let fr = around_middle (IsFresh t) before p after h.fresh in
      let lo = around_middle (IsLogged log) before p after h.logged in
      rw append-nil (record {
        replay = h.replay;
        mutex =
            omega (
              arith,
              h.mutex,
              holders-append before (p ∷ after),
              holders-append before (p' ∷ after),
            );
        fresh = with_middle (IsFresh t) before p' after fr.left f fr.right;
        logged = with_middle (IsLogged log) before p' after lo.left (l lo.here) lo.right;
      })

  replay-snoc :
      (t₀ t : StlHashtable V) (op : Op V) (log : List (Op V × Reply V))
      → in_turn (map (λ l. l.0) log) t₀ ≡ (map (λ l. l.1) log, t)
      → let (r, t') = method op t in
        let log' = log ++ ((op, r) ∷ []) in
        in_turn (map (λ l. l.0) log') t₀ ≡ (map (λ l. l.1) log', t')
  replay-snoc t₀ t op log h =
      let r = (method op t).0 in
      rw (map-snoc (λ l. l.0) log (op, r), map-snoc (λ l. l.1) log (op, r))
        (in_turn-snoc (map (λ l. l.0) log) op t₀
          ∙ ap (λ p. (p.0 ++ ((method op p.1).0 ∷ []), (method op p.1).1)) h)

  change-IsLinear :
      (t₀ t : StlHashtable V) (before after : List (Pc V)) (log : List (Op V × Reply V)) (b : Bool)
      (op : Op V) (pos : List (HashString × V))
      → IsLinear t₀
          (record { table = t; locked = b; calls = before ++ at op pos ∷ after; log = log })
      → let (r, t') = act op pos t in
        IsLinear t₀ (record {
          table = t';
          locked = b;
          calls = before ++ acted op r ∷ after;
          log = log ++ ((op, r) ∷ []);
        })
  change-IsLinear t₀ t before after log b op pos h =
      let fr = around_middle (IsFresh t) before (at op pos) after h.fresh in
      let lo = around_middle (IsLogged log) before (at op pos) after h.logged in
      let (r, t') = act op pos t in
      let whole : act op pos t ≡ method op t = ap (λ q. act op q t) fr.here ∙ act-position op t in
      let one = holders-append before (at op pos ∷ after) in
      let few : holders before + (1 + holders after) ≤ 1 = ground (arith, h.mutex, one) in
      let entry : List (Op V × Reply V) = (op, r) ∷ [] in
      record {
        replay =
            subst
              (λ x.
                in_turn (map (λ l. l.0) (log ++ ((op, x.0) ∷ []))) t₀
                ≡ (map (λ l. l.1) (log ++ ((op, x.0) ∷ [])), x.1))
              (sym whole) (replay-snoc t₀ t op log h.replay);
        mutex = omega (arith, h.mutex, one, holders-append before (acted op r ∷ after));
        fresh =
            with_middle (IsFresh t') before (acted op r) after
              (free-IsFresh t' before (omega arith)) tt (free-IsFresh t' after (omega arith));
        logged =
            with_middle (IsLogged (log ++ entry)) before (acted op r) after
              (all-IsLogged-append log entry before lo.left) (IsIn-snoc op r log)
              (all-IsLogged-append log entry after lo.right);
      }

  Step-IsLinear : {t₀ : StlHashtable V} {s u : Sys V} → Step s u → IsLinear t₀ s → IsLinear t₀ u
  Step-IsLinear (call s op) h = record {
    replay = h.replay;
    mutex = omega (arith, h.mutex);
    fresh = (tt, h.fresh);
    logged = (tt, h.logged);
  }
  Step-IsLinear {t₀} (thread before after log (lock t op)) h =
      quiet-IsLinear t₀ t before after log false true (waiting op) (holding op) h refl tt (λ l. l)
  Step-IsLinear {t₀} (thread before after log (look t b op)) h =
      quiet-IsLinear t₀ t before after log b b (holding op) (at op (position op t)) h refl refl
        (λ l. l)
  Step-IsLinear {t₀} (thread before after log (change t b op pos)) h =
      change-IsLinear t₀ t before after log b op pos h
  Step-IsLinear {t₀} (thread before after log (unlock t b op r)) h =
      quiet-IsLinear t₀ t before after log b false (acted op r) (done op r) h
        (ground (arith, h.mutex, holders-append before (acted op r ∷ after))) tt (λ l. l)

  -- However the calls of the threads interleave, with the position that a call has looked up kept
  -- from one step to the next, the replies so far and the table are those of the methods called one
  -- after the other in the order in which they acted, and every call that has its reply is among
  -- them; at most one call has the mutex.
  pub Reach-IsLinear : {t₀ : StlHashtable V} {s : Sys V} → Reach (started t₀) s → IsLinear t₀ s
  unfolding in_turn
  Reach-IsLinear here = record { replay = refl; mutex = refl; fresh = tt; logged = tt }
  Reach-IsLinear (next r st) = Step-IsLinear st (Reach-IsLinear r)

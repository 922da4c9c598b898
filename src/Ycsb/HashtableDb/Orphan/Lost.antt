-- ===== src/Ycsb/HashtableDb/Orphan/Lost.antt =====
-- A race of workloads/YCSB-C/db/hashtable_db.cc: of two threads that insert one new record, the fields
-- of one are lost.
use ltram_policy_bench.Prelude.{
  ℕ, ◌≡◌, ◌≢◌, refl, sym, List, [], ◌∷◌, ◌++◌, true, false, none, some, arith, inl, inr, Bool-cases,
}
use ltram_policy_bench.Ycsb.Text.{Bytes, c_str, str_eq_iff}
use ltram_policy_bench.Ycsb.Db.{ok, conflict, KvPair}
use ltram_policy_bench.Ycsb.StringHashtable.{StringHashtable}
use ltram_policy_bench.Ycsb.HashtableDb.{copy_string, insert_fields}
use ltram_policy_bench.Ycsb.HashtableDb.Orphan.{
  Pc, looking, making, filling, done, Shared, set_table, misses, makes, fills, clashes, returns,
  Sys, moves, Reach, here, next,
}

module _ (F : StringHashtable Bytes) (K : StringHashtable ℕ) (index : Bytes) where
  Reach-trans :
      {s t u : Sys F K index} → Reach F K index s t → Reach F K index t u → Reach F K index s u
  Reach-trans p here = p
  Reach-trans p (next q step) = next (Reach-trans p q) step

  -- The loop of a call that is not interrupted.
  record Filled (before after : List Pc) (s : Shared F K index) (p : ℕ) (values : List KvPair)
      (ft : F.Table) : Type 0 where
    end : Shared F K index
    keys : end.keys ≡ s.keys
    mine : end.tables p ≡ some (insert_fields F values ft).1
    others : (q : ℕ) → q ≢ p → end.tables q ≡ s.tables q
    reached :
        Reach F K index
          (record { shared = s; threads = before ++ filling p values ∷ after })
          (record { shared = end; threads = before ++ done (insert_fields F values ft).0 ∷ after })

  fill :
      (before after : List Pc) (s : Shared F K index) (p : ℕ) (values : List KvPair) (ft : F.Table)
      → s.tables p ≡ some ft
      → Filled before after s p values ft
  unfolding insert_fields set_table
  fill before after s p [] ft h = record {
    end = s;
    keys = refl;
    mine = h;
    others = λ q other. refl;
    reached = next here (moves before after s s (filling p []) (done ok) (returns s p));
  }
  fill before after s p ((field, value) ∷ values) ft h =
      let (result, ft') = F.insert (some (c_str field)) (copy_string value) ft in
      let t : Shared F K index = record s { tables = set_table F K index s.tables p ft' } in
      let there : t.tables p ≡ some ft' = ground arith in
      elim (Bool-cases result) [
        | inl e ↦
            let rest = fill before after t p values ft' there in
            let taken : F.insert (some (c_str field)) (copy_string value) ft ≡ (true, ft') =
              ground (arith, e) in
            let same : insert_fields F ((field, value) ∷ values) ft ≡ insert_fields F values ft' =
              ground (arith, e) in
            let one =
              moves before after s t (filling p ((field, value) ∷ values)) (filling p values)
                (fills s field value values p ft ft' h taken) in
            record {
              end = rest.end;
              keys = rest.keys;
              mine = rw same rest.mine;
              others = λ q other. ground (arith, rest.others q other);
              reached = rw same (Reach-trans (next here one) rest.reached);
            }
        | inr e ↦
            let refused : F.insert (some (c_str field)) (copy_string value) ft ≡ (false, ft') =
              ground (arith, e) in
            let same : insert_fields F ((field, value) ∷ values) ft ≡ (conflict, ft') =
              ground (arith, e) in
            let one =
              moves before after s t (filling p ((field, value) ∷ values)) (done conflict)
                (clashes s field value values p ft ft' h refused) in
            record {
              end = t;
              keys = refl;
              mine = rw same there;
              others = λ q other. ground arith;
              reached = rw same (next here one);
            }
      ]

  -- Whenever a record is not there and two threads are about to insert it, with any fields each, there
  -- is an interleaving in which both return what they would for a new record, and afterwards the
  -- record has the fields of the first thread alone.
  pub insert_lost :
      (s : Shared F K index) (values lost : List KvPair) (p q : ℕ) (rest : List Pc)
      → K.get index s.keys ≡ none
      → s.tables p ≡ none
      → s.tables q ≡ none
      → p ≢ q
      → (t : Shared F K index) × Reach F K index
          (record { shared = s; threads = looking values ∷ looking lost ∷ rest })
          (record {
            shared = t;
            threads =
                done (insert_fields F values F.new).0 ∷ done (insert_fields F lost F.new).0 ∷ rest;
          })
        × (K.get index t.keys ≡ some p)
        × (t.tables p ≡ some (insert_fields F values F.new).1)
  unfolding set_table
  insert_lost s values lost p q rest missing free_p free_q apart =
      let s₁ : Shared F K index = record {
        keys = (K.insert (some index) p s.keys).1;
        tables = set_table F K index s.tables p F.new;
      } in
      let s₂ : Shared F K index = record {
        keys = (K.insert (some index) q s₁.keys).1;
        tables = set_table F K index s₁.tables q F.new;
      } in
      let free : s₁.tables q ≡ none = ground (arith, free_q, apart) in
      let first = fill [] (filling q lost ∷ rest) s₂ p values F.new (ground (arith, apart)) in
      let code = (insert_fields F values F.new).0 in
      let q_there : first.end.tables q ≡ some F.new =
        ground (arith, first.others q (λ e. apart (sym e))) in
      let second = fill (done code ∷ []) rest first.end q lost F.new q_there in
      let both_make =
        next
          (next
            (next
              (next here (
                moves [] (looking lost ∷ rest) s s (looking values) (making values)
                  (misses s values missing)))
              (moves (making values ∷ []) rest s s (looking lost) (making lost)
                (misses s lost missing)))
            (moves [] (making lost ∷ rest) s s₁ (making values) (filling p values)
              (makes s values p free_p)))
          (moves (filling p values ∷ []) rest s₁ s₂ (making lost) (filling q lost)
            (makes s₁ lost q free)) in
      let kept : K.get index s₂.keys ≡ some p = ground (
        arith,
        K.get-insert index index p s.keys,
        K.get-insert index index q s₁.keys,
        missing,
        str_eq_iff index index,
      ) in
      let mine : second.end.tables p ≡ some (insert_fields F values F.new).1 =
        ground (arith, second.others p apart, first.mine) in
      (
        second.end,
        Reach-trans (Reach-trans both_make first.reached) second.reached,
        ground (arith, second.keys, first.keys, kept),
        mine,
      )

-- ===== src/Ycsb/HashtableDb/RoundTrip.antt =====
-- What workloads/YCSB-C/db/hashtable_db.cc reads back of what it wrote.
use ltram_policy_bench.Prelude.{◌≡◌, List, [], ◌∷◌, Option, some, arith, inl, inr, Option-cases}
use ltram_policy_bench.Ycsb.Text.{Bytes, c_str, str_eq_iff}
use ltram_policy_bench.Ycsb.Db.{ok, KvPair}
use ltram_policy_bench.Ycsb.StringHashtable.{StringHashtable}
use ltram_policy_bench.Ycsb.HashtableDb.{key_index, fill, overwrite, read_record, read, update}
use ltram_policy_bench.Ycsb.HashtableDb.Fields.{first, get-fill, get-overwrite}
use ltram_policy_bench.Ycsb.HashtableDb.Records.{
  Distinct, fields, Plain, Holds, latest-eq-first, Holds-first, read_fields-Holds,
}

Holds-map :
    (g g' : Bytes → Option Bytes) (values : List KvPair)
    → ((f v : Bytes) → g f ≡ some v → g' f ≡ some v)
    → Holds g values
    → Holds g' values
Holds-map g g' [] step h = tt
Holds-map g g' ((f, v) ∷ values) step h =
    (step (c_str f) (c_str v) h.0, Holds-map g g' values step h.1)

module _ (F : StringHashtable Bytes) (values : List KvPair) (distinct : Distinct values) where
  fill-Holds : Holds (λ f. F.get f (fill F values F.new)) values
  fill-Holds =
      Holds-map (λ f. first f values) (λ f. F.get f (fill F values F.new)) values
        (λ f v e. ground (arith, get-fill F values f F.new, F.get-new f))
        (Holds-first values distinct)

  overwrite-Holds : (ft : F.Table) → Holds (λ f. F.get f (overwrite F values ft)) values
  overwrite-Holds ft =
      Holds-map (λ f. first f values) (λ f. F.get f (overwrite F values ft)) values
        (λ f v e. ground (arith, get-overwrite F values f ft, latest-eq-first f values distinct))
        (Holds-first values distinct)

module _ (F : StringHashtable Bytes) (K : StringHashtable F.Table) where
  -- After an update with no field twice and no NUL byte in a value, whether or not the record was
  -- there, reading those fields returns kOK and exactly the pairs that were written.
  pub read-update :
      (table key : Bytes) (values : List KvPair) (result : List KvPair) (db : K.Table)
      → Distinct values
      → Plain values
      → read F K table key (some (fields values)) result (update F K table key values db).1
        ≡ (ok, values)
  unfolding read read_record update
  read-update table key values result db distinct plain =
      let index = key_index table key in
      elim (Option-cases (K.get index db)) [
        | inl e ↦
            let db' = (K.insert (some index) F.new db).1 in
            let ft = fill F values F.new in
            ground (
              arith,
              K.get-insert index index F.new db,
              K.get-update index index ft db',
              str_eq_iff index index,
              read_fields-Holds F values ft plain (fill-Holds F values distinct),
            )
        | inr (old, e) ↦
            let ft = overwrite F values old in
            ground (
              arith,
              K.get-update index index ft db,
              str_eq_iff index index,
              read_fields-Holds F values ft plain (overwrite-Holds F values distinct old),
            )
      ]

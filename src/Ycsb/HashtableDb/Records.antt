-- ===== src/Ycsb/HashtableDb/Records.antt =====
-- The operations of workloads/YCSB-C/db/hashtable_db.cc on whole records.
use mathlib.Core.Path.{fun_ext}
use ltram_policy_bench.Prelude.{
  ◌≡◌, ◌∙◌, refl, ap, List, [], ◌∷◌, map, Bool, true, false, Option, none, some, arith,
  if◌then◌else◌, inl, inr, Option-cases, All,
}
use ltram_policy_bench.Ycsb.Text.{Bytes, c_str, str_eq, str_eq_iff, NoNul, c_str-NoNul}
use ltram_policy_bench.Ycsb.Db.{ok, no_data, conflict, KvPair}
use ltram_policy_bench.Ycsb.StringHashtable.{StringHashtable, is_some, or_else}
use ltram_policy_bench.Ycsb.HashtableDb.{
  key_index, fill, overwrite, insert_fields, read_fields, update, insert, delete,
}
use ltram_policy_bench.Ycsb.HashtableDb.Fields.{
  first, latest, accepted, same_length, get-fill, get-overwrite, insert_fields-get,
  insert_fields_code,
}

module _ (F : StringHashtable Bytes) (K : StringHashtable F.Table) where
  -- The fields of the record at an index of the key table; none if there is no record.
  abbrev pub record_at : K.Table → Bytes → Option (Bytes → Option Bytes)
  record_at db index = elim (K.get index db) [ none ↦ none | some ft ↦ some (λ f. F.get f ft) ]

  abbrev pub field_at : K.Table → Bytes → Bytes → Option Bytes
  field_at db index f = elim (K.get index db) [ none ↦ none | some ft ↦ F.get f ft ]

  abbrev pub exists : K.Table → Bytes → Bool
  exists db index = is_some (K.get index db)

  absent : (db : K.Table) (index x : Bytes) → K.get index db ≡ none → none ≡ field_at db index x
  absent db index x e = ground arith

  present :
      (db : K.Table) (index x : Bytes) (ft : F.Table)
      → K.get index db ≡ some ft
      → F.get x ft ≡ field_at db index x
  present db index x ft e = ground arith

  -- After an update the record is there. A field that was there or is written holds the last value
  -- written; on a record that was not there it holds the first one. No other record changes.
  pub update_lem :
      (table key : Bytes) (values : List KvPair) (db : K.Table) (q f : Bytes)
      → let index = key_index table key in
        let (code, db') = update F K table key values db in
        (code ≡ ok)
        × (exists db' q ≡ (if str_eq index q then true else exists db q))
        × (field_at db' q f ≡ (
            if str_eq index q
            then (if exists db index
                then or_else (latest f values) (field_at db q f)
                else first f values)
            else field_at db q f))
  unfolding update
  update_lem table key values db q f =
      let index = key_index table key in
      elim (Option-cases (K.get index db)) [
        | inl e ↦
            let db' = (K.insert (some index) F.new db).1 in
            let ft = fill F values F.new in
            ground (
              arith,
              K.get-insert index q F.new db,
              K.get-update index q ft db',
              get-fill F values f F.new,
              F.get-new f,
              str_eq_iff index q,
            )
        | inr (ft, e) ↦
            let ft' = overwrite F values ft in
            ground
              (arith, K.get-update index q ft' db, get-overwrite F values f ft, str_eq_iff index q)
      ]

  -- An insertion takes the pairs up to the first whose field is there already, or occurred before,
  -- and keeps them also when it then returns a conflict. It returns kOK when it took all, and
  -- kErrorConflict otherwise. The record is there afterwards, what it held is kept, and no other
  -- record changes.
  pub insert_lem :
      (table key : Bytes) (values : List KvPair) (db : K.Table) (q f : Bytes)
      → let index = key_index table key in
        let (code, db') = insert F K table key values db in
        let taken = accepted values (field_at db index) in
        (code ≡ (if same_length taken values then ok else conflict))
        × (exists db' q ≡ (if str_eq index q then true else exists db q))
        × (field_at db' q f ≡ (
            if str_eq index q then or_else (field_at db q f) (first f taken) else field_at db q f))
  unfolding insert
  insert_lem table key values db q f =
      let index = key_index table key in
      elim (Option-cases (K.get index db)) [
        | inl e ↦
            let db' = (K.insert (some index) F.new db).1 in
            let ft = (insert_fields F values F.new).1 in
            let fresh : (λ x. F.get x F.new) ≡ field_at db index =
              fun_ext (λ x. F.get-new x ∙ absent db index x e) in
            let taken = ap (λ o. same_length (accepted values o) values) fresh in
            let firsts = ap (λ o. first f (accepted values o)) fresh in
            ground (
              arith,
              K.get-insert index q F.new db,
              K.get-update index q ft db',
              insert_fields-get F values f F.new,
              insert_fields_code F values F.new,
              taken,
              firsts,
              F.get-new f,
              str_eq_iff index q,
            )
        | inr (ft, e) ↦
            let ft' = (insert_fields F values ft).1 in
            let here : (λ x. F.get x ft) ≡ field_at db index =
              fun_ext (λ x. present db index x ft e) in
            let taken = ap (λ o. same_length (accepted values o) values) here in
            let firsts = ap (λ o. first f (accepted values o)) here in
            ground (
              arith,
              K.get-update index q ft' db,
              insert_fields-get F values f ft,
              insert_fields_code F values ft,
              taken,
              firsts,
              str_eq_iff index q,
            )
      ]

  -- A deletion from a valid key table returns kErrorNoData when there is no record and kOK when
  -- there is one. Afterwards there is none, and no other record has changed.
  pub delete_lem :
      (table key : Bytes) (db : K.Table) (q f : Bytes)
      → K.IsValid db
      → let index = key_index table key in
        let (code, db') = delete F K table key db in
        (code ≡ (if exists db index then ok else no_data))
        × (exists db' q ≡ (if str_eq index q then false else exists db q))
        × (field_at db' q f ≡ (if str_eq index q then none else field_at db q f))
  unfolding delete
  delete_lem table key db q f v =
      let index = key_index table key in
      ground (arith, K.remove_result index db, K.get-remove index q db v, str_eq_iff index q)

  delete-IsValid :
      (table key : Bytes) (db : K.Table) → K.IsValid db → K.IsValid (delete F K table key db).1
  unfolding delete
  delete-IsValid table key db v =
      let index = key_index table key in
      let d = K.remove-IsValid index db v in
      elim (Option-cases (K.remove index db).0) [
        | inl e ↦ rw (delete, e) d
        | inr (ft, e) ↦ rw (delete, e) d
      ]

  -- An update, an insertion and a deletion each leave a valid key table valid.
  pub kept-IsValid :
      (table key : Bytes) (values : List KvPair) (db : K.Table)
      → K.IsValid db
      → K.IsValid (update F K table key values db).1
        × (K.IsValid (insert F K table key values db).1 × K.IsValid (delete F K table key db).1)
  unfolding update insert
  kept-IsValid table key values db v =
      let index = key_index table key in
      let d = delete-IsValid table key db v in
      let db' = (K.insert (some index) F.new db).1 in
      let v' = K.insert-IsValid (some index) F.new db v in
      elim (Option-cases (K.get index db)) [
        | inl e ↦
            let u = K.update-IsValid index (fill F values F.new) db' v' in
            let n = K.update-IsValid index (insert_fields F values F.new).1 db' v' in
            (rw (update, e) u, (rw (insert, e) n, d))
        | inr (old, e) ↦
            let u = K.update-IsValid index (overwrite F values old) db v in
            let n = K.update-IsValid index (insert_fields F values old).1 db v in
            (rw (update, e) u, (rw (insert, e) n, d))
      ]

-- No field twice.
abbrev pub Distinct : List KvPair → Type 0
Distinct [] = Unit
Distinct ((field, value) ∷ values) = (first (c_str field) values ≡ none) × Distinct values

abbrev pub fields : List KvPair → List Bytes
fields values = map (λ p. p.0) values

-- Values with no NUL byte.
abbrev pub Plain : List KvPair → Type 0
Plain = All (λ p. NoNul p.1)

first-absent : (f : Bytes) (values : List KvPair) → first f values ≡ none → latest f values ≡ none
unfolding first latest
first-absent f [] h = refl
first-absent f ((field, value) ∷ values) h = ground (arith, first-absent f values)

pub latest-eq-first :
    (f : Bytes) (values : List KvPair) → Distinct values → latest f values ≡ first f values
unfolding first latest
latest-eq-first f [] h = refl
latest-eq-first f ((field, value) ∷ values) h =
    ground (arith, latest-eq-first f values h.1, str_eq_iff (c_str field) f)

-- Every pair is read back from a function of the field.
abbrev pub Holds : (Bytes → Option Bytes) → List KvPair → Type 0
Holds g = All (λ p. g (c_str p.0) ≡ some (c_str p.1))

Holds-skip :
    (field value : Bytes) (rest : List KvPair) (all : List KvPair)
    → first (c_str field) rest ≡ none
    → Holds (λ f. first f all) rest
    → Holds (λ f. first f ((field, value) ∷ all)) rest
unfolding first
Holds-skip field value [] all h k = tt
Holds-skip field value ((g, w) ∷ rest) all h k = (
  ground (arith, str_eq_iff (c_str field) (c_str g), str_eq_iff (c_str g) (c_str field)),
  Holds-skip field value rest all (ground arith) k.1,
)

pub Holds-first : (values : List KvPair) → Distinct values → Holds (λ f. first f values) values
unfolding first
Holds-first [] h = tt
Holds-first ((field, value) ∷ values) h = (
  ground (arith, str_eq_iff (c_str field) (c_str field)),
  Holds-skip field value values values h.0 (Holds-first values h.1),
)

pub read_fields-Holds :
    (F : StringHashtable Bytes) (values : List KvPair) (ft : F.Table)
    → Plain values
    → Holds (λ f. F.get f ft) values
    → read_fields F (fields values) ft ≡ values
unfolding read_fields
read_fields-Holds F [] ft p h = refl
read_fields-Holds F ((field, value) ∷ values) ft p h =
    ground (arith, read_fields-Holds F values ft p.1 h.1, c_str-NoNul value p.0)

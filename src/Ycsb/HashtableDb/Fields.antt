-- ===== src/Ycsb/HashtableDb/Fields.antt =====
-- The loops of workloads/YCSB-C/db/hashtable_db.cc over the fields of one record.
use mathlib.Core.Path.{fun_ext}
use ltram_policy_bench.Prelude.{
  ◌≡◌, refl, ap, List, [], ◌∷◌, Bool, true, false, Option, none, some, arith, if◌then◌else◌,
}
use ltram_policy_bench.Ycsb.Text.{Bytes, c_str, str_eq, str_eq_iff}
use ltram_policy_bench.Ycsb.Db.{ok, conflict, KvPair}
use ltram_policy_bench.Ycsb.StringHashtable.{StringHashtable, is_some, or_else}
use ltram_policy_bench.Ycsb.HashtableDb.{copy_string, fill, overwrite, insert_fields}

-- The first and the last value that a list of pairs has for a field, as the tables store them.
unfoldable pub first : Bytes → List KvPair → Option Bytes
first f [] = none
first f ((field, value) ∷ values) =
    if str_eq (c_str field) f then some (copy_string value) else first f values

unfoldable pub latest : Bytes → List KvPair → Option Bytes
latest f [] = none
latest f ((field, value) ∷ values) =
    or_else (latest f values) (if str_eq (c_str field) f then some (copy_string value) else none)

-- A record with a field added, unless it is there.
abbrev pub with_field : Bytes → Bytes → (Bytes → Option Bytes) → Bytes → Option Bytes
with_field k v old f = if str_eq k f then or_else (old f) (some v) else old f

-- The pairs that an insertion takes before it meets a field that is there.
unfoldable pub accepted : List KvPair → (Bytes → Option Bytes) → List KvPair
accepted [] old = []
accepted ((field, value) ∷ values) old =
    let rest = accepted values (with_field (c_str field) (copy_string value) old) in
    if is_some (old (c_str field)) then [] else (field, value) ∷ rest

abbrev pub same_length {ℓ} : {A : Type ℓ} → List A → List A → Bool
same_length [] [] = true
same_length (_ ∷ xs) (_ ∷ ys) = same_length xs ys
same_length _ _ = false

module _ (F : StringHashtable Bytes) where
  abbrev pub fields_of : F.Table → Bytes → Option Bytes
  fields_of ft f = F.get f ft

  -- On a new record the first value of a field stays.
  pub get-fill :
      (values : List KvPair) (f : Bytes) (ft : F.Table)
      → F.get f (fill F values ft) ≡ or_else (F.get f ft) (first f values)
  unfolding fill first
  get-fill [] f ft = ground arith
  get-fill ((field, value) ∷ values) f ft =
      let ft' = (F.insert (some (c_str field)) (copy_string value) ft).1 in
      ground (arith, get-fill values f ft', F.get-insert (c_str field) f (copy_string value) ft)

  -- On a record that is there the last value of a field stays.
  pub get-overwrite :
      (values : List KvPair) (f : Bytes) (ft : F.Table)
      → F.get f (overwrite F values ft) ≡ or_else (latest f values) (F.get f ft)
  unfolding overwrite latest
  get-overwrite [] f ft = refl
  get-overwrite ((field, value) ∷ values) f ft =
      let k = c_str field in
      let v = copy_string value in
      let ft' = (F.update k v ft).1 in
      let ft'' = (F.insert (some k) v ft').1 in
      ground (
        arith,
        get-overwrite values f ft',
        get-overwrite values f ft'',
        F.update_result k v ft,
        F.get-update k f v ft,
        F.get-insert k f v ft',
        F.get-update k k v ft,
        str_eq_iff k f,
      )

  pub insert_fields-get :
      (values : List KvPair) (f : Bytes) (ft : F.Table)
      → F.get f (insert_fields F values ft).1
        ≡ or_else (F.get f ft) (first f (accepted values (fields_of ft)))
  unfolding insert_fields first accepted
  insert_fields-get [] f ft = ground arith
  insert_fields-get ((field, value) ∷ values) f ft =
      let k = c_str field in
      let v = copy_string value in
      let ft' = (F.insert (some k) v ft).1 in
      let same : fields_of ft' ≡ with_field k v (fields_of ft) =
        fun_ext (λ q. F.get-insert k q v ft) in
      let rest : first f (accepted values (fields_of ft'))
          ≡ first f (accepted values (with_field k v (fields_of ft))) =
        ap (λ o. first f (accepted values o)) same in
      ground (
        arith,
        insert_fields-get values f ft',
        rest,
        F.insert_result k v ft,
        F.get-insert k f v ft,
        str_eq_iff k f,
      )

  -- The code of an insertion: a conflict exactly when a pair was not taken.
  pub insert_fields_code :
      (values : List KvPair) (ft : F.Table)
      → (insert_fields F values ft).0
        ≡ (if same_length (accepted values (fields_of ft)) values then ok else conflict)
  unfolding insert_fields accepted
  insert_fields_code [] ft = refl
  insert_fields_code ((field, value) ∷ values) ft =
      let k = c_str field in
      let v = copy_string value in
      let ft' = (F.insert (some k) v ft).1 in
      let same : fields_of ft' ≡ with_field k v (fields_of ft) =
        fun_ext (λ q. F.get-insert k q v ft) in
      let rest = ap (λ o. same_length (accepted values o) values) same in
      ground (arith, insert_fields_code values ft', rest, F.insert_result k v ft)

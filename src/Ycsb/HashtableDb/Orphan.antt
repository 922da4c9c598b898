-- ===== src/Ycsb/HashtableDb/Orphan.antt =====
-- Insert of workloads/YCSB-C/db/hashtable_db.cc by many threads, for records of one index. The table of
-- records holds pointers to tables of fields; a call of a table is one step.
pub mod Lost
use ltram_policy_bench.Prelude.{
  ℕ, ◌≡◌, List, [], ◌∷◌, ◌++◌, Bool, true, false, Option, none, some, if◌then◌else◌, ◌==◌,
}
use ltram_policy_bench.Ycsb.Text.{Bytes, c_str}
use ltram_policy_bench.Ycsb.Db.{DbCode, ok, conflict, KvPair}
use ltram_policy_bench.Ycsb.StringHashtable.{StringHashtable}
use ltram_policy_bench.Ycsb.HashtableDb.{copy_string}

-- Where a call stands, with the pairs that are left: before Get, after a Get that returned NULL, in
-- the loop with its `field_table`, or returned.
pub data Pc : Type 0 where
  looking : List KvPair → Pc
  making : List KvPair → Pc
  filling : ℕ → List KvPair → Pc
  done : DbCode → Pc

module _ (F : StringHashtable Bytes) (K : StringHashtable ℕ) (index : Bytes) where
  -- The table of records, and the table of fields at each address.
  pub record Shared : Type 0 where
    pub keys : K.Table
    pub tables : ℕ → Option F.Table

  unfoldable pub set_table : (ℕ → Option F.Table) → ℕ → F.Table → ℕ → Option F.Table
  set_table tables p ft q = if p == q then some ft else tables q

  -- One step of one call. NewFieldHashtable may return any address without a table; what the Insert
  -- into the table of records returns is ignored.
  pub data Move : Shared → Pc → Shared → Pc → Type 0 where
    finds :
        (s : Shared) (values : List KvPair) (p : ℕ)
        → K.get index s.keys ≡ some p
        → Move s (looking values) s (filling p values)
    misses :
        (s : Shared) (values : List KvPair)
        → K.get index s.keys ≡ none
        → Move s (looking values) s (making values)
    makes :
        (s : Shared) (values : List KvPair) (p : ℕ)
        → s.tables p ≡ none
        → Move s
            (making values)
            (record {
              keys = (K.insert (some index) p s.keys).1;
              tables = set_table s.tables p F.new;
            })
            (filling p values)
    fills :
        (s : Shared) (field value : Bytes) (values : List KvPair) (p : ℕ) (ft ft' : F.Table)
        → s.tables p ≡ some ft
        → F.insert (some (c_str field)) (copy_string value) ft ≡ (true, ft')
        → Move s
            (filling p ((field, value) ∷ values))
            (record s { tables = set_table s.tables p ft' })
            (filling p values)
    clashes :
        (s : Shared) (field value : Bytes) (values : List KvPair) (p : ℕ) (ft ft' : F.Table)
        → s.tables p ≡ some ft
        → F.insert (some (c_str field)) (copy_string value) ft ≡ (false, ft')
        → Move s
            (filling p ((field, value) ∷ values))
            (record s { tables = set_table s.tables p ft' })
            (done conflict)
    returns : (s : Shared) (p : ℕ) → Move s (filling p []) s (done ok)

  pub record Sys : Type 0 where
    pub shared : Shared
    pub threads : List Pc

  pub data Step : Sys → Sys → Type 0 where
    moves :
        (before after : List Pc) (s s' : Shared) (x y : Pc)
        → Move s x s' y
        → Step
            (record { shared = s; threads = before ++ x ∷ after })
            (record { shared = s'; threads = before ++ y ∷ after })

  pub data Reach (s : Sys) : Sys → Type 0 where
    here : Reach s s
    next : {t u : Sys} → Reach s t → Step t u → Reach s u

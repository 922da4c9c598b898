-- ===== src/Ycsb/HashtableDb/Race.antt =====
-- Read, Update and Insert of workloads/YCSB-C/db/hashtable_db.cc on one record by many threads. The
-- table of the record's fields holds pointers to strings, which CopyString and DeleteString of
-- workloads/YCSB-C/db/lock_stl_db.h allocate and free; a call of the table is one step, and so is an
-- allocation, a copy and a release. Steps that change nothing are left out.
pub mod Owned
pub mod Freed
use ltram_policy_bench.Prelude.{
  ℕ, ◌+◌, ◌≡◌, List, [], ◌∷◌, ◌++◌, Bool, true, false, Option, none, some, if◌then◌else◌, ◌==◌,
}
use ltram_policy_bench.Ycsb.Text.{Bytes, c_str}
use ltram_policy_bench.Ycsb.StringHashtable.{StringHashtable}
use ltram_policy_bench.Ycsb.HashtableDb.{copy_string}

-- The string at each address; none where there is no live one.
abbrev pub Heap : Type 0
Heap = ℕ → Option Bytes

unfoldable pub write : Heap → ℕ → Option Bytes → Heap
write heap p string q = if p == q then string else heap q

-- Where a thread stands with one field: about to copy the string that Get returned; with a new string
-- about to call Update, about to call Insert since Update returned NULL, or about to call Insert;
-- about to free a string.
pub data Pc : Type 0 where
  idle : Pc
  reading : ℕ → Pc
  updating : Bytes → ℕ → Pc
  missed : Bytes → ℕ → Pc
  inserting : Bytes → ℕ → Pc
  freeing : ℕ → Pc

module _ (F : StringHashtable ℕ) where
  pub record Shared : Type 0 where
    pub table : F.Table
    pub heap : Heap

  -- One step of one thread. The allocator may return any address without a live string.
  pub data Move : Shared → Pc → Shared → Pc → Type 0 where
    gets :
        (s : Shared) (field : Bytes) (p : ℕ)
        → F.get (c_str field) s.table ≡ some p
        → Move s idle s (reading p)
    copies :
        (s : Shared) (p : ℕ) (value : Bytes) → s.heap p ≡ some value → Move s (reading p) s idle
    copies_to_update :
        (s : Shared) (field value : Bytes) (p : ℕ)
        → s.heap p ≡ none
        → Move s idle
            (record s { heap = write s.heap p (some (copy_string value)) })
            (updating field p)
    copies_to_insert :
        (s : Shared) (field value : Bytes) (p : ℕ)
        → s.heap p ≡ none
        → Move s idle
            (record s { heap = write s.heap p (some (copy_string value)) })
            (inserting field p)
    replaces :
        (s : Shared) (field : Bytes) (p old : ℕ) (table : F.Table)
        → F.update (c_str field) p s.table ≡ (some old, table)
        → Move s (updating field p) (record s { table = table }) (freeing old)
    misses :
        (s : Shared) (field : Bytes) (p : ℕ) (table : F.Table)
        → F.update (c_str field) p s.table ≡ (none, table)
        → Move s (updating field p) (record s { table = table }) (missed field p)
    adds :
        (s : Shared) (field : Bytes) (p : ℕ)
        → Move s
            (missed field p)
            (record s { table = (F.insert (some (c_str field)) p s.table).1 })
            idle
    inserts :
        (s : Shared) (field : Bytes) (p : ℕ) (table : F.Table)
        → F.insert (some (c_str field)) p s.table ≡ (true, table)
        → Move s (inserting field p) (record s { table = table }) idle
    refuses :
        (s : Shared) (field : Bytes) (p : ℕ) (table : F.Table)
        → F.insert (some (c_str field)) p s.table ≡ (false, table)
        → Move s (inserting field p) (record s { table = table }) (freeing p)
    frees : (s : Shared) (p : ℕ) → Move s (freeing p) (record s { heap = write s.heap p none }) idle

  pub record Sys : Type 0 where
    pub shared : Shared
    pub threads : List Pc

  pub data Step : Sys → Sys → Type 0 where
    moves :
        (before after : List Pc) (s s' : Shared) (x y : Pc)
        → Move s x s' y
        → Step
            (record { shared = s; threads = before ++ x ∷ after })
            (record { shared = s'; threads = before ++ y ∷ after })

  pub data Reach (s : Sys) : Sys → Type 0 where
    here : Reach s s
    next : {t u : Sys} → Reach s t → Step t u → Reach s u

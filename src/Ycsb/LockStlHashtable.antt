-- ===== src/Ycsb/LockStlHashtable.antt =====
-- workloads/YCSB-C/lib/lock_stl_hashtable.h: the table behind one mutex, called by many threads. A
-- call is split where it could be interrupted: it takes the mutex, looks for its position, acts at
-- that position, and gives the mutex back.
pub mod Linear
use ltram_policy_bench.Prelude.{ℕ, List, [], ◌∷◌, ◌++◌, Bool, true, false, Option, none, some}
use ltram_policy_bench.Ycsb.Text.{Bytes}
use ltram_policy_bench.Ycsb.HashString.{HashString, copy, wrap}
use ltram_policy_bench.Ycsb.StlHashtable
use ltram_policy_bench.Ycsb.StlHashtable.{
  StlHashtable, find, collect, second, insert_at, update_at, remove_at,
}

-- The calls and what they return.
pub data Op (V : Type 0) : Type 0 where
  get : Bytes → Op V
  insert : Option Bytes → V → Op V
  update : Bytes → V → Op V
  remove : Bytes → Op V
  entries : Option Bytes → ℕ → Op V
  size : Op V

pub data Reply (V : Type 0) : Type 0 where
  flag : Bool → Reply V
  value : Option V → Reply V
  pairs : List (Bytes × V) → Reply V
  number : ℕ → Reply V

module _ {V : Type 0} where
  -- The method of the table without a lock.
  unfoldable pub method : Op V → StlHashtable V → Reply V × StlHashtable V
  method (get k) t = (value (StlHashtable.get k t), t)
  method (insert k v) t = let (b, t') = StlHashtable.insert k v t in (flag b, t')
  method (update k v) t = let (old, t') = StlHashtable.update k v t in (value old, t')
  method (remove k) t = let (old, t') = StlHashtable.remove k t in (value old, t')
  method (entries k n) t = (pairs (StlHashtable.entries k n t), t)
  method size t = (number (StlHashtable.size t), t)

  -- Its first half, which only reads, and its second half.
  unfoldable pub position : Op V → StlHashtable V → List (HashString × V)
  position (get k) t = find (wrap k) t.table
  position (insert none v) t = []
  position (insert (some k) v) t = find (copy k) t.table
  position (update k v) t = find (wrap k) t.table
  position (remove k) t = find (wrap k) t.table
  position (entries none n) t = t.table
  position (entries (some k) n) t = find (wrap k) t.table
  position size t = []

  unfoldable pub act : Op V → List (HashString × V) → StlHashtable V → Reply V × StlHashtable V
  act (get k) pos t = (value (second pos), t)
  act (insert none v) pos t = (flag false, t)
  act (insert (some k) v) pos t = let (b, t') = insert_at pos (copy k) v t in (flag b, t')
  act (update k v) pos t = let (old, t') = update_at pos (wrap k) v t in (value old, t')
  act (remove k) pos t = let (old, t') = remove_at pos (wrap k) t in (value old, t')
  act (entries k n) pos t = (pairs (collect n pos), t)
  act size pos t = (number (StlHashtable.size t), t)

-- Where a call stands: before the mutex, with the mutex, with its position, with its reply, and
-- after it gave the mutex back.
pub data Pc (V : Type 0) : Type 0 where
  waiting : Op V → Pc V
  holding : Op V → Pc V
  at : Op V → List (HashString × V) → Pc V
  acted : Op V → Reply V → Pc V
  done : Op V → Reply V → Pc V

-- The table, the mutex, the calls, and a record of the calls that acted, in their order.
pub record Sys (V : Type 0) : Type 0 where
  pub table : StlHashtable V
  pub locked : Bool
  pub calls : List (Pc V)
  pub log : List (Op V × Reply V)

module _ {V : Type 0} where
  -- One step of one call, on the table and the mutex, with what it adds to the record.
  pub data Move
      : StlHashtable V
        → Bool
        → Pc V
        → StlHashtable V
        → Bool
        → Pc V
        → List (Op V × Reply V)
        → Type 0 where
    lock : (t : StlHashtable V) (op : Op V) → Move t false (waiting op) t true (holding op) []
    look :
        (t : StlHashtable V) (b : Bool) (op : Op V)
        → Move t b (holding op) t b (at op (position op t)) []
    change :
        (t : StlHashtable V) (b : Bool) (op : Op V) (pos : List (HashString × V))
        → Move t b
            (at op pos)
            (act op pos t).1
            b
            (acted op (act op pos t).0)
            ((op, (act op pos t).0) ∷ [])
    unlock :
        (t : StlHashtable V) (b : Bool) (op : Op V) (r : Reply V)
        → Move t b (acted op r) t false (done op r) []

  -- A new call, or a step of one of the calls.
  pub data Step : Sys V → Sys V → Type 0 where
    call : (s : Sys V) (op : Op V) → Step s (record s { calls = waiting op ∷ s.calls })
    thread :
        (before after : List (Pc V)) (log : List (Op V × Reply V)) {t t' : StlHashtable V}
        {b b' : Bool} {p p' : Pc V} {more : List (Op V × Reply V)}
        → Move t b p t' b' p' more
        → Step
            (record { table = t; locked = b; calls = before ++ p ∷ after; log = log })
            (record { table = t'; locked = b'; calls = before ++ p' ∷ after; log = log ++ more })

  pub data Reach (s : Sys V) : Sys V → Type 0 where
    here : Reach s s
    next : {t u : Sys V} → Reach s t → Step t u → Reach s u

  abbrev pub started : StlHashtable V → Sys V
  started t = record { table = t; locked = false; calls = []; log = [] }

-- ===== src/Ycsb/TbbLocks.antt =====
-- The locks of workloads/YCSB-C/lib/tbb_rand_hashtable.h and tbb_scan_hashtable.h: which operation
-- takes the queuing_rw_mutex of the table and how, and the calls of many threads. The map of TBB
-- orders the operations that may run at the same time; these locks keep the others apart.
pub mod Alone
pub mod Exclusive
use ltram_policy_bench.Prelude.{
  ℕ, zero, suc, ◌+◌, ◌≡◌, List, [], ◌∷◌, ◌++◌, Bool, true, false, Option, none, some,
}
use ltram_policy_bench.Ycsb.Text.{Bytes}
use ltram_policy_bench.Ycsb.LockStlHashtable.{Op, get, insert, update, remove, entries, size}

-- `scoped_lock lock(mutex_)`, `scoped_lock lock(mutex_, false)`, and no lock.
pub data Mode : Type 0 where
  exclusive shared unlocked : Mode

-- An insertion of NULL returns before the lock.
unfoldable pub rand_mode : {V : Type 0} → Op V → Mode
rand_mode (get k) = shared
rand_mode (insert none v) = unlocked
rand_mode (insert (some k) v) = shared
rand_mode (update k v) = shared
rand_mode (remove k) = shared
rand_mode (entries k n) = exclusive
rand_mode size = unlocked

unfoldable pub scan_mode : {V : Type 0} → Op V → Mode
scan_mode (get k) = shared
scan_mode (insert none v) = unlocked
scan_mode (insert (some k) v) = shared
scan_mode (update k v) = exclusive
scan_mode (remove k) = exclusive
scan_mode (entries k n) = shared
scan_mode size = unlocked

-- queuing_rw_mutex: a writer gets it while nobody has it, and a reader while no writer has it.
pub record RwMutex : Type 1 where
  pub State : Type 0
  pub free : State
  pub Acquire : Bool → State → State → Type 0
  pub Release : Bool → State → State → Type 0
  pub writers : State → ℕ
  pub readers : State → ℕ
  pub nobody : (writers free ≡ 0) × (readers free ≡ 0)
  pub write :
      {l l' : State}
      → Acquire true l l'
      → (writers l ≡ 0) × (readers l ≡ 0) × (writers l' ≡ 1) × (readers l' ≡ 0)
  pub read :
      {l l' : State}
      → Acquire false l l'
      → (writers l ≡ 0) × (writers l' ≡ 0) × (readers l' ≡ readers l + 1)
  pub write_end :
      {l l' : State} → Release true l l' → (writers l ≡ writers l' + 1) × (readers l' ≡ readers l)
  pub read_end :
      {l l' : State} → Release false l l' → (writers l' ≡ writers l) × (readers l ≡ readers l' + 1)

-- A call before its lock, between its lock and the end of the block, and after it.
pub data Pc (V : Type 0) : Type 0 where
  waiting inside finished : Op V → Pc V

module _ {V : Type 0} (mode : Op V → Mode) (mutex : RwMutex) where
  pub data Move : mutex.State → Pc V → mutex.State → Pc V → Type 0 where
    lock :
        {l l' : mutex.State} (op : Op V)
        → mode op ≡ exclusive
        → mutex.Acquire true l l'
        → Move l (waiting op) l' (inside op)
    lock_shared :
        {l l' : mutex.State} (op : Op V)
        → mode op ≡ shared
        → mutex.Acquire false l l'
        → Move l (waiting op) l' (inside op)
    unlock :
        {l l' : mutex.State} (op : Op V)
        → mode op ≡ exclusive
        → mutex.Release true l l'
        → Move l (inside op) l' (finished op)
    unlock_shared :
        {l l' : mutex.State} (op : Op V)
        → mode op ≡ shared
        → mutex.Release false l l'
        → Move l (inside op) l' (finished op)
    enter : (l : mutex.State) (op : Op V) → mode op ≡ unlocked → Move l (waiting op) l (inside op)
    leave : (l : mutex.State) (op : Op V) → mode op ≡ unlocked → Move l (inside op) l (finished op)

  pub record Sys : Type 0 where
    pub lock : mutex.State
    pub calls : List (Pc V)

  pub data Step : Sys → Sys → Type 0 where
    call : (s : Sys) (op : Op V) → Step s (record s { calls = waiting op ∷ s.calls })
    thread :
        (before after : List (Pc V)) {l l' : mutex.State} {p p' : Pc V}
        → Move l p l' p'
        → Step
            (record { lock = l; calls = before ++ p ∷ after })
            (record { lock = l'; calls = before ++ p' ∷ after })

  pub data Reach : Sys → Type 0 where
    start : Reach (record { lock = mutex.free; calls = [] })
    next : {s t : Sys} → Reach s → Step s t → Reach t

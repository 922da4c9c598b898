-- ===== src/Ycsb/Clients.antt =====
-- `main` of workloads/YCSB-C/ycsbc.cc with the calls of its threads: the clients of core/client.h share
-- one database and one workload. A thread draws its operation and its key in one step, and makes one
-- call of the database in a step, with the values that this call needs; between these steps the other
-- threads take theirs.
pub mod Sum
pub mod Alone
pub mod Bound
pub mod Progress
pub mod Ends
pub mod Puts
pub mod Kept
pub mod Loading
pub mod Read
pub mod FromInit
use ltram_policy_bench.Prelude.{
  ℕ, zero, suc, ◌+◌, ◌≡◌, List, [], ◌∷◌, ◌++◌, Bool, true, false, Option, none, some, if◌then◌else◌,
}
use ltram_policy_bench.Prelude.Int.{ℤ, rounds}
use ltram_policy_bench.Ycsb.Text.{Bytes}
use ltram_policy_bench.Ycsb.Threads.{ops_each}
use ltram_policy_bench.Ycsb.Workload.{
  Operation, Choosers, Settings, Workload, next_sequence_key, next_transaction_key, build_values,
}
use ltram_policy_bench.Ycsb.Client.{
  Db, World, is_ok, asked_fields, new_values, transaction_read, transaction_scan,
  transaction_update,
}

-- The call that a thread is in, with its key: `TransactionInsert` and `DoInsert` before the record is
-- put, a read, an update and a scan, and the two parts of a read-modify-write.
pub data Call : Type 0 where
  putting : Bytes → Call
  reading : Bytes → Call
  updating : Bytes → Call
  scanning : Bytes → Call
  modifying : Bytes → Call
  writing : Bytes → Call

-- One thread in `DelegateClient`: the rounds that are left, the calls that returned true, and the one
-- that it is in.
pub record Caller : Type 0 where
  pub left : ℕ
  pub oks : ℕ
  pub call : Option Call

-- What one step of a call leads to.
pub data Turn : Type 0 where
  returned : Bool → Turn
  goes_on : Call → Turn

unfoldable pub call_threads : ℕ → ℕ → List Caller
call_threads zero num_ops = []
call_threads (suc n) num_ops =
    record { left = num_ops; oks = 0; call = none } ∷ call_threads n num_ops

-- The threads that `main` starts, each with `total_ops / num_threads` operations.
abbrev pub callers_of : ℤ → ℤ → List Caller
callers_of total_ops num_threads =
    call_threads (rounds num_threads) (ops_each total_ops num_threads)

-- The sum of what the threads return.
unfoldable pub sum_oks : List Caller → ℕ
sum_oks [] = 0
sum_oks (x ∷ xs) = x.oks + sum_oks xs

module _ (d : Db) (c : Choosers) where
  abbrev pub with_key : (Bytes → Call) → Option (Bytes × Workload c) → Option (Call × Workload c)
  with_key call none = none
  with_key call (some (key, s)) = some (call key, s)

  abbrev pub begin : ℕ → Settings → Operation → Workload c → Option (Call × Workload c)
  begin fuel w Operation.read s = with_key reading (next_transaction_key c fuel w s)
  begin fuel w Operation.update s = with_key updating (next_transaction_key c fuel w s)
  begin fuel w Operation.insert s = with_key putting (some (next_sequence_key c w s))
  begin fuel w Operation.scan s = with_key scanning (next_transaction_key c fuel w s)
  begin fuel w Operation.read_modify_write s = with_key modifying (next_transaction_key c fuel w s)

  -- The start of `DoInsert`, or of `DoTransaction` where the thread does not load; `none` says that
  -- the fuel of the loop that draws a transaction key was not enough.
  unfoldable pub start : Bool → ℕ → Settings → Workload c → Option (Call × Workload c)
  start true fuel w s = with_key putting (some (next_sequence_key c w s))
  start false fuel w s =
      let (operation, choosers) = c.next_operation s.choosers in
      begin fuel w operation (record s { choosers = choosers })

  -- A call up to and with its next call of the database.
  unfoldable pub run : Settings → Call → World d c → Turn × World d c
  run w (putting key) s =
      let (values, wl) = build_values c w s.workload in
      let (code, db) = d.insert w.table_name key values s.db in
      (returned (is_ok d c code), record { db = db; workload = wl })
  run w (reading key) s =
      let (code, s') = transaction_read d c w key s in (returned (is_ok d c code), s')
  run w (updating key) s =
      let (code, s') = transaction_update d c w key s in (returned (is_ok d c code), s')
  run w (scanning key) s =
      let (code, s') = transaction_scan d c w key s in (returned (is_ok d c code), s')
  run w (modifying key) s =
      let (ignored, s') = transaction_read d c w key s in (goes_on (writing key), s')
  run w (writing key) s =
      let (code, s') = transaction_update d c w key s in (returned (is_ok d c code), s')

  -- The threads, with what they share.
  pub record Sys : Type 0 where
    pub world : World d c
    pub callers : List Caller

  -- One step of one thread. The Boolean is `is_loading`.
  pub data Step (loading : Bool) (fuel : ℕ) (w : Settings) : Sys → Sys → Type 0 where
    starts :
        (before after : List Caller) (left oks : ℕ) (s : World d c) (call : Call) (wl : Workload c)
        → start loading fuel w s.workload ≡ some (call, wl)
        → Step loading fuel w
            (record {
              world = s;
              callers = before ++ record { left = suc left; oks = oks; call = none } ∷ after;
            })
            (record {
              world = record s { workload = wl };
              callers = before ++ record { left = left; oks = oks; call = some call } ∷ after;
            })
    ends :
        (before after : List Caller) (left oks : ℕ) (s s' : World d c) (call : Call) (done : Bool)
        → run w call s ≡ (returned done, s')
        → Step loading fuel w
            (record {
              world = s;
              callers = before ++ record { left = left; oks = oks; call = some call } ∷ after;
            })
            (record {
              world = s';
              callers =
                  before
                  ++ record { left = left; oks = oks + (if done then 1 else 0); call = none }
                    ∷ after;
            })
    continues :
        (before after : List Caller) (left oks : ℕ) (s s' : World d c) (call later : Call)
        → run w call s ≡ (goes_on later, s')
        → Step loading fuel w
            (record {
              world = s;
              callers = before ++ record { left = left; oks = oks; call = some call } ∷ after;
            })
            (record {
              world = s';
              callers = before ++ record { left = left; oks = oks; call = some later } ∷ after;
            })

  pub data Reach (loading : Bool) (fuel : ℕ) (w : Settings) (s : Sys) : Sys → Type 0 where
    here : Reach loading fuel w s s
    next :
        {t u : Sys} → Reach loading fuel w s t → Step loading fuel w t u → Reach loading fuel w s u

-- Each thread has made its calls.
abbrev pub AllDone : List Caller → Type 0
AllDone [] = Unit
AllDone (x ∷ xs) = (x.left ≡ 0) × (x.call ≡ none) × AllDone xs

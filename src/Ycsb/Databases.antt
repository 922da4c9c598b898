-- ===== src/Ycsb/Databases.antt =====
-- The databases of workloads/YCSB-C/db/lock_stl_db.h, tbb_rand_db.h and tbb_scan_db.h: which tables
-- each of them makes for its fields and for its records.
use ltram_policy_bench.Ycsb.Text.{Bytes}
use ltram_policy_bench.Ycsb.StringHashtable.{StringHashtable}
use ltram_policy_bench.Ycsb.StlHashtable.Laws.{stl_hashtable}
use ltram_policy_bench.Ycsb.Tbb.{ConcurrentMap}
use ltram_policy_bench.Ycsb.TbbRandHashtable.Laws.{tbb_rand}
use ltram_policy_bench.Ycsb.TbbScanHashtable.Laws.{tbb_scan}

pub record Tables : Type 1 where
  pub fields : StringHashtable Bytes
  pub keys : StringHashtable fields.Table

-- Without its mutex, which orders the calls, the table of LockStlDB is the one over unordered_map.
unfoldable pub lock_stl_db : Tables
lock_stl_db = record {
  fields = stl_hashtable Bytes;
  keys = stl_hashtable (stl_hashtable Bytes).Table;
}

unfoldable pub tbb_rand_db :
    (fields : ConcurrentMap Bytes) → ConcurrentMap (tbb_rand fields).Table → Tables
tbb_rand_db fields keys = record { fields = tbb_rand fields; keys = tbb_rand keys }

unfoldable pub tbb_scan_db :
    (fields : ConcurrentMap Bytes) → ConcurrentMap (tbb_scan fields).Table → Tables
tbb_scan_db fields keys = record { fields = tbb_scan fields; keys = tbb_scan keys }

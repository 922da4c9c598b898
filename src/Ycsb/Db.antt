-- ===== src/Ycsb/Db.antt =====
-- workloads/YCSB-C/core/db.h: the result codes and the key-value pairs of a database.
use ltram_policy_bench.Ycsb.Text.{Bytes}

-- kOK, kErrorNoData, kErrorConflict
pub data DbCode : Type 0 where
  ok no_data conflict : DbCode

abbrev pub KvPair : Type 0
KvPair = Bytes × Bytes

-- ===== src/Ycsb.antt =====
-- workloads/YCSB-C: the key-value benchmark that the page policies are measured with.
pub mod Text
pub mod Split
pub mod HashString
pub mod StringHashtable
pub mod StlHashtable
pub mod LockStlHashtable
pub mod Db
pub mod HashtableDb
pub mod Redis
pub mod Env
pub mod Zipfian
pub mod Utils
pub mod Build
pub mod Generators
pub mod Workload
pub mod Client
pub mod Clients
pub mod Properties
pub mod CommandLine
pub mod Threads
pub mod Timer
pub mod Tbb
pub mod TbbRandHashtable
pub mod TbbScanHashtable
pub mod TbbLocks
pub mod DbFactory
pub mod Main
pub mod BasicDb
pub mod Databases

-- ===== src/Lib.antt =====
-- The policy bench for LtRAM, a read-mostly memory zone: the kernel module that moves a written page
-- out of the zone (ltram_module), and the workloads that are run on it, of which the largest is the
-- key-value benchmark YCSB-C (workloads/YCSB-C).
--
-- How the parts interact. The fault handler asks the kernel for the zone of a page, has the kernel
-- migrate it, and counts what came of it; the smoke tests allocate from the zone and check where the
-- folios landed. In the benchmark a client asks its workload for an operation, a key and values, and
-- calls a database with them; the workload draws numbers from generators; the databases are hash
-- tables of hash tables in memory, or a Redis server.
--
-- Which file models what.
--   Prelude: shared names, Boolean tests, native lists, integers and 64-bit words.
--   Kernel: the Linux functions that ltram_module calls, as a parameter. Their laws are stated where
--     they are used: RefCount in Smoke/Leaks.
--   Ltram: ltram_page_mkwrite and ltram_stats of ltram_module/ltram.c. Ltram/Accounting is about calls
--     in a row, Ltram/Cpus splits a call into its atomic steps and interleaves calls.
--   Smoke: ltram_module/ltram_smoketest.c, each test a do block over the kernel's state. Smoke/Outcomes
--     has the three ends of a test: it passes, an EXPECT fails, or it stores through NULL.
--   Ycsb/Text, Ycsb/Split, Ycsb/HashString: C strings, and String of lib/string.h with its SDBM hash.
--   Ycsb/StringHashtable: the interface of lib/string_hashtable.h with its laws, which a database takes
--     as a parameter and Ycsb/StlHashtable (lib/stl_hashtable.h) fills.
--   Ycsb/LockStlHashtable: lib/lock_stl_hashtable.h, with each call split into the steps between which
--     other threads run.
--   Ycsb/Tbb, Ycsb/TbbRandHashtable, Ycsb/TbbScanHashtable: the maps of the TBB library as a parameter,
--     and lib/tbb_rand_hashtable.h and lib/tbb_scan_hashtable.h over them, which fill the interface too.
--     Ycsb/TbbLocks has their locks.
--   Ycsb/Db, Ycsb/HashtableDb: the codes of core/db.h, and the operations of db/hashtable_db.cc.
--     Ycsb/HashtableDb/Strings counts the value strings; Ycsb/HashtableDb/Race has the threads that use
--     one record, and Ycsb/HashtableDb/Orphan those that insert one; and Ycsb/Databases has db/lock_stl_db.h,
--     db/tbb_rand_db.h and db/tbb_scan_db.h.
--   Ycsb/Redis: redis/redis_client.h and db/redis_db.cc over a parameter for hiredis, whose documented
--     behaviour Ycsb/Redis/Server states; Ycsb/Redis/Sample is redis/sample.cc.
--   Ycsb/Env: the C++ library under the generators: double and the random sources, as a parameter with
--     no laws.
--   Ycsb/Zipfian, Ycsb/Generators, Ycsb/Utils: the generators and the hash of core/.
--   Ycsb/Workload: the keys, fields and values of core/core_workload.{h,cc}. Ycsb/Workload/Init is its
--     Init, with the names of the properties in Ycsb/Workload/Names, and Ycsb/Workload/Draws the draws
--     from the generators that Init made; Ycsb/Build has C++ code that
--     throws, and Ycsb/Generators/Virtual the generators behind the interface of core/generator.h.
--   Ycsb/Client: the transactions of core/client.h and the loop of DelegateClient in ycsbc.cc;
--     Ycsb/Client/Loaded and Ycsb/Client/Kept put a client on a hash-table database.
--   Ycsb/Properties, Ycsb/CommandLine: core/properties.h with Trim of core/utils.h, and the command line
--     of ycsbc.cc.
--   Ycsb/DbFactory, Ycsb/BasicDb: db/db_factory.cc, and db/basic_db.h with the text that it prints.
--   Ycsb/Clients: the calls of the threads of ycsbc.cc, interleaved.
--   Ycsb/Timer: core/timer.h.
--   Ycsb/Main: `main` of ycsbc.cc up to the threads that load; Ycsb/Main/Run from them on.
--   Ycsb/Threads: the key numbers that these threads draw while they load.
--   Matmul: the loops of workloads/matmul/matrix_multiply.c. Matmul/Numa has its arrays on NUMA nodes.
--   RwStress: workloads/rwstress/ltram_rw_stress.c over a parameter for the system calls, whose manual
--     RwStress/Documented states.
--   Tests: small kernels, tables and generators, and each theorem at a concrete input.
--
-- State and steps. A state is a record or a parameter's type, passed on explicitly. An atomic operation
-- is one step, and so is a call under a mutex but in Ycsb/LockStlHashtable and Ycsb/TbbLocks, and a
-- call of the database in Ycsb/Clients. A 64-bit
-- number is a natural number with its wrap-around written out; a signed count is an integer of
-- Prelude/Int.
--
-- Bounds and fuel. Loops over a list or a count are recursion on what is left. The loop that draws a
-- transaction key runs on fuel, since it ends only when a low enough key is drawn. A 64-bit number has
-- at most 20 digits, which is the bound in Ycsb/Utils.
--
-- Not modelled. Printing other than that of BasicDB, and debugfs; allocation failures in C++; the
-- freeing of tables; Delete while another thread uses the record; hiredis and TBB, which are other
-- projects' libraries.
mod Prelude
pub mod Kernel
pub mod Ltram
pub mod Smoke
pub mod Ycsb
pub mod Matmul
pub mod RwStress
mod Tests

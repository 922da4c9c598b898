-- ===== src/Ycsb/Main.antt =====
-- `main` of workloads/YCSB-C/ycsbc.cc, up to the threads that load the records. What these threads
-- do, and what comes after, is in Ycsb/Threads, Ycsb/Clients and Ycsb/Main/Run.
pub mod Start
pub mod Unnamed
pub mod Run
use ltram_policy_bench.Prelude.{List, [], ◌∷◌, Bool, Option, none, some}
use ltram_policy_bench.Prelude.Int.{ℤ}
use ltram_policy_bench.Ycsb.Text.{Bytes}
use ltram_policy_bench.Ycsb.Env.{Env}
use ltram_policy_bench.Ycsb.Build.{Build, pure, throw, or_throw, ◌>>=◌}
use ltram_policy_bench.Ycsb.Properties.{Properties, get_property, at, int_at}
use ltram_policy_bench.Ycsb.CommandLine.{
  Parsed, parsed, exited, uncaught, dbname, threadcount, parse_command_line,
}
use ltram_policy_bench.Ycsb.DbFactory.{Database, create_db}
use ltram_policy_bench.Ycsb.Workload.Names.{record_count_property}
use ltram_policy_bench.Ycsb.Workload.Init.{Reader, Core, init}
use ltram_policy_bench.Ycsb.Threads.{Loading, launched}

module _ (e : Env) (rd : Reader e) (contents : Bytes → Option Bytes) (use_tbb : Bool) where
  -- The program calls exit(0), or has its database and its workload and starts its threads.
  pub data Started : Type 0 where
    ended : Started
    loads :
        (ps : Properties) (file_name : Bytes) (db : Database) (wl : Core e rd ps)
        (num_threads total_ops : ℤ) (threads : Loading)
        → Started

  -- From the workload on.
  unfoldable pub with_db : Properties → Bytes → Database → Build e.Source Started
  with_db ps file_name db = do
    wl ← init e rd ps
    num_threads ← or_throw (rd.stoi (get_property threadcount (b'1' ∷ []) ps))
    total_ops ← or_throw (int_at rd.stoi record_count_property ps)
    pure (
        loads ps file_name db wl num_threads total_ops
          (launched wl.key_generator total_ops num_threads))

  -- `if (!db)`: the message names the database by `props["dbname"]`, which throws where no name was
  -- set; otherwise exit(0).
  unfoldable pub with_created : Properties → Bytes → Option Database → Build e.Source Started
  with_created ps file_name none = do name ← or_throw (at dbname ps); pure ended
  with_created ps file_name (some db) = with_db ps file_name db

  -- From the command line on.
  unfoldable pub with_parsed : Parsed → Build e.Source Started
  with_parsed exited = pure ended
  with_parsed uncaught = throw
  with_parsed (parsed file_name ps) = do
    db ← or_throw (create_db rd.stoi use_tbb ps)
    with_created ps file_name db

  -- `argv` without the name of the program.
  unfoldable pub main : List Bytes → Build e.Source Started
  main argv = with_parsed (parse_command_line contents argv [])

-- ===== src/Ycsb/Main/Start.antt =====
-- How `main` of workloads/YCSB-C/ycsbc.cc starts.
use mathlib.Core.Path.{subst}
use mathlib.Core.List.{Perm}
use ltram_policy_bench.Prelude.{
  ◌+◌, ◌-◌, ◌%◌, ◌<◌, ◌≡◌, refl, sym, ◌∙◌, List, [], ◌∷◌, Bool, Option, none, some, arith, inl, inr,
  Option-cases,
}
use ltram_policy_bench.Prelude.Int.{ℤ, rounds, to_size}
use ltram_policy_bench.Prelude.Words.{u64_mod}
use ltram_policy_bench.Ycsb.Text.{Bytes}
use ltram_policy_bench.Ycsb.Env.{Env}
use ltram_policy_bench.Ycsb.Build.{made}
use ltram_policy_bench.Ycsb.Build.Returned.{after-made, made-eq, or_throw-made}
use ltram_policy_bench.Ycsb.Properties.{Properties, get_property, at, int_at}
use ltram_policy_bench.Ycsb.StringHashtable.{find_pair}
use ltram_policy_bench.Ycsb.CommandLine.{
  Parsed, parsed, exited, uncaught, dbname, threadcount, parse_command_line,
}
use ltram_policy_bench.Ycsb.DbFactory.{Database, create_db}
use ltram_policy_bench.Ycsb.Workload.Names.{record_count_property}
use ltram_policy_bench.Ycsb.Workload.Init.{Reader, Core, init}
use ltram_policy_bench.Ycsb.Workload.Init.Ready.{IsReady, init-IsReady}
use ltram_policy_bench.Ycsb.Threads.{Loading, launched, Reach}
use ltram_policy_bench.Ycsb.Threads.Keys.{all_drawn, all_left, numbers, Reach-numbers}
use ltram_policy_bench.Ycsb.Main.{Started, ended, loads, with_db, with_created, with_parsed, main}

module _ (e : Env) (rd : Reader e) (contents : Bytes → Option Bytes) (use_tbb : Bool) where
  -- What holds of a start: the database is the one that is named, the workload is ready, and the
  -- threads divide the number of records that the workload has.
  abbrev pub IsStarted : Started e rd contents use_tbb → Type 0
  IsStarted ended = Unit
  IsStarted (loads ps file_name db wl num_threads total_ops threads) =
      (create_db rd.stoi use_tbb ps ≡ some (some db))
      × IsReady e rd ps wl
      × (wl.record_count ≡ to_size total_ops)
      × (threads ≡ launched wl.key_generator total_ops num_threads)

  -- A number that is read with `operator[]` is also the one that `GetProperty` gives.
  int_at-get_property :
      (stoi : Bytes → Option ℤ) (key : Bytes) (ps : Properties) {n : ℤ}
      → int_at stoi key ps ≡ some n
      → stoi (get_property key [] ps) ≡ some n
  unfolding int_at at get_property
  int_at-get_property stoi key ps h = elim (Option-cases (find_pair key ps)) [
    | inl e ↦ absurd (ground arith)
    | inr (v, e) ↦ ground arith
  ]

  some-eq : {A : Type 0} {a b : A} → some a ≡ some b → a ≡ b
  some-eq h = ground arith

  with_db-IsStarted :
      (ps : Properties) (file_name : Bytes) (db : Database) (r r' : e.Source)
      (s : Started e rd contents use_tbb)
      → create_db rd.stoi use_tbb ps ≡ some (some db)
      → with_db e rd contents use_tbb ps file_name db r ≡ made (s, r')
      → IsStarted s
  unfolding with_db
  with_db-IsStarted ps file_name db r r' s made_db h =
      let x : Started e rd contents use_tbb × e.Source = (s, r') in
      let (wl, r₁, e₁, h₁) = after-made (init e rd ps r) _ x h in
      let (n, e₂, h₂) =
        or_throw-made (rd.stoi (get_property threadcount (b'1' ∷ []) ps)) _ r₁ x h₁ in
      let (total, e₃, h₃) = or_throw-made (int_at rd.stoi record_count_property ps) _ r₁ x h₂ in
      let ready = init-IsReady e rd ps r r₁ wl e₁ in
      let (count, e₄, e₅) = ready.records in
      let same : count ≡ total =
        some-eq (sym e₄ ∙ int_at-get_property rd.stoi record_count_property ps e₃) in
      subst IsStarted (made-eq h₃)
        (made_db, ready, subst (λ t. wl.record_count ≡ to_size t) same e₅, refl)

  with_created-IsStarted :
      (ps : Properties) (file_name : Bytes) (db : Option Database) (r r' : e.Source)
      (s : Started e rd contents use_tbb)
      → create_db rd.stoi use_tbb ps ≡ some db
      → with_created e rd contents use_tbb ps file_name db r ≡ made (s, r')
      → IsStarted s
  unfolding with_created
  with_created-IsStarted ps file_name none r r' s made_db h =
      let (name, e₁, h₁) = or_throw-made (at dbname ps) _ r (s, r') h in
      subst IsStarted (made-eq h₁) tt
  with_created-IsStarted ps file_name (some db) r r' s made_db h =
      with_db-IsStarted ps file_name db r r' s made_db h

  pub with_parsed-IsStarted :
      (p : Parsed) (r r' : e.Source) (s : Started e rd contents use_tbb)
      → with_parsed e rd contents use_tbb p r ≡ made (s, r')
      → IsStarted s
  unfolding with_parsed
  with_parsed-IsStarted exited r r' s h = subst IsStarted (made-eq h) tt
  with_parsed-IsStarted uncaught r r' s h = absurd (ground arith)
  with_parsed-IsStarted (parsed file_name ps) r r' s h =
      let (db, e₁, h₁) = or_throw-made (create_db rd.stoi use_tbb ps) _ r (s, r') h in
      with_created-IsStarted ps file_name db r r' s e₁ h₁

  -- When `main` goes on to its threads, these share a workload whose record count is the number of
  -- records to load. When they, at least one, have all ended without an error, and the counter has
  -- not wrapped around, the keys that were loaded are, in some order, the numbers from the
  -- workload's first key on, each once: as many as the record count less its remainder by the
  -- number of threads.
  pub main_keys :
      (argv : List Bytes) (r r' : e.Source) (ps : Properties) (file_name : Bytes) (db : Database)
      (wl : Core e rd ps) (num_threads total_ops : ℤ) {threads s : Loading}
      → main e rd contents use_tbb argv r
        ≡ made (loads ps file_name db wl num_threads total_ops threads, r')
      → Reach threads s
      → all_left s.threads ≡ 0
      → 0 < rounds num_threads
      → wl.key_generator + rounds total_ops < u64_mod
      → let n = rounds total_ops in
        (wl.record_count ≡ to_size total_ops)
        × Perm (all_drawn s.threads) (numbers wl.key_generator (n - n % rounds num_threads))
  unfolding main
  main_keys argv r r' ps file_name db wl num_threads total_ops {threads} {s} h reached finished
        some_thread fits =
      let start = loads ps file_name db wl num_threads total_ops threads in
      let (made_db, ready, count, launch) =
        with_parsed-IsStarted (parse_command_line contents argv []) r r' start h in
      (
        count,
        Reach-numbers wl.key_generator total_ops num_threads fits
            (subst (λ t. Reach t s) launch reached) finished some_thread,
      )

-- ===== src/Ycsb/Client/FromInit.antt =====
-- Clients of workloads/YCSB-C/core/client.h over a workload that `Init` of core/core_workload.cc has
-- set up.
use ltram_policy_bench.Prelude.{
  ℕ, zero, ◌≡◌, refl, List, true, some, arith, inl, inr, ◌⊎◌, Bool-cases, Option-cases,
}
use ltram_policy_bench.Prelude.Int.{ℤ, to_size}
use ltram_policy_bench.Prelude.Words.{sub64}
use ltram_policy_bench.Ycsb.Text.{Bytes, str_eq}
use ltram_policy_bench.Ycsb.Env.{Env}
use ltram_policy_bench.Ycsb.Build.{made}
use ltram_policy_bench.Ycsb.Properties.{Properties, get_property}
use ltram_policy_bench.Ycsb.Generators.{counter_last}
use ltram_policy_bench.Ycsb.Generators.Virtual.{Generator, new_uniform}
use ltram_policy_bench.Ycsb.Workload.{Operation}
use ltram_policy_bench.Ycsb.Workload.Keys.{drawn_key}
use ltram_policy_bench.Ycsb.Workload.Names.{
  field_length_distribution_property, field_length_distribution_default, field_length_property,
  field_length_default, scan_length_distribution_property, scan_length_distribution_default,
  uniform_word, constant_word,
}
use ltram_policy_bench.Ycsb.Workload.Init.{
  Reader, Core, Choices, init, field_len_generator, new_scan_len_chooser,
}
use ltram_policy_bench.Ycsb.Workload.Init.Ready.{
  IsBetween, request_distribution, init-IsReady, chooser-uniform,
}
use ltram_policy_bench.Ycsb.Workload.Draws.Steady.{
  Steady, fixed, spread, generator_of, IsCovered, Live, live, choices_of, DrawsAlike, draws-live,
}
use ltram_policy_bench.Ycsb.Client.{Db, World, transact}
use ltram_policy_bench.Ycsb.Client.Returns.{IsReached, transact-some}

module _ (e : Env) (rd : Reader e) (ps : Properties) where
  abbrev pub field_length_distribution : Bytes
  field_length_distribution =
      get_property field_length_distribution_property field_length_distribution_default ps

  abbrev pub scan_length_distribution : Bytes
  scan_length_distribution =
      get_property scan_length_distribution_property scan_length_distribution_default ps

  field_len_generator-Steady :
      (r r' : e.Source) (g : Generator e)
      → field_len_generator e rd ps r ≡ made (g, r')
      → (str_eq field_length_distribution constant_word ≡ true)
        ⊎ (str_eq field_length_distribution uniform_word ≡ true)
      → (t : Steady) × (generator_of e t ≡ g)
  unfolding field_len_generator new_uniform
  field_len_generator-Steady r r' g h kind =
      elim (Bool-cases (str_eq field_length_distribution constant_word)) [
        | inl a ↦
            let len = rd.stoi (get_property field_length_property field_length_default ps) in
            elim (Option-cases len) [
              | inl z ↦ absurd (ground arith)
              | inr (len, z) ↦ (fixed (to_size len), ground arith)
            ]
        | inr a ↦
            let len = rd.stoi (get_property field_length_property field_length_default ps) in
            elim (Option-cases len) [
              | inl z ↦ absurd (ground arith)
              | inr (len, z) ↦
                  (spread 1 (to_size len) (e.uniform_int 1 (to_size len) r).0, ground arith)
            ]
      ]

  new_scan_len_chooser-Steady :
      (n : ℤ) (r r' : e.Source) (g : Generator e)
      → new_scan_len_chooser e rd ps n r ≡ made (g, r')
      → str_eq scan_length_distribution uniform_word ≡ true
      → (t : Steady) × (generator_of e t ≡ g)
  unfolding new_scan_len_chooser new_uniform
  new_scan_len_chooser-Steady n r r' g h kind =
      (spread 1 (to_size n) (e.uniform_int 1 (to_size n) r).0, ground arith)

  choices-eq :
      (k : Choices e rd ps) {g₁ g₂ g₃ g₄ : Generator e}
      → g₁ ≡ k.field_len
      → k.key_chooser ≡ g₂
      → k.field_chooser ≡ g₃
      → g₄ ≡ k.scan_len_chooser
      → record { field_len = g₁; key_chooser = g₂; field_chooser = g₃; scan_len_chooser = g₄ } ≡ k
  choices-eq k e₁ e₂ e₃ e₄ = rw e₁ (rw (← e₂) (rw (← e₃) (rw e₄ refl)))

  -- The first draw of a client is a key that was loaded.
  pub live-IsReached :
      (r r' : e.Source) (c : Core e rd ps) (d : Db) (covered : IsCovered e c.op_chooser)
      → IsBetween e rd ps
      → init e rd ps r ≡ made (c, r')
      → IsReached d (live e (sub64 c.record_count 1) c.op_chooser covered) 1 c.insert_key_sequence
  unfolding drawn_key counter_last
  live-IsReached r r' c d covered between h s =
      let ready = init-IsReady e rd ps r r' c h in
      let low = (between 0 (sub64 c.record_count 1) s.source (omega arith)).1 in
      (zero, omega arith, rw ready.sequence low)

  -- `Init` has set up a workload with a uniform request distribution, uniform scan lengths, and
  -- constant or uniform field lengths; the uniform distribution of the C++ library keeps to its
  -- bounds, and the weighted choice of operations never falls through. Then there is a state of a
  -- client's draws that stands for the generators and the random source as `Init` left them, in which
  -- every draw is the draw of the workload; and from it any number of transactions returns, over any
  -- database, in one round of the loop that draws a key.
  pub init-returns :
      (r r' : e.Source) (c : Core e rd ps) (d : Db) (db : d.State) (n : ℕ)
      (covered : IsCovered e c.op_chooser)
      → IsBetween e rd ps
      → init e rd ps r ≡ made (c, r')
      → str_eq (request_distribution e rd ps) uniform_word ≡ true
      → str_eq scan_length_distribution uniform_word ≡ true
      → (str_eq field_length_distribution constant_word ≡ true)
        ⊎ (str_eq field_length_distribution uniform_word ≡ true)
      → let hi = sub64 c.record_count 1 in
        let draws = live e hi c.op_chooser covered in
        (s : Live e) × (choices_of e hi c.op_chooser covered rd ps s ≡ c.choices)
        × (s.source ≡ r')
        × DrawsAlike e hi c.op_chooser covered rd ps
        × (os : List Operation) × (oks : ℕ) × (w : World d draws) × (transact d draws n 1 c.settings
              (record {
                db = db;
                workload = record {
                  key_generator = c.key_generator;
                  insert_key_sequence = c.insert_key_sequence;
                  choosers = s;
                };
              })
            ≡ some (os, oks, w))
  init-returns r r' c d db n covered between h uniform_keys uniform_scans lengths =
      let ready = init-IsReady e rd ps r r' c h in
      let hi = sub64 c.record_count 1 in
      let (p, spelt, t₁, t₁', chosen) = ready.chooser in
      let (last, key_kind) =
        chooser-uniform e rd ps c.record_count c.insert_key_sequence p t₁ t₁' c.choices.key_chooser
          chosen uniform_keys in
      let (t₂, t₂', len_made) = ready.lengths in
      let (lens, len_kind) =
        field_len_generator-Steady t₂ t₂' c.choices.field_len len_made lengths in
      let (top, counted, field_last, field_kind) = ready.fields in
      let (ms, bounded, t₃, t₃', scan_made) = ready.scans in
      let (scans, scan_kind) =
        new_scan_len_chooser-Steady ms t₃ t₃' c.choices.scan_len_chooser scan_made uniform_scans in
      let s : Live e = record {
        key_last = last;
        field_chooser = spread 0 (sub64 (to_size top) 1) field_last;
        scan_len_chooser = scans;
        field_len = lens;
        source = r';
      } in
      let draws = live e hi c.op_chooser covered in
      let within = live-IsReached r r' c d covered between h in
      let same : choices_of e hi c.op_chooser covered rd ps s ≡ c.choices =
        choices-eq c.choices len_kind key_kind field_kind scan_kind in
      let start : World d draws = record {
        db = db;
        workload = record {
          key_generator = c.key_generator;
          insert_key_sequence = c.insert_key_sequence;
          choosers = s;
        };
      } in
      let (os, oks, w, ran) = transact-some d draws n 1 c.settings start within in
      (s, same, refl, draws-live e hi c.op_chooser covered rd ps, os, oks, w, ran)

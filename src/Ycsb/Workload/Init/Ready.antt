-- ===== src/Ycsb/Workload/Init/Ready.antt =====
-- What workloads/YCSB-C/core/core_workload.cc has set up when `Init` returns.
use mathlib.Core.Path.{subst}
use ltram_policy_bench.Prelude.{
  ℕ, ◌≤◌, ◌≡◌, refl, [], Bool, true, some, arith, inl, inr, ◌⊎◌, Bool-cases,
}
use ltram_policy_bench.Prelude.Int.{ℤ, to_size}
use ltram_policy_bench.Prelude.Words.{sub64}
use ltram_policy_bench.Ycsb.Text.{Bytes, str_eq}
use ltram_policy_bench.Ycsb.Env.{Env}
use ltram_policy_bench.Ycsb.Build.{made}
use ltram_policy_bench.Ycsb.Build.Returned.{after-made, made-eq, or_throw-made}
use ltram_policy_bench.Ycsb.Properties.{Properties, get_property}
use ltram_policy_bench.Ycsb.Generators.Virtual.{Generator, uniform, new_uniform}
use ltram_policy_bench.Ycsb.Workload.Names.{
  field_count_property, field_count_default, zero_padding_property, zero_padding_default,
  max_scan_length_property, max_scan_length_default, read_all_fields_property,
  read_all_fields_default, write_all_fields_property, write_all_fields_default,
  record_count_property, request_distribution_property, request_distribution_default,
  insert_start_property, insert_start_default, uniform_word, zipfian_word, latest_word,
  insert_proportion_property, insert_proportion_default, field_length_property,
  field_length_default,
}
use ltram_policy_bench.Ycsb.Workload.Init.Chosen.{
  IsKeyChooser, IsFieldLen, IsScanLen, new_key_chooser-IsKeyChooser, field_len_generator-IsFieldLen,
  new_scan_len_chooser-IsScanLen,
}
use ltram_policy_bench.Ycsb.Workload.Init.Spelt.{
  IsMix, IsConfigured, positive, proportions-IsMix, assemble-IsConfigured, values-operations,
}
use ltram_policy_bench.Ycsb.Workload.Init.{
  Reader, int_of, double_of, str_to_bool, field_len_generator, proportions, new_scan_len_chooser,
  Mix, Choices, assemble, operations, new_key_chooser, Core, init,
}

module _ (e : Env) (rd : Reader e) (ps : Properties) where
  abbrev pub request_distribution : Bytes
  request_distribution = get_property request_distribution_property request_distribution_default ps

  -- What holds of the workload that `Init` leaves.
  pub record IsReady (c : Core e rd ps) : Type 0 where
    pub settings : IsConfigured e rd ps c.settings
    pub records :
        (n : ℤ) × (int_of e rd ps record_count_property [] ≡ some n) × (c.record_count ≡ to_size n)
    pub sequence : c.insert_key_sequence ≡ c.record_count
    pub start :
        (n : ℤ) × (int_of e rd ps insert_start_property insert_start_default ≡ some n)
        × (c.key_generator ≡ to_size n)
    pub mix :
        (m : Mix e rd ps) × IsMix e rd ps m
        × (c.op_chooser.values ≡ positive e rd ps m)
        × (c.op_chooser ≡ operations e rd ps m)
    pub distribution :
        (str_eq request_distribution uniform_word ≡ true)
        ⊎ ((str_eq request_distribution zipfian_word ≡ true)
            ⊎ (str_eq request_distribution latest_word ≡ true))
    pub chooser :
        (p : e.Double) × (double_of e rd ps insert_proportion_property insert_proportion_default
          ≡ some p)
        × (s s' : e.Source) × (new_key_chooser e rd ps c.record_count c.insert_key_sequence p s
            ≡ made (c.choices.key_chooser, s'))
    pub lengths :
        (s s' : e.Source) × (field_len_generator e rd ps s ≡ made (c.choices.field_len, s'))
    pub fields :
        (n : ℤ) × (int_of e rd ps field_count_property field_count_default ≡ some n)
        × (last : ℕ) × (c.choices.field_chooser ≡ uniform 0 (sub64 (to_size n) 1) last)
    pub scans :
        (n : ℤ) × (int_of e rd ps max_scan_length_property max_scan_length_default ≡ some n)
        × (s s' : e.Source) × (new_scan_len_chooser e rd ps n s
            ≡ made (c.choices.scan_len_chooser, s'))
    pub chosen_keys :
        (p : e.Double) × (double_of e rd ps insert_proportion_property insert_proportion_default
          ≡ some p)
        × IsKeyChooser e rd ps c.record_count c.insert_key_sequence p c.choices.key_chooser
    pub chosen_lengths :
        (n : ℤ) × (int_of e rd ps field_length_property field_length_default ≡ some n)
        × IsFieldLen e rd ps n c.choices.field_len
    pub chosen_scans :
        (n : ℤ) × (int_of e rd ps max_scan_length_property max_scan_length_default ≡ some n)
        × IsScanLen e rd ps n c.choices.scan_len_chooser

  chooser-known :
      (n basis : ℕ) (p : e.Double) (r r' : e.Source) (g : Generator e)
      → new_key_chooser e rd ps n basis p r ≡ made (g, r')
      → (str_eq request_distribution uniform_word ≡ true)
        ⊎ ((str_eq request_distribution zipfian_word ≡ true)
            ⊎ (str_eq request_distribution latest_word ≡ true))
  unfolding new_key_chooser
  chooser-known n basis p r r' g h = elim (Bool-cases (str_eq request_distribution uniform_word)) [
    | inl a ↦ inl a
    | inr a ↦ elim (Bool-cases (str_eq request_distribution zipfian_word)) [
      | inl b ↦ inr (inl b)
      | inr b ↦ elim (Bool-cases (str_eq request_distribution latest_word)) [
        | inl c ↦ inr (inr c)
        | inr c ↦ absurd (ground arith)
      ]
    ]
  ]

  pub chooser-uniform :
      (n basis : ℕ) (p : e.Double) (r r' : e.Source) (g : Generator e)
      → new_key_chooser e rd ps n basis p r ≡ made (g, r')
      → str_eq request_distribution uniform_word ≡ true
      → (last : ℕ) × (g ≡ uniform 0 (sub64 n 1) last)
  unfolding new_key_chooser new_uniform
  chooser-uniform n basis p r r' g h a = ((e.uniform_int 0 (sub64 n 1) r).0, ground arith)

  -- The field number generator: it is uniform.
  new_uniform-kind :
      (lo hi : ℕ) (r r' : e.Source) (g : Generator e)
      → new_uniform e lo hi r ≡ made (g, r')
      → (last : ℕ) × (g ≡ uniform lo hi last)
  unfolding new_uniform
  new_uniform-kind lo hi r r' g h = ((e.uniform_int lo hi r).0, ground arith)

  assemble-IsReady :
      (fc zp count start : ℤ) (ra wa : Bool) (mix : Mix e rd ps) (k : Choices e rd ps)
      (r r' : e.Source)
      → (s s' : e.Source) × (field_len_generator e rd ps s ≡ made (k.field_len, s'))
      → (last : ℕ) × (k.field_chooser ≡ uniform 0 (sub64 (to_size fc) 1) last)
      → (n : ℤ) × (int_of e rd ps max_scan_length_property max_scan_length_default ≡ some n)
        × (s s' : e.Source) × (new_scan_len_chooser e rd ps n s ≡ made (k.scan_len_chooser, s'))
      → IsMix e rd ps mix
      → IsConfigured e rd ps (assemble e rd ps fc zp ra wa count start mix k).settings
      → int_of e rd ps record_count_property [] ≡ some count
      → int_of e rd ps insert_start_property insert_start_default ≡ some start
      → new_key_chooser e rd ps (to_size count) (to_size count) mix.insert r
        ≡ made (k.key_chooser, r')
      → IsReady (assemble e rd ps fc zp ra wa count start mix k)
  unfolding assemble
  assemble-IsReady fc zp count start ra wa mix k r r' lens fields scans mixed set e₁ e₂ e₃ =
      let n = to_size count in
      let (from_len, to_len, made_len) = lens in
      let (most, spelt, from_scan, to_scan, made_scan) = scans in
      record {
        settings = set;
        records = (count, e₁, refl);
        sequence = refl;
        start = (start, e₂, refl);
        mix = (mix, mixed, values-operations e rd ps mix, refl);
        distribution = chooser-known n n mix.insert r r' k.key_chooser e₃;
        chooser = (mix.insert, mixed.insert, r, r', e₃);
        lengths = lens;
        fields = (fc, set.field_count, fields.0, fields.1);
        scans = scans;
        chosen_keys = (
          mix.insert,
          mixed.insert,
          new_key_chooser-IsKeyChooser e rd ps n n mix.insert r r' k.key_chooser e₃,
        );
        chosen_lengths =
            field_len_generator-IsFieldLen e rd ps from_len to_len k.field_len made_len;
        chosen_scans = (
          most,
          spelt,
          new_scan_len_chooser-IsScanLen e rd ps most from_scan to_scan k.scan_len_chooser
              made_scan,
        );
      }

  -- When `Init` returns, the request distribution was one of the three that it knows. Each setting,
  -- the number of records, the first new key and each of the five proportions is what its own property
  -- spells, or its default. The bound of the transaction keys is the number of records, and the
  -- operations to draw are those with a positive proportion, in order. The generator of keys is, by the
  -- request distribution, the uniform one from 0 to the number of records less one, the scrambled
  -- one over the number of records and twice the insertions that the operations make by their
  -- proportion, or the latest one up to that bound. The generator of field numbers is uniform from 0
  -- to the number of fields less one; that of scan lengths is uniform or Zipfian from 1 to their
  -- maximum, by their distribution; and that of field lengths is the field length always, or uniform
  -- or Zipfian from 1 to it, by theirs.
  pub init-IsReady :
      (r r' : e.Source) (c : Core e rd ps) → init e rd ps r ≡ made (c, r') → IsReady c
  unfolding init
  init-IsReady r r' c h =
      let x : Core e rd ps × e.Source = (c, r') in
      let (field_count, e₁, h₁) =
        or_throw-made (int_of e rd ps field_count_property field_count_default) _ r x h in
      let (field_len, r₂, e₂, h₂) = after-made (field_len_generator e rd ps r) _ x h₁ in
      let (mix, r₃, e₃, h₃) = after-made (proportions e rd ps r₂) _ x h₂ in
      let (count, e₄, h₄) = or_throw-made (int_of e rd ps record_count_property []) _ r₃ x h₃ in
      let (zp, e₅, h₅) =
        or_throw-made (int_of e rd ps zero_padding_property zero_padding_default) _ r₃ x h₄ in
      let (ms, e₆, h₆) =
        or_throw-made (int_of e rd ps max_scan_length_property max_scan_length_default) _ r₃ x h₅ in
      let (start, e₇, h₇) =
        or_throw-made (int_of e rd ps insert_start_property insert_start_default) _ r₃ x h₆ in
      let (ra, e₈, h₈) =
        or_throw-made
          (str_to_bool (get_property read_all_fields_property read_all_fields_default ps)) _ r₃ x
          h₇ in
      let (wa, e₉, h₉) =
        or_throw-made
          (str_to_bool (get_property write_all_fields_property write_all_fields_default ps)) _ r₃ x
          h₈ in
      let n = to_size count in
      let (chooser, r₁₀, e₁₀, h₁₀) =
        after-made (new_key_chooser e rd ps n n mix.insert r₃) _ x h₉ in
      let (fc, r₁₁, e₁₁, h₁₁) =
        after-made (new_uniform e 0 (sub64 (to_size field_count) 1) r₁₀) _ x h₁₀ in
      let (sc, r₁₂, e₁₂, h₁₂) = after-made (new_scan_len_chooser e rd ps ms r₁₁) _ x h₁₁ in
      let k : Choices e rd ps = record {
        field_len = field_len;
        key_chooser = chooser;
        field_chooser = fc;
        scan_len_chooser = sc;
      } in
      let set : IsConfigured e rd ps
          (assemble e rd ps field_count zp ra wa count start mix k).settings =
        assemble-IsConfigured e rd ps field_count zp count start ra wa mix k e₁ e₅ e₈ e₉ in
      subst IsReady (made-eq h₁₂) (
        assemble-IsReady field_count zp count start ra wa mix k r₃ r₁₀ (r, r₂, e₂)
          (new_uniform-kind 0 (sub64 (to_size field_count) 1) r₁₀ r₁₁ fc e₁₁)
          (ms, e₆, r₁₁, r₁₂, e₁₂) (proportions-IsMix e rd ps r₂ r₃ mix e₃) set e₄ e₇ e₁₀)

  -- A uniform distribution returns a number between its bounds.
  abbrev pub IsBetween : Type 0
  IsBetween =
      (lo hi : ℕ) (r : e.Source)
      → lo ≤ hi
      → (lo ≤ (e.uniform_int lo hi r).0) × ((e.uniform_int lo hi r).0 ≤ hi)

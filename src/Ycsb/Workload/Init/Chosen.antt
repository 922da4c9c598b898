-- ===== src/Ycsb/Workload/Init/Chosen.antt =====
-- The generators that `Init` of workloads/YCSB-C/core/core_workload.cc makes, for each word that
-- names a distribution.
use ltram_policy_bench.Prelude.{
  ℕ, ◌≡◌, [], true, false, some, arith, inl, inr, ◌⊎◌, Bool-cases, Option-cases,
}
use ltram_policy_bench.Prelude.Int.{ℤ, to_size}
use ltram_policy_bench.Prelude.Words.{add64, sub64}
use ltram_policy_bench.Ycsb.Text.{Bytes, str_eq}
use ltram_policy_bench.Ycsb.Env.{Env}
use ltram_policy_bench.Ycsb.Build.{made}
use ltram_policy_bench.Ycsb.Properties.{Properties, get_property}
use ltram_policy_bench.Ycsb.Generators.Virtual.{
  Generator, constant, uniform, new_uniform, new_zipfian, new_scrambled, new_latest,
}
use ltram_policy_bench.Ycsb.Workload.Names.{
  field_length_distribution_property, field_length_distribution_default, field_length_property,
  field_length_default, scan_length_distribution_property, scan_length_distribution_default,
  request_distribution_property, request_distribution_default, operation_count_property,
  uniform_word, zipfian_word, latest_word, constant_word,
}
use ltram_policy_bench.Ycsb.Workload.Init.{
  Reader, int_of, field_len_generator, new_scan_len_chooser, new_key_chooser,
}

module _ (e : Env) (rd : Reader e) (ps : Properties) where
  -- The property names a distribution by this word.
  abbrev pub Names : Bytes → Bytes → Bytes → Type 0
  Names property default_value word = str_eq (get_property property default_value ps) word ≡ true

  abbrev pub UniformFrom : ℕ → ℕ → Generator e → Type 0
  UniformFrom lo hi g = (last : ℕ) × (g ≡ uniform lo hi last)

  abbrev pub ZipfianFrom : ℕ → ℕ → Generator e → Type 0
  ZipfianFrom lo hi g = (s s' : e.Source) × (new_zipfian e rd.zipfian_const lo hi s ≡ made (g, s'))

  -- A scrambled generator over the records and twice the insertions that are expected.
  abbrev pub ScrambledOver : ℕ → e.Double → Generator e → Type 0
  ScrambledOver count share g =
      (n : ℤ) × (int_of e rd ps operation_count_property [] ≡ some n)
      × (s s' : e.Source) × (new_scrambled e rd.zipfian_const
            (add64 count (to_size (rd.to_int (e.mul (e.mul (rd.of_int n) share) (e.of_u64 2))))) s
          ≡ made (g, s'))

  abbrev pub LatestOf : ℕ → Generator e → Type 0
  LatestOf basis g = (s s' : e.Source) × (new_latest e rd.zipfian_const basis s ≡ made (g, s'))

  -- The generator of transaction keys, for the number of records, the bound and the proportion of
  -- insertions.
  abbrev pub IsKeyChooser : ℕ → ℕ → e.Double → Generator e → Type 0
  IsKeyChooser count basis share g =
      (Names request_distribution_property request_distribution_default uniform_word
        × UniformFrom 0 (sub64 count 1) g)
      ⊎ ((Names request_distribution_property request_distribution_default zipfian_word
            × ScrambledOver count share g)
          ⊎ (Names request_distribution_property request_distribution_default latest_word
              × LatestOf basis g))

  abbrev pub IsScanLen : ℤ → Generator e → Type 0
  IsScanLen n g =
      (Names scan_length_distribution_property scan_length_distribution_default uniform_word
        × UniformFrom 1 (to_size n) g)
      ⊎ (Names scan_length_distribution_property scan_length_distribution_default zipfian_word
          × ZipfianFrom 1 (to_size n) g)

  abbrev pub IsFieldLen : ℤ → Generator e → Type 0
  IsFieldLen n g =
      (Names field_length_distribution_property field_length_distribution_default constant_word
        × (g ≡ constant (to_size n)))
      ⊎ ((Names field_length_distribution_property field_length_distribution_default uniform_word
            × UniformFrom 1 (to_size n) g)
          ⊎ (Names field_length_distribution_property field_length_distribution_default zipfian_word
              × ZipfianFrom 1 (to_size n) g))

  -- A branch on the word.
  word-cases :
      {A : Type 0} (property default_value word : Bytes)
      → (str_eq (get_property property default_value ps) word ≡ true → A)
      → (str_eq (get_property property default_value ps) word ≡ false → A)
      → A
  word-cases property default_value word same other =
      elim (Bool-cases (str_eq (get_property property default_value ps) word)) [
        | inl h ↦ same h
        | inr h ↦ other h
      ]

  pub new_scan_len_chooser-IsScanLen :
      (n : ℤ) (r r' : e.Source) (g : Generator e)
      → new_scan_len_chooser e rd ps n r ≡ made (g, r')
      → IsScanLen n g
  unfolding new_scan_len_chooser new_uniform
  new_scan_len_chooser-IsScanLen n r r' g h =
      let p = scan_length_distribution_property in
      let d = scan_length_distribution_default in
      word-cases p d uniform_word (λ a. inl (a, ((e.uniform_int 1 (to_size n) r).0, ground arith)))
        (λ a.
          word-cases p d zipfian_word (λ b. inr (b, (r, r', ground arith)))
            (λ b. absurd (ground arith)))

  pub field_len_generator-IsFieldLen :
      (r r' : e.Source) (g : Generator e)
      → field_len_generator e rd ps r ≡ made (g, r')
      → (n : ℤ) × (int_of e rd ps field_length_property field_length_default ≡ some n)
        × IsFieldLen n g
  unfolding field_len_generator new_uniform
  field_len_generator-IsFieldLen r r' g h =
      let p = field_length_distribution_property in
      let d = field_length_distribution_default in
      elim (Option-cases (int_of e rd ps field_length_property field_length_default)) [
        | inl z ↦ absurd (ground arith)
        | inr (n, z) ↦ (
          n,
          z,
          word-cases p d constant_word (λ a. inl (a, ground arith))
              (λ a. inr (
                word-cases p d uniform_word
                  (λ b. inl (b, ((e.uniform_int 1 (to_size n) r).0, ground arith)))
                  (λ b. inr (
                    word-cases p d zipfian_word (λ c. (c, (r, r', ground arith)))
                      (λ c. absurd (ground arith)))))),
        )
      ]

  pub new_key_chooser-IsKeyChooser :
      (count basis : ℕ) (share : e.Double) (r r' : e.Source) (g : Generator e)
      → new_key_chooser e rd ps count basis share r ≡ made (g, r')
      → IsKeyChooser count basis share g
  unfolding new_key_chooser new_uniform
  new_key_chooser-IsKeyChooser count basis share r r' g h =
      let p = request_distribution_property in
      let d = request_distribution_default in
      word-cases p d uniform_word
        (λ a. inl (a, ((e.uniform_int 0 (sub64 count 1) r).0, ground arith)))
        (λ a. inr (
          word-cases p d zipfian_word
            (λ b. elim (Option-cases (int_of e rd ps operation_count_property [])) [
              | inl z ↦ absurd (ground arith)
              | inr (n, z) ↦ inl (b, (n, z, r, r', ground arith))
            ])
            (λ b.
              word-cases p d latest_word (λ c. inr (c, (r, r', ground arith)))
                (λ c. absurd (ground arith)))))

-- ===== src/Ycsb/Workload/Init/Spelt.antt =====
-- What the properties of workloads/YCSB-C/core/core_workload.cc spell: its settings and proportions.
use mathlib.Core.Path.{subst}
use ltram_policy_bench.Prelude.{
  ◌≡◌, refl, [], Bool, not, some, inl, inr, Bool-cases, List, ◌∷◌, ◌++◌, sym, append_assoc,
  append-nil, if◌then◌else◌,
}
use ltram_policy_bench.Prelude.Int.{ℤ}
use ltram_policy_bench.Ycsb.Text.{str_eq}
use ltram_policy_bench.Ycsb.Env.{Env}
use ltram_policy_bench.Ycsb.Build.{made}
use ltram_policy_bench.Ycsb.Build.Returned.{made-eq, or_throw-made}
use ltram_policy_bench.Ycsb.Properties.{Properties, get_property}
use ltram_policy_bench.Ycsb.Generators.{DiscreteGenerator, add_value}
use ltram_policy_bench.Ycsb.Workload.{Operation, Settings}
use ltram_policy_bench.Ycsb.Workload.Names.{
  field_count_property, field_count_default, zero_padding_property, zero_padding_default,
  read_all_fields_property, read_all_fields_default, write_all_fields_property,
  write_all_fields_default, table_property, table_default, read_proportion_property,
  read_proportion_default, update_proportion_property, update_proportion_default,
  insert_proportion_property, insert_proportion_default, scan_proportion_property,
  scan_proportion_default, read_modify_write_proportion_property,
  read_modify_write_proportion_default, insert_order_property, insert_order_default, hashed_word,
}
use ltram_policy_bench.Ycsb.Workload.Init.{
  Reader, int_of, double_of, str_to_bool, proportions, Mix, Choices, assemble, operations,
  add_positive,
}

module _ (e : Env) (rd : Reader e) (ps : Properties) where
  -- Each proportion is the number that its own property spells.
  pub record IsMix (m : Mix e rd ps) : Type 0 where
    pub read : double_of e rd ps read_proportion_property read_proportion_default ≡ some m.read
    pub update :
        double_of e rd ps update_proportion_property update_proportion_default ≡ some m.update
    pub insert :
        double_of e rd ps insert_proportion_property insert_proportion_default ≡ some m.insert
    pub scan : double_of e rd ps scan_proportion_property scan_proportion_default ≡ some m.scan
    pub read_modify_write :
        double_of e rd ps read_modify_write_proportion_property read_modify_write_proportion_default
        ≡ some m.read_modify_write

  -- Each setting is what its own property spells.
  pub record IsConfigured (w : Settings) : Type 0 where
    pub table_name : w.table_name ≡ get_property table_property table_default ps
    pub field_count : int_of e rd ps field_count_property field_count_default ≡ some w.field_count
    pub read_all_fields :
        str_to_bool (get_property read_all_fields_property read_all_fields_default ps)
        ≡ some w.read_all_fields
    pub write_all_fields :
        str_to_bool (get_property write_all_fields_property write_all_fields_default ps)
        ≡ some w.write_all_fields
    pub ordered_inserts :
        w.ordered_inserts
        ≡ not (str_eq (get_property insert_order_property insert_order_default ps) hashed_word)
    pub zero_padding :
        int_of e rd ps zero_padding_property zero_padding_default ≡ some w.zero_padding

  pub proportions-IsMix :
      (r r' : e.Source) (m : Mix e rd ps) → proportions e rd ps r ≡ made (m, r') → IsMix m
  unfolding proportions
  proportions-IsMix r r' m h =
      let x : Mix e rd ps × e.Source = (m, r') in
      let (a, e₁, h₁) =
        or_throw-made (double_of e rd ps read_proportion_property read_proportion_default) _ r x
          h in
      let (b, e₂, h₂) =
        or_throw-made (double_of e rd ps update_proportion_property update_proportion_default) _ r x
          h₁ in
      let (c, e₃, h₃) =
        or_throw-made (double_of e rd ps insert_proportion_property insert_proportion_default) _ r x
          h₂ in
      let (d, e₄, h₄) =
        or_throw-made (double_of e rd ps scan_proportion_property scan_proportion_default) _ r x
          h₃ in
      let (f, e₅, h₅) =
        or_throw-made
          (double_of e rd ps read_modify_write_proportion_property
            read_modify_write_proportion_default)
          _ r x h₄ in
      subst IsMix (made-eq h₅)
        (record { read = e₁; update = e₂; insert = e₃; scan = e₄; read_modify_write = e₅ })

  pub assemble-IsConfigured :
      (fc zp count start : ℤ) (ra wa : Bool) (mix : Mix e rd ps) (k : Choices e rd ps)
      → int_of e rd ps field_count_property field_count_default ≡ some fc
      → int_of e rd ps zero_padding_property zero_padding_default ≡ some zp
      → str_to_bool (get_property read_all_fields_property read_all_fields_default ps) ≡ some ra
      → str_to_bool (get_property write_all_fields_property write_all_fields_default ps) ≡ some wa
      → IsConfigured (assemble e rd ps fc zp ra wa count start mix k).settings
  unfolding assemble
  assemble-IsConfigured fc zp count start ra wa mix k e₁ e₂ e₃ e₄ = record {
    table_name = refl;
    field_count = e₁;
    read_all_fields = e₃;
    write_all_fields = e₄;
    ordered_inserts = refl;
    zero_padding = e₂;
  }

  -- The operation, where its proportion is positive.
  abbrev only : Operation → e.Double → List (Operation × e.Double)
  only op p = if e.lt (e.of_u64 0) p then (op, p) ∷ [] else []

  -- The operations with a positive proportion, each with its proportion, in the order of the
  -- properties.
  abbrev pub positive : Mix e rd ps → List (Operation × e.Double)
  positive m =
      only Operation.read m.read
      ++ (only Operation.update m.update
          ++ (only Operation.insert m.insert
              ++ (only Operation.scan m.scan
                  ++ only Operation.read_modify_write m.read_modify_write)))

  values-add_positive :
      (op : Operation) (p : e.Double) (d : DiscreteGenerator e Operation)
      → (add_positive e rd ps op p d).values ≡ d.values ++ only op p
  unfolding add_value
  values-add_positive op p d = elim (Bool-cases (e.lt (e.of_u64 0) p)) [
    | inl k ↦ rw k refl
    | inr k ↦ rw k (sym (append-nil d.values))
  ]

  pub values-operations : (m : Mix e rd ps) → (operations e rd ps m).values ≡ positive m
  unfolding operations
  values-operations m =
      let none_yet : DiscreteGenerator e Operation = record { values = []; sum = e.of_u64 0 } in
      let d₁ = add_positive e rd ps Operation.read m.read none_yet in
      let d₂ = add_positive e rd ps Operation.update m.update d₁ in
      let d₃ = add_positive e rd ps Operation.insert m.insert d₂ in
      let d₄ = add_positive e rd ps Operation.scan m.scan d₃ in
      simp
        (
          values-add_positive Operation.read m.read none_yet,
          values-add_positive Operation.update m.update d₁,
          values-add_positive Operation.insert m.insert d₂,
          values-add_positive Operation.scan m.scan d₃,
          values-add_positive Operation.read_modify_write m.read_modify_write d₄,
          append_assoc,
        )
        refl

-- ===== src/Ycsb/Workload/Init.antt =====
-- `CoreWorkload::Init` of workloads/YCSB-C/core/core_workload.cc, and StrToBool of core/utils.h.
pub mod Operations
pub mod Chosen
pub mod Ready
pub mod Spelt
use ltram_policy_bench.Prelude.{
  ℕ, ◌+◌, List, [], Bool, true, false, not, ◌&&◌, ◌||◌, Option, none, some, leb, ◌∷◌, map,
  if◌then◌else◌,
}
use ltram_policy_bench.Prelude.Int.{ℤ, pos, to_size}
use ltram_policy_bench.Prelude.Words.{add64, sub64}
use ltram_policy_bench.Ycsb.Text.{Bytes, str_eq}
use ltram_policy_bench.Ycsb.Env.{Env}
use ltram_policy_bench.Ycsb.Build.{Build, pure, throw, or_throw, ◌>>=◌}
use ltram_policy_bench.Ycsb.Properties.{Properties, get_property}
use ltram_policy_bench.Ycsb.Generators.{DiscreteGenerator, add_value}
use ltram_policy_bench.Ycsb.Generators.Virtual.{
  Generator, constant, new_uniform, new_zipfian, new_scrambled, new_latest,
}
use ltram_policy_bench.Ycsb.Workload.{Operation, Settings}
use ltram_policy_bench.Ycsb.Workload.Names.{
  table_property, table_default, field_count_property, field_count_default,
  field_length_distribution_property, field_length_distribution_default, field_length_property,
  field_length_default, read_all_fields_property, read_all_fields_default,
  write_all_fields_property, write_all_fields_default, read_proportion_property,
  read_proportion_default, update_proportion_property, update_proportion_default,
  insert_proportion_property, insert_proportion_default, scan_proportion_property,
  scan_proportion_default, read_modify_write_proportion_property,
  read_modify_write_proportion_default, request_distribution_property, request_distribution_default,
  zero_padding_property, zero_padding_default, max_scan_length_property, max_scan_length_default,
  scan_length_distribution_property, scan_length_distribution_default, insert_order_property,
  insert_order_default, insert_start_property, insert_start_default, record_count_property,
  operation_count_property, uniform_word, zipfian_word, latest_word, constant_word, hashed_word,
  true_word, false_word,
}

-- The conversions of the C++ library that `Init` uses: of texts to numbers, where `none` is an
-- exception, and between `int` and `double`; and the constant 0.99.
pub record Reader (e : Env) : Type 0 where
  pub stoi : Bytes → Option ℤ
  pub stod : Bytes → Option e.Double
  pub of_int : ℤ → e.Double
  pub to_int : e.Double → ℤ
  pub zipfian_const : e.Double

-- `tolower` in the C locale.
abbrev pub lower : ℕ → ℕ
lower c = if leb b'A' c && leb c b'Z' then c + 0x20 else c

-- `StrToBool`, where `none` is the exception.
unfoldable pub str_to_bool : Bytes → Option Bool
str_to_bool str =
    let word = map lower str in
    if str_eq word true_word || str_eq word (b'1' ∷ [])
    then some true
    else if str_eq word false_word || str_eq word (b'0' ∷ [])
    then some false
    else none

module _ (e : Env) (rd : Reader e) (ps : Properties) where
  abbrev pub int_of : Bytes → Bytes → Option ℤ
  int_of key default_value = rd.stoi (get_property key default_value ps)

  abbrev pub double_of : Bytes → Bytes → Option e.Double
  double_of key default_value = rd.stod (get_property key default_value ps)

  unfoldable pub field_len_generator : Build e.Source (Generator e)
  field_len_generator = do
    let dist = get_property field_length_distribution_property field_length_distribution_default ps
    len ← or_throw (int_of field_length_property field_length_default)
    if str_eq dist constant_word
        then pure (constant (to_size len))
        else if str_eq dist uniform_word
        then new_uniform e 1 (to_size len)
        else if str_eq dist zipfian_word
        then new_zipfian e rd.zipfian_const 1 (to_size len)
        else throw

  -- The five proportions, in the order in which they are read.
  pub record Mix : Type 0 where
    pub read : e.Double
    pub update : e.Double
    pub insert : e.Double
    pub scan : e.Double
    pub read_modify_write : e.Double

  unfoldable pub proportions : Build e.Source Mix
  proportions = do
    r ← or_throw (double_of read_proportion_property read_proportion_default)
    u ← or_throw (double_of update_proportion_property update_proportion_default)
    i ← or_throw (double_of insert_proportion_property insert_proportion_default)
    s ← or_throw (double_of scan_proportion_property scan_proportion_default)
    m ←
        or_throw
          (double_of read_modify_write_proportion_property read_modify_write_proportion_default)
    pure (record { read = r; update = u; insert = i; scan = s; read_modify_write = m })

  abbrev pub add_positive :
      Operation → e.Double → DiscreteGenerator e Operation → DiscreteGenerator e Operation
  add_positive op p d = if e.lt (e.of_u64 0) p then add_value e op p d else d

  unfoldable pub operations : Mix → DiscreteGenerator e Operation
  operations m = add_positive Operation.read_modify_write m.read_modify_write (
      add_positive Operation.scan m.scan (
        add_positive Operation.insert m.insert (
          add_positive Operation.update m.update
            (add_positive Operation.read m.read (record { values = []; sum = e.of_u64 0 })))))

  -- The generator of the transaction keys, for a number of records and the counter of new keys.
  unfoldable pub new_key_chooser : ℕ → ℕ → e.Double → Build e.Source (Generator e)
  new_key_chooser record_count basis insert_proportion =
      let dist = get_property request_distribution_property request_distribution_default ps in
      if str_eq dist uniform_word
      then new_uniform e 0 (sub64 record_count 1)
      else if str_eq dist zipfian_word
      then (do
        op_count ← or_throw (int_of operation_count_property [])
        let twice = e.mul (e.mul (rd.of_int op_count) insert_proportion) (e.of_u64 2)
        let new_keys = rd.to_int twice
        new_scrambled e rd.zipfian_const (add64 record_count (to_size new_keys)))
      else if str_eq dist latest_word
      then new_latest e rd.zipfian_const basis
      else throw

  unfoldable pub new_scan_len_chooser : ℤ → Build e.Source (Generator e)
  new_scan_len_chooser max_scan_len =
      let dist =
        get_property scan_length_distribution_property scan_length_distribution_default ps in
      if str_eq dist uniform_word
      then new_uniform e 1 (to_size max_scan_len)
      else if str_eq dist zipfian_word
      then new_zipfian e rd.zipfian_const 1 (to_size max_scan_len)
      else throw

  pub record Choices : Type 0 where
    pub field_len : Generator e
    pub key_chooser : Generator e
    pub field_chooser : Generator e
    pub scan_len_chooser : Generator e

  -- The workload after `Init`.
  pub record Core : Type 0 where
    pub settings : Settings
    pub record_count : ℕ
    pub key_generator : ℕ
    pub op_chooser : DiscreteGenerator e Operation
    pub choices : Choices
    pub insert_key_sequence : ℕ

  -- The fields from the numbers and the generators, with `insert_key_sequence_.Set`.
  unfoldable pub assemble : ℤ → ℤ → Bool → Bool → ℤ → ℤ → Mix → Choices → Core
  assemble field_count zero_padding read_all write_all count insert_start mix choices = record {
    settings = record {
      table_name = get_property table_property table_default ps;
      field_count = field_count;
      read_all_fields = read_all;
      write_all_fields = write_all;
      ordered_inserts =
          not (str_eq (get_property insert_order_property insert_order_default ps) hashed_word);
      zero_padding = zero_padding;
    };
    record_count = to_size count;
    key_generator = to_size insert_start;
    op_chooser = operations mix;
    choices = choices;
    insert_key_sequence = to_size count;
  }

  unfoldable pub init : Build e.Source Core
  init = do
    field_count ← or_throw (int_of field_count_property field_count_default)
    field_len ← field_len_generator
    mix ← proportions
    count ← or_throw (int_of record_count_property [])
    zero_padding ← or_throw (int_of zero_padding_property zero_padding_default)
    max_scan_len ← or_throw (int_of max_scan_length_property max_scan_length_default)
    insert_start ← or_throw (int_of insert_start_property insert_start_default)
    read_all ←
        or_throw (str_to_bool (get_property read_all_fields_property read_all_fields_default ps))
    write_all ←
        or_throw (str_to_bool (get_property write_all_fields_property write_all_fields_default ps))
    let record_count = to_size count
    key_chooser ← new_key_chooser record_count record_count mix.insert
    field_chooser ← new_uniform e 0 (sub64 (to_size field_count) 1)
    scan_len_chooser ← new_scan_len_chooser max_scan_len
    pure (
        assemble field_count zero_padding read_all write_all count insert_start mix (record {
          field_len = field_len;
          key_chooser = key_chooser;
          field_chooser = field_chooser;
          scan_len_chooser = scan_len_chooser;
        }))

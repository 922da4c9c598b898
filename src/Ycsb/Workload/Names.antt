-- ===== src/Ycsb/Workload/Names.antt =====
-- The names of the properties of workloads/YCSB-C/core/core_workload.cc, with their defaults, and
-- the words that their values are compared with.
use ltram_policy_bench.Prelude.{[], ◌∷◌}
use ltram_policy_bench.Ycsb.Text.{Bytes}

abbrev pub table_property : Bytes
table_property = b't' ∷ b'a' ∷ b'b' ∷ b'l' ∷ b'e' ∷ []

abbrev pub table_default : Bytes
table_default = b'u' ∷ b's' ∷ b'e' ∷ b'r' ∷ b't' ∷ b'a' ∷ b'b' ∷ b'l' ∷ b'e' ∷ []

abbrev pub field_count_property : Bytes
field_count_property = b'f' ∷ b'i' ∷ b'e' ∷ b'l' ∷ b'd' ∷ b'c' ∷ b'o' ∷ b'u' ∷ b'n' ∷ b't' ∷ []

abbrev pub field_count_default : Bytes
field_count_default = b'1' ∷ b'0' ∷ []

abbrev pub field_length_distribution_property : Bytes
field_length_distribution_property =
    b'f' ∷ b'i' ∷ b'e' ∷ b'l' ∷ b'd' ∷ b'_' ∷ b'l' ∷ b'e' ∷ b'n' ∷ b'_' ∷ b'd' ∷ b'i' ∷ b's' ∷ b't'
    ∷ []

abbrev pub field_length_distribution_default : Bytes
field_length_distribution_default = b'c' ∷ b'o' ∷ b'n' ∷ b's' ∷ b't' ∷ b'a' ∷ b'n' ∷ b't' ∷ []

abbrev pub field_length_property : Bytes
field_length_property =
    b'f' ∷ b'i' ∷ b'e' ∷ b'l' ∷ b'd' ∷ b'l' ∷ b'e' ∷ b'n' ∷ b'g' ∷ b't' ∷ b'h' ∷ []

abbrev pub field_length_default : Bytes
field_length_default = b'1' ∷ b'0' ∷ b'0' ∷ []

abbrev pub read_all_fields_property : Bytes
read_all_fields_property =
    b'r' ∷ b'e' ∷ b'a' ∷ b'd' ∷ b'a' ∷ b'l' ∷ b'l' ∷ b'f' ∷ b'i' ∷ b'e' ∷ b'l' ∷ b'd' ∷ b's' ∷ []

abbrev pub read_all_fields_default : Bytes
read_all_fields_default = b't' ∷ b'r' ∷ b'u' ∷ b'e' ∷ []

abbrev pub write_all_fields_property : Bytes
write_all_fields_property =
    b'w' ∷ b'r' ∷ b'i' ∷ b't' ∷ b'e' ∷ b'a' ∷ b'l' ∷ b'l' ∷ b'f' ∷ b'i' ∷ b'e' ∷ b'l' ∷ b'd' ∷ b's'
    ∷ []

abbrev pub write_all_fields_default : Bytes
write_all_fields_default = b'f' ∷ b'a' ∷ b'l' ∷ b's' ∷ b'e' ∷ []

abbrev pub read_proportion_property : Bytes
read_proportion_property =
    b'r' ∷ b'e' ∷ b'a' ∷ b'd' ∷ b'p' ∷ b'r' ∷ b'o' ∷ b'p' ∷ b'o' ∷ b'r' ∷ b't' ∷ b'i' ∷ b'o' ∷ b'n'
    ∷ []

abbrev pub read_proportion_default : Bytes
read_proportion_default = b'0' ∷ b'.' ∷ b'9' ∷ b'5' ∷ []

abbrev pub update_proportion_property : Bytes
update_proportion_property =
    b'u' ∷ b'p' ∷ b'd' ∷ b'a' ∷ b't' ∷ b'e' ∷ b'p' ∷ b'r' ∷ b'o' ∷ b'p' ∷ b'o' ∷ b'r' ∷ b't' ∷ b'i'
    ∷ b'o' ∷ b'n' ∷ []

abbrev pub update_proportion_default : Bytes
update_proportion_default = b'0' ∷ b'.' ∷ b'0' ∷ b'5' ∷ []

abbrev pub insert_proportion_property : Bytes
insert_proportion_property =
    b'i' ∷ b'n' ∷ b's' ∷ b'e' ∷ b'r' ∷ b't' ∷ b'p' ∷ b'r' ∷ b'o' ∷ b'p' ∷ b'o' ∷ b'r' ∷ b't' ∷ b'i'
    ∷ b'o' ∷ b'n' ∷ []

abbrev pub insert_proportion_default : Bytes
insert_proportion_default = b'0' ∷ b'.' ∷ b'0' ∷ []

abbrev pub scan_proportion_property : Bytes
scan_proportion_property =
    b's' ∷ b'c' ∷ b'a' ∷ b'n' ∷ b'p' ∷ b'r' ∷ b'o' ∷ b'p' ∷ b'o' ∷ b'r' ∷ b't' ∷ b'i' ∷ b'o' ∷ b'n'
    ∷ []

abbrev pub scan_proportion_default : Bytes
scan_proportion_default = b'0' ∷ b'.' ∷ b'0' ∷ []

abbrev pub read_modify_write_proportion_property : Bytes
read_modify_write_proportion_property =
    b'r' ∷ b'e' ∷ b'a' ∷ b'd' ∷ b'm' ∷ b'o' ∷ b'd' ∷ b'i' ∷ b'f' ∷ b'y' ∷ b'w' ∷ b'r' ∷ b'i' ∷ b't'
    ∷ b'e' ∷ b'p' ∷ b'r' ∷ b'o' ∷ b'p' ∷ b'o' ∷ b'r' ∷ b't' ∷ b'i' ∷ b'o' ∷ b'n' ∷ []

abbrev pub read_modify_write_proportion_default : Bytes
read_modify_write_proportion_default = b'0' ∷ b'.' ∷ b'0' ∷ []

abbrev pub request_distribution_property : Bytes
request_distribution_property =
    b'r' ∷ b'e' ∷ b'q' ∷ b'u' ∷ b'e' ∷ b's' ∷ b't' ∷ b'd' ∷ b'i' ∷ b's' ∷ b't' ∷ b'r' ∷ b'i' ∷ b'b'
    ∷ b'u' ∷ b't' ∷ b'i' ∷ b'o' ∷ b'n' ∷ []

abbrev pub request_distribution_default : Bytes
request_distribution_default = b'u' ∷ b'n' ∷ b'i' ∷ b'f' ∷ b'o' ∷ b'r' ∷ b'm' ∷ []

abbrev pub zero_padding_property : Bytes
zero_padding_property =
    b'z' ∷ b'e' ∷ b'r' ∷ b'o' ∷ b'p' ∷ b'a' ∷ b'd' ∷ b'd' ∷ b'i' ∷ b'n' ∷ b'g' ∷ []

abbrev pub zero_padding_default : Bytes
zero_padding_default = b'1' ∷ []

abbrev pub max_scan_length_property : Bytes
max_scan_length_property =
    b'm' ∷ b'a' ∷ b'x' ∷ b's' ∷ b'c' ∷ b'a' ∷ b'n' ∷ b'l' ∷ b'e' ∷ b'n' ∷ b'g' ∷ b't' ∷ b'h' ∷ []

abbrev pub max_scan_length_default : Bytes
max_scan_length_default = b'1' ∷ b'0' ∷ b'0' ∷ b'0' ∷ []

abbrev pub scan_length_distribution_property : Bytes
scan_length_distribution_property =
    b's' ∷ b'c' ∷ b'a' ∷ b'n' ∷ b'l' ∷ b'e' ∷ b'n' ∷ b'g' ∷ b't' ∷ b'h' ∷ b'd' ∷ b'i' ∷ b's' ∷ b't'
    ∷ b'r' ∷ b'i' ∷ b'b' ∷ b'u' ∷ b't' ∷ b'i' ∷ b'o' ∷ b'n' ∷ []

abbrev pub scan_length_distribution_default : Bytes
scan_length_distribution_default = b'u' ∷ b'n' ∷ b'i' ∷ b'f' ∷ b'o' ∷ b'r' ∷ b'm' ∷ []

abbrev pub insert_order_property : Bytes
insert_order_property =
    b'i' ∷ b'n' ∷ b's' ∷ b'e' ∷ b'r' ∷ b't' ∷ b'o' ∷ b'r' ∷ b'd' ∷ b'e' ∷ b'r' ∷ []

abbrev pub insert_order_default : Bytes
insert_order_default = b'h' ∷ b'a' ∷ b's' ∷ b'h' ∷ b'e' ∷ b'd' ∷ []

abbrev pub insert_start_property : Bytes
insert_start_property =
    b'i' ∷ b'n' ∷ b's' ∷ b'e' ∷ b'r' ∷ b't' ∷ b's' ∷ b't' ∷ b'a' ∷ b'r' ∷ b't' ∷ []

abbrev pub insert_start_default : Bytes
insert_start_default = b'0' ∷ []

abbrev pub record_count_property : Bytes
record_count_property =
    b'r' ∷ b'e' ∷ b'c' ∷ b'o' ∷ b'r' ∷ b'd' ∷ b'c' ∷ b'o' ∷ b'u' ∷ b'n' ∷ b't' ∷ []

abbrev pub operation_count_property : Bytes
operation_count_property =
    b'o' ∷ b'p' ∷ b'e' ∷ b'r' ∷ b'a' ∷ b't' ∷ b'i' ∷ b'o' ∷ b'n' ∷ b'c' ∷ b'o' ∷ b'u' ∷ b'n' ∷ b't'
    ∷ []

abbrev pub uniform_word : Bytes
uniform_word = b'u' ∷ b'n' ∷ b'i' ∷ b'f' ∷ b'o' ∷ b'r' ∷ b'm' ∷ []

abbrev pub zipfian_word : Bytes
zipfian_word = b'z' ∷ b'i' ∷ b'p' ∷ b'f' ∷ b'i' ∷ b'a' ∷ b'n' ∷ []

abbrev pub latest_word : Bytes
latest_word = b'l' ∷ b'a' ∷ b't' ∷ b'e' ∷ b's' ∷ b't' ∷ []

abbrev pub constant_word : Bytes
constant_word = b'c' ∷ b'o' ∷ b'n' ∷ b's' ∷ b't' ∷ b'a' ∷ b'n' ∷ b't' ∷ []

abbrev pub hashed_word : Bytes
hashed_word = b'h' ∷ b'a' ∷ b's' ∷ b'h' ∷ b'e' ∷ b'd' ∷ []

abbrev pub true_word : Bytes
true_word = b't' ∷ b'r' ∷ b'u' ∷ b'e' ∷ []

abbrev pub false_word : Bytes
false_word = b'f' ∷ b'a' ∷ b'l' ∷ b's' ∷ b'e' ∷ []

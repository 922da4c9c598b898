-- ===== src/Ycsb/BasicDb.antt =====
-- workloads/YCSB-C/db/basic_db.h: a database that only prints what it is asked. Its mutex makes each
-- call one step; the state is what was printed, and `std::endl` is the byte 10.
use ltram_policy_bench.Prelude.{
  ℕ, suc, ◌+◌, ◌≡◌, refl, List, [], ◌∷◌, ◌++◌, Option, none, some, arith, ◌==◌, if◌then◌else◌,
}
use ltram_policy_bench.Prelude.Int.{ℤ, pos, negsuc}
use ltram_policy_bench.Ycsb.Text.{Bytes}
use ltram_policy_bench.Ycsb.Utils.{to_string}
use ltram_policy_bench.Ycsb.Db.{DbCode, ok, KvPair}

abbrev pub endl : Bytes
endl = 10 ∷ []

-- The words that are printed, each with the space after it.
abbrev pub a_new_thread : Bytes
a_new_thread =
    b'A' ∷ b' ' ∷ b'n' ∷ b'e' ∷ b'w' ∷ b' ' ∷ b't' ∷ b'h' ∷ b'r' ∷ b'e' ∷ b'a' ∷ b'd' ∷ b' ' ∷ b'b'
    ∷ b'e' ∷ b'g' ∷ b'i' ∷ b'n' ∷ b's' ∷ b' ' ∷ b'w' ∷ b'o' ∷ b'r' ∷ b'k' ∷ b'i' ∷ b'n' ∷ b'g'
    ∷ b'.' ∷ []

abbrev pub read_word : Bytes
read_word = b'R' ∷ b'E' ∷ b'A' ∷ b'D' ∷ b' ' ∷ []

abbrev pub scan_word : Bytes
scan_word = b'S' ∷ b'C' ∷ b'A' ∷ b'N' ∷ b' ' ∷ []

abbrev pub update_word : Bytes
update_word = b'U' ∷ b'P' ∷ b'D' ∷ b'A' ∷ b'T' ∷ b'E' ∷ b' ' ∷ []

abbrev pub insert_word : Bytes
insert_word = b'I' ∷ b'N' ∷ b'S' ∷ b'E' ∷ b'R' ∷ b'T' ∷ b' ' ∷ []

abbrev pub delete_word : Bytes
delete_word = b'D' ∷ b'E' ∷ b'L' ∷ b'E' ∷ b'T' ∷ b'E' ∷ b' ' ∷ []

abbrev pub all_fields : Bytes
all_fields =
    b' ' ∷ b'<' ∷ b' ' ∷ b'a' ∷ b'l' ∷ b'l' ∷ b' ' ∷ b'f' ∷ b'i' ∷ b'e' ∷ b'l' ∷ b'd' ∷ b's' ∷ b' '
    ∷ b'>' ∷ []

abbrev pub bracket : Bytes
bracket = b' ' ∷ b'[' ∷ b' ' ∷ []

-- The loops over the fields and over the values.
unfoldable pub field_list : List Bytes → Bytes
field_list [] = []
field_list (f ∷ fields) = f ++ (b' ' ∷ field_list fields)

unfoldable pub value_list : List KvPair → Bytes
value_list [] = []
value_list ((f, v) ∷ values) = f ++ (b'=' ∷ (v ++ (b' ' ∷ value_list values)))

unfoldable pub asked : Option (List Bytes) → Bytes
asked none = all_fields ++ endl
asked (some fields) = bracket ++ (field_list fields ++ (b']' ∷ endl))

abbrev pub int_text : ℤ → Bytes
int_text (pos n) = to_string n
int_text (negsuc n) = b'-' ∷ to_string (suc n)

unfoldable pub init : Bytes → Bytes
init out = out ++ (a_new_thread ++ endl)

-- The result vector comes in and goes out as it is.
unfoldable pub read :
    {R : Type 0} → Bytes → Bytes → Option (List Bytes) → R → Bytes → (DbCode × R) × Bytes
read table key fields result out =
    ((ok, result), out ++ (read_word ++ (table ++ (b' ' ∷ (key ++ asked fields)))))

unfoldable pub scan :
    {R : Type 0} → Bytes → Bytes → ℤ → Option (List Bytes) → R → Bytes → (DbCode × R) × Bytes
scan table key len fields result out = (
  (ok, result),
  out ++ (scan_word ++ (table ++ (b' ' ∷ (key ++ (b' ' ∷ (int_text len ++ asked fields)))))),
)

unfoldable pub update : Bytes → Bytes → List KvPair → Bytes → DbCode × Bytes
update table key values out = (
  ok,
  out
      ++ (update_word
          ++ (table ++ (b' ' ∷ (key ++ (bracket ++ (value_list values ++ (b']' ∷ endl))))))),
)

unfoldable pub insert : Bytes → Bytes → List KvPair → Bytes → DbCode × Bytes
insert table key values out = (
  ok,
  out
      ++ (insert_word
          ++ (table ++ (b' ' ∷ (key ++ (bracket ++ (value_list values ++ (b']' ∷ endl))))))),
)

unfoldable pub delete : Bytes → Bytes → Bytes → DbCode × Bytes
delete table key out = (ok, out ++ (delete_word ++ (table ++ (b' ' ∷ (key ++ endl)))))

-- The lines that a text ends.
pub newlines : Bytes → ℕ
newlines [] = 0
newlines (c ∷ cs) = (if c == 10 then 1 else 0) + newlines cs

newlines-append : (a b : Bytes) → newlines (a ++ b) ≡ newlines a + newlines b
unfolding newlines
newlines-append [] b = omega arith
newlines-append (c ∷ a) b = omega (arith, newlines-append a b)

-- The newlines among the values of a call.
abbrev pub value_newlines : List KvPair → ℕ
value_newlines [] = 0
value_newlines ((f, v) ∷ values) = newlines f + newlines v + value_newlines values

newlines-value_list : (values : List KvPair) → newlines (value_list values) ≡ value_newlines values
unfolding newlines value_list
newlines-value_list [] = refl
newlines-value_list ((f, v) ∷ values) = omega (
  arith,
  newlines-append f (b'=' ∷ (v ++ (b' ' ∷ value_list values))),
  newlines-append v (b' ' ∷ value_list values),
  newlines-value_list values,
)

-- A change prints one line, where what it is given has no newline, and returns 0.
pub update_line :
    (table key : Bytes) (values : List KvPair) (out : Bytes)
    → let (code, out') = update table key values out in
      (code ≡ ok)
      × (newlines out' ≡ newlines out + 1 + newlines table + newlines key + value_newlines values)
unfolding newlines update
update_line table key values out =
    let after_key = bracket ++ (value_list values ++ (b']' ∷ endl)) in
    let after_table = b' ' ∷ (key ++ after_key) in
    (
      refl,
      omega (
        arith,
        newlines-append out (update_word ++ (table ++ after_table)),
        newlines-append table after_table,
        newlines-append key after_key,
        newlines-append (value_list values) (b']' ∷ endl),
        newlines-value_list values,
      ),
    )

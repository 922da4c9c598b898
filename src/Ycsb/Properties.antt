-- ===== src/Ycsb/Properties.antt =====
-- workloads/YCSB-C/core/properties.h, and Trim of workloads/YCSB-C/core/utils.h. The map is a list
-- of pairs with each key once; a file that is open is its text, and reading it does not fail.
pub mod Load
use ltram_policy_bench.Prelude.{
  ℕ, List, [], ◌∷◌, Bool, true, false, ◌&&◌, ◌||◌, Option, none, some, ◌==◌, leb, if◌then◌else◌,
}
use ltram_policy_bench.Prelude.Int.{ℤ}
use ltram_policy_bench.Ycsb.Text.{Bytes, str_eq}
use ltram_policy_bench.Ycsb.Split.{split}
use ltram_policy_bench.Ycsb.StringHashtable.{find_pair, or_else}

abbrev pub Properties : Type 0
Properties = List (Bytes × Bytes)

unfoldable pub get_property : Bytes → Bytes → Properties → Bytes
get_property key default_value ps = elim (find_pair key ps) [ none ↦ default_value | some v ↦ v ]

-- `operator[]`, where `none` is the exception std::out_of_range of `at`.
unfoldable pub at : Bytes → Properties → Option Bytes
at key ps = find_pair key ps

-- `stoi(props[key])`, where `none` is an exception of either.
unfoldable pub int_at : (Bytes → Option ℤ) → Bytes → Properties → Option ℤ
int_at stoi key ps = elim (at key ps) [ none ↦ none | some v ↦ stoi v ]

unfoldable pub set_property : Bytes → Bytes → Properties → Properties
set_property key value [] = (key, value) ∷ []
set_property key value ((k, v) ∷ ps) =
    let rest = set_property key value ps in if str_eq k key then (k, value) ∷ ps else (k, v) ∷ rest

-- `isspace` in the C locale.
abbrev pub is_space : ℕ → Bool
is_space c = (leb 9 c && leb c 13) || (c == 0x20)

-- The two ends of `Trim`.
unfoldable pub trim_front : Bytes → Bytes
trim_front [] = []
trim_front (c ∷ cs) = let rest = trim_front cs in if is_space c then rest else c ∷ cs

abbrev pub unless_blank : ℕ → Bytes → Bytes
unless_blank c [] = if is_space c then [] else c ∷ []
unless_blank c (d ∷ ds) = c ∷ d ∷ ds

unfoldable pub trim_back : Bytes → Bytes
trim_back [] = []
trim_back (c ∷ cs) = unless_blank c (trim_back cs)

unfoldable pub trim : Bytes → Bytes
trim s = trim_back (trim_front s)

-- What stands before and after the first `=`.
unfoldable pub cut : Bytes → Option (Bytes × Bytes)
cut [] = none
cut (c ∷ cs) =
    let rest = cut cs in
    if c == b'='
    then some ([], cs)
    else elim rest [ none ↦ none | some (before, after) ↦ some (c ∷ before, after) ]

abbrev pub is_comment : Bytes → Bool
is_comment [] = false
is_comment (c ∷ cs) = c == b'#'

unfoldable pub load_line : Bytes → Properties → Properties
load_line line ps =
    if is_comment line
    then ps
    else elim (cut line) [ none ↦ ps | some (k, v) ↦ set_property (trim k) (trim v) ps ]

abbrev pub load_lines : List Bytes → Properties → Properties
load_lines [] ps = ps
load_lines (line ∷ lines) ps = load_lines lines (load_line line ps)

-- `Load` of a text; after a newline at its end, one more empty line is read.
unfoldable pub load_text : Bytes → Properties → Properties
load_text text ps = load_lines (split 10 text) ps

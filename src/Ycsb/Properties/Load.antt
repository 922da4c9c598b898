-- ===== src/Ycsb/Properties/Load.antt =====
-- What workloads/YCSB-C/core/properties.h reads from a file.
use ltram_policy_bench.Prelude.{
  ℕ, ◌≡◌, ◌∙◌, refl, ap, [], ◌∷◌, ◌++◌, false, ◌||◌, some, arith, if◌then◌else◌,
}
use ltram_policy_bench.Ycsb.Text.{Bytes, str_eq, str_eq_iff}
use ltram_policy_bench.Ycsb.Split.{has_byte, split, split-word}
use ltram_policy_bench.Ycsb.StringHashtable.{find_pair}
use ltram_policy_bench.Ycsb.Properties.{
  Properties, get_property, set_property, trim, cut, is_comment, load_line, load_lines, load_text,
}

-- A property that a line can hold: the key has no `=` and does not begin a comment, and neither part
-- has a newline or a space at an end.
pub record IsPlain (k v : Bytes) : Type 0 where
  pub no_comment : is_comment k ≡ false
  pub no_equals : has_byte b'=' k ≡ false
  pub one_line : (has_byte 10 k ≡ false) × (has_byte 10 v ≡ false)
  pub trimmed : (trim k ≡ k) × (trim v ≡ v)

abbrev pub ArePlain : Properties → Type 0
ArePlain [] = Unit
ArePlain ((k, v) ∷ ps) = IsPlain k v × ArePlain ps

-- The file with one line for each property.
unfoldable pub render : Properties → Bytes
render [] = []
render ((k, v) ∷ ps) = (k ++ (b'=' ∷ v)) ++ (10 ∷ render ps)

unfoldable pub set_all : Properties → Properties → Properties
set_all [] qs = qs
set_all ((k, v) ∷ ps) qs = set_all ps (set_property k v qs)

has_byte-append : (b : ℕ) (s t : Bytes) → has_byte b (s ++ t) ≡ (has_byte b s || has_byte b t)
unfolding has_byte
has_byte-append b [] t = refl
has_byte-append b (c ∷ s) t = ground (arith, has_byte-append b s t)

cut-append : (k v : Bytes) → has_byte b'=' k ≡ false → cut (k ++ (b'=' ∷ v)) ≡ some (k, v)
unfolding cut has_byte
cut-append [] v h = refl
cut-append (c ∷ k) v h = ground (arith, cut-append k v)

is_comment-append : (k v : Bytes) → is_comment k ≡ false → is_comment (k ++ (b'=' ∷ v)) ≡ false
is_comment-append [] v h = refl
is_comment-append (c ∷ k) v h = h

load_line-plain :
    (k v : Bytes) (qs : Properties)
    → IsPlain k v
    → load_line (k ++ (b'=' ∷ v)) qs ≡ set_property k v qs
unfolding load_line
load_line-plain k v qs p =
    rw (is_comment-append k v p.no_comment, cut-append k v p.no_equals, p.trimmed.0, p.trimmed.1)
      refl

line-plain : (k v : Bytes) → IsPlain k v → has_byte 10 (k ++ (b'=' ∷ v)) ≡ false
unfolding has_byte
line-plain k v p = ground (arith, has_byte-append 10 k (b'=' ∷ v), p.one_line)

load_text-nil : (qs : Properties) → load_text [] qs ≡ qs
unfolding load_text split load_line cut
load_text-nil qs = refl

-- Loading a file with one line `key=value` for each of some plain properties sets them in their
-- order, on top of the properties that were there.
pub load_text-render : (ps qs : Properties) → ArePlain ps → load_text (render ps) qs ≡ set_all ps qs
unfolding load_text render set_all
load_text-render [] qs h = load_text-nil qs
load_text-render ((k, v) ∷ ps) qs h =
    let line = k ++ (b'=' ∷ v) in
    rw (split-word 10 line (render ps) (line-plain k v h.0)) (
      ap (load_lines (split 10 (render ps))) (load_line-plain k v qs h.0)
      ∙ load_text-render ps (set_property k v qs) h.1)

pub find_pair-set_property :
    (q k v : Bytes) (ps : Properties)
    → find_pair q (set_property k v ps) ≡ (if str_eq k q then some v else find_pair q ps)
unfolding find_pair set_property
find_pair-set_property q k v [] = refl
find_pair-set_property q k v ((k', v') ∷ ps) =
    ground
      (arith, find_pair-set_property q k v ps, str_eq_iff k q, str_eq_iff k' q, str_eq_iff k' k)

-- A property that was set is read back, and no other one changes.
pub get-set_property :
    (q k v default_value : Bytes) (ps : Properties)
    → get_property q default_value (set_property k v ps)
      ≡ (if str_eq k q then v else get_property q default_value ps)
unfolding get_property
get-set_property q k v default_value ps = ground (arith, find_pair-set_property q k v ps)

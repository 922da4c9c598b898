-- ===== src/Ycsb/StringHashtable.antt =====
-- workloads/YCSB-C/lib/string_hashtable.h: the interface of the hash tables, with what its
-- implementations promise. NULL as a key is `none`; a NULL value says that the key is not there.
pub mod History
use ltram_policy_bench.Prelude.{
  ℕ, ◌+◌, ◌≤◌, ◌≡◌, List, [], ◌∷◌, Bool, Option, none, some, if◌then◌else◌, length,
}
use ltram_policy_bench.Ycsb.Text.{Bytes, str_eq}

-- The first value that a list of entries has for a key.
unfoldable pub find_pair {ℓ} : {V : Type ℓ} → Bytes → List (Bytes × V) → Option V
find_pair key [] = none
find_pair key ((k, v) ∷ es) = if str_eq k key then some v else find_pair key es

abbrev pub is_some {ℓ} : {V : Type ℓ} → Option V → Bool
is_some none = Bool.false
is_some (some _) = Bool.true

abbrev pub or_else {ℓ} : {V : Type ℓ} → Option V → Option V → Option V
or_else (some v) o = some v
or_else none o = o

pub record StringHashtable (V : Type 0) : Type 1 where
  pub Table : Type 0
  pub new : Table
  pub get : Bytes → Table → Option V
  pub insert : Option Bytes → V → Table → Bool × Table
  pub update : Bytes → V → Table → Option V × Table
  pub remove : Bytes → Table → Option V × Table
  pub entries : Option Bytes → ℕ → Table → List (Bytes × V)
  pub size : Table → ℕ
  -- What a table made by these operations satisfies.
  pub IsValid : Table → Type 0
  pub new-IsValid : IsValid new
  pub insert-IsValid : (k : Option Bytes) (v : V) (t : Table) → IsValid t → IsValid (insert k v t).1
  pub update-IsValid : (k : Bytes) (v : V) (t : Table) → IsValid t → IsValid (update k v t).1
  pub remove-IsValid : (k : Bytes) (t : Table) → IsValid t → IsValid (remove k t).1
  pub get-new : (q : Bytes) → get q new ≡ none
  pub insert_null : (v : V) (t : Table) → insert none v t ≡ (Bool.false, t)
  pub insert_result :
      (k : Bytes) (v : V) (t : Table)
      → (insert (some k) v t).0 ≡ (if is_some (get k t) then Bool.false else Bool.true)
  pub get-insert :
      (k q : Bytes) (v : V) (t : Table)
      → get q (insert (some k) v t).1 ≡ (if str_eq k q then or_else (get q t) (some v) else get q t)
  pub update_result : (k : Bytes) (v : V) (t : Table) → (update k v t).0 ≡ get k t
  pub get-update :
      (k q : Bytes) (v : V) (t : Table)
      → get q (update k v t).1
        ≡ (if str_eq k q then (if is_some (get q t) then some v else none) else get q t)
  pub remove_result : (k : Bytes) (t : Table) → (remove k t).0 ≡ get k t
  pub get-remove :
      (k q : Bytes) (t : Table)
      → IsValid t
      → get q (remove k t).1 ≡ (if str_eq k q then none else get q t)
  pub find_pair-entries :
      (q : Bytes) (n : ℕ) (t : Table)
      → IsValid t
      → size t ≤ n
      → find_pair q (entries none n t) ≡ get q t
  pub length-entries : (key : Option Bytes) (n : ℕ) (t : Table) → length (entries key n t) ≤ n
  pub size-new : size new ≡ 0
  pub size-insert :
      (k : Bytes) (v : V) (t : Table)
      → let (done, t') = insert (some k) v t in size t' ≡ size t + (if done then 1 else 0)
  pub size-update : (k : Bytes) (v : V) (t : Table) → size (update k v t).1 ≡ size t
  pub all-entries : (n : ℕ) (t : Table) → size t ≤ n → length (entries none n t) ≡ size t

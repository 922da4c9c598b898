-- ===== src/Ycsb/StlHashtable/Nodes.antt =====
-- The nodes of workloads/YCSB-C/lib/stl_hashtable.h as a list: how looking up, assigning and erasing
-- a node act on each other, where keys are compared by their hashes and their bytes.
use ltram_policy_bench.Prelude.{
  ℕ, zero, suc, ◌+◌, ◌≤◌, ◌≡◌, refl, inl, inr, Bool-cases, List, [], ◌∷◌, true, none, some, arith,
  ==_iff, if◌then◌else◌, length,
}
use ltram_policy_bench.Ycsb.Text.{Bytes, str_eq, str_eq_iff}
use ltram_policy_bench.Ycsb.HashString.{HashString, copy, wrap, equal, sdbm_hash}
use ltram_policy_bench.Ycsb.StringHashtable.{find_pair, is_some}
use ltram_policy_bench.Ycsb.StlHashtable.{find, assign, erase, collect, second}

-- A key as `copy` and `wrap` make it.
abbrev pub IsFormed : HashString → Type 0
IsFormed k = k ≡ wrap k.value

module _ (k : HashString) where
  pub equal_value : (q : Bytes) → equal k (wrap q) ≡ true → k.value ≡ q
  unfolding equal wrap
  equal_value q h = ground (arith, str_eq_iff k.value q)

  pub equal_formed : (q : Bytes) → IsFormed k → equal k (wrap q) ≡ str_eq k.value q
  unfolding equal wrap
  equal_formed q f = ground (arith, str_eq_iff k.value q, ==_iff k.hash (sdbm_hash q))

pub copy-wrap : (k : Bytes) → copy k ≡ wrap k
unfolding copy wrap
copy-wrap k = refl

pub wrap-IsFormed : (k : Bytes) → IsFormed (copy k)
unfolding copy wrap
wrap-IsFormed k = refl

pub equal-copy : (k q : Bytes) → equal (copy k) (wrap q) ≡ str_eq k q
unfolding equal copy wrap
equal-copy k q = ground (arith, str_eq_iff k q, ==_iff (sdbm_hash k) (sdbm_hash q))

module _ {ℓ} {V : Type ℓ} where
  unfoldable pub occurs : Bytes → List (HashString × V) → ℕ
  occurs q [] = 0
  occurs q ((k, v) ∷ nodes) = (if equal k (wrap q) then 1 else 0) + occurs q nodes

  pub occurs-absent :
      (q : Bytes) (nodes : List (HashString × V))
      → second (find (wrap q) nodes) ≡ none
      → occurs q nodes ≡ 0
  unfolding find occurs
  occurs-absent q [] h = refl
  occurs-absent q ((j, v) ∷ nodes) h = ground (arith, occurs-absent q nodes)

  pub absent-occurs :
      (q : Bytes) (nodes : List (HashString × V))
      → occurs q nodes ≡ 0
      → second (find (wrap q) nodes) ≡ none
  unfolding find occurs
  absent-occurs q [] h = refl
  absent-occurs q ((j, v) ∷ nodes) h = ground (arith, absent-occurs q nodes)

  module _ (k q : Bytes) where
    pub find-assign :
        (x : V) (nodes : List (HashString × V))
        → second (find (wrap q) (assign (wrap k) x nodes)) ≡ (
            if str_eq k q
            then (if is_some (second (find (wrap q) nodes)) then some x else none)
            else second (find (wrap q) nodes))
    unfolding find assign
    find-assign x [] = ground arith
    find-assign x ((j, v) ∷ nodes) =
        ground (arith, find-assign x nodes, equal_value j k, equal_value j q, str_eq_iff k q)

    pub occurs-assign :
        (x : V) (nodes : List (HashString × V))
        → occurs q (assign (wrap k) x nodes) ≡ occurs q nodes
    unfolding occurs assign
    occurs-assign x [] = refl
    occurs-assign x ((j, v) ∷ nodes) = ground (arith, occurs-assign x nodes)

    pub find-erase :
        (nodes : List (HashString × V))
        → occurs q nodes ≤ 1
        → second (find (wrap q) (erase (wrap k) nodes))
          ≡ (if str_eq k q then none else second (find (wrap q) nodes))
    unfolding find erase occurs
    find-erase [] h = ground arith
    find-erase ((j, v) ∷ nodes) h = ground (
      arith,
      find-erase nodes,
      absent-occurs q nodes,
      equal_value j k,
      equal_value j q,
      str_eq_iff k q,
    )

    pub occurs-erase-le :
        (nodes : List (HashString × V)) → occurs q (erase (wrap k) nodes) ≤ occurs q nodes
    unfolding occurs erase
    occurs-erase-le [] = omega arith
    occurs-erase-le ((j, v) ∷ nodes) = ground (arith, occurs-erase-le nodes)

  abbrev pub AllFormed : List (HashString × V) → Type 0
  AllFormed [] = Unit
  AllFormed ((k, v) ∷ nodes) = IsFormed k × AllFormed nodes

  pub formed-assign :
      (key : HashString) (x : V) (nodes : List (HashString × V))
      → AllFormed nodes
      → AllFormed (assign key x nodes)
  unfolding assign
  formed-assign key x [] h = tt
  formed-assign key x ((j, v) ∷ nodes) h = elim (Bool-cases (equal j key)) [
    | inl e ↦ rw e (h.0, h.1)
    | inr e ↦ rw e (h.0, formed-assign key x nodes h.1)
  ]

  pub formed-erase :
      (key : HashString) (nodes : List (HashString × V))
      → AllFormed nodes
      → AllFormed (erase key nodes)
  unfolding erase
  formed-erase key [] h = tt
  formed-erase key ((j, v) ∷ nodes) h = elim (Bool-cases (equal j key)) [
    | inl e ↦ rw e h.1
    | inr e ↦ rw e (h.0, formed-erase key nodes h.1)
  ]

  pub find_pair-collect :
      (q : Bytes) (n : ℕ) (nodes : List (HashString × V))
      → AllFormed nodes
      → length nodes ≤ n
      → find_pair q (collect n nodes) ≡ second (find (wrap q) nodes)
  unfolding find_pair collect find
  find_pair-collect q zero [] f h = refl
  find_pair-collect q (suc n) [] f h = refl
  find_pair-collect q zero (_ ∷ nodes) f h = absurd (omega arith)
  find_pair-collect q (suc n) ((j, v) ∷ nodes) f h =
      let ih = find_pair-collect q n nodes f.1 (omega arith) in
      let same = equal_formed j q f.0 in ground arith

  pub length-collect : (n : ℕ) (nodes : List (HashString × V)) → length (collect n nodes) ≤ n
  unfolding collect
  length-collect zero nodes = omega arith
  length-collect (suc n) [] = omega arith
  length-collect (suc n) ((j, v) ∷ nodes) = omega (arith, length-collect n nodes)

  pub length-assign :
      (k : HashString) (v : V) (nodes : List (HashString × V))
      → length (assign k v nodes) ≡ length nodes
  unfolding assign
  length-assign k v [] = refl
  length-assign k v ((j, w) ∷ nodes) = ground (arith, length-assign k v nodes)

  pub length-collect_all :
      (n : ℕ) (nodes : List (HashString × V))
      → length nodes ≤ n
      → length (collect n nodes) ≡ length nodes
  unfolding collect
  length-collect_all zero [] h = refl
  length-collect_all (suc n) [] h = refl
  length-collect_all zero (_ ∷ nodes) h = absurd (omega arith)
  length-collect_all (suc n) ((j, v) ∷ nodes) h =
      omega (arith, length-collect_all n nodes (omega arith))

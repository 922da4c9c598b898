-- ===== src/Ycsb/Clients/Puts.antt =====
-- The keys that the threads of workloads/YCSB-C/ycsbc.cc have drawn and not yet put.
use ltram_policy_bench.Prelude.{◌≡◌, List, [], ◌∷◌, ◌++◌, some, arith, inl, inr, ◌⊎◌}
use ltram_policy_bench.Ycsb.Text.{Bytes}
use ltram_policy_bench.Ycsb.Clients.{putting, Caller, AllDone}

-- A thread is about to put the record of the key.
abbrev pub Puts : Bytes → List Caller → Type 0
Puts key [] = ⊥
Puts key (x ∷ xs) = (x.call ≡ some (putting key)) ⊎ Puts key xs

pub Puts-here :
    (key : Bytes) (before after : List Caller) (x : Caller)
    → x.call ≡ some (putting key)
    → Puts key (before ++ x ∷ after)
Puts-here key [] after x h = inl h
Puts-here key (y ∷ before) after x h = inr (Puts-here key before after x h)

-- When one thread moves on, the others stay.
pub Puts-other :
    (key : Bytes) (before after : List Caller) (x y : Caller)
    → Puts key (before ++ x ∷ after)
    → (x.call ≡ some (putting key)) ⊎ Puts key (before ++ y ∷ after)
Puts-other key [] after x y (inl h) = inl h
Puts-other key [] after x y (inr h) = inr (inr h)
Puts-other key (z ∷ before) after x y (inl h) = inr (inl h)
Puts-other key (z ∷ before) after x y (inr h) = elim (Puts-other key before after x y h) [
  | inl g ↦ inl g
  | inr g ↦ inr (inr g)
]

pub Puts-AllDone : (key : Bytes) (xs : List Caller) → AllDone xs → Puts key xs → ⊥
Puts-AllDone key [] done h = h
Puts-AllDone key (x ∷ xs) (h, e, done) (inl g) = ground arith
Puts-AllDone key (x ∷ xs) (h, e, done) (inr g) = Puts-AllDone key xs done g

-- ===== src/Ycsb/Threads/Keys.antt =====
-- Which key numbers the threads of workloads/YCSB-C/ycsbc.cc load.
use mathlib.Core.List.{Perm, perm_middle, perm-cons}
use mathlib.Core.List.Perm
use mathlib.Core.Path.{subst}
use native.Mathlib.Nat.{suc-mul, div-add-mod}
use ltram_policy_bench.Prelude.{
  ℕ, zero, suc, ◌+◌, ◌*◌, ◌-◌, ◌%◌, ◌<◌, ◌≡◌, ◌∙◌, refl, sym, ap, List, [], ◌∷◌, ◌++◌, append_assoc,
  arith,
}
use ltram_policy_bench.Prelude.Int.{ℤ, rounds}
use ltram_policy_bench.Prelude.Words.{u64_mod}
use ltram_policy_bench.Ycsb.Generators.{counter_next}
use ltram_policy_bench.Ycsb.Threads.{
  ops_each, Loader, Loading, launch, launched, Step, draw, Reach, here, next,
}

-- What all threads drew, and what they have left to draw.
abbrev pub all_drawn : List Loader → List ℕ
all_drawn [] = []
all_drawn (l ∷ ls) = l.drawn ++ all_drawn ls

abbrev pub all_left : List Loader → ℕ
all_left [] = 0
all_left (l ∷ ls) = l.left + all_left ls

-- The `n` numbers from `start` on, the last one first.
unfoldable pub numbers : ℕ → ℕ → List ℕ
numbers start zero = []
numbers start (suc n) = (start + n) ∷ numbers start n

all_left-append : (ls ms : List Loader) → all_left (ls ++ ms) ≡ all_left ls + all_left ms
all_left-append [] ms = omega arith
all_left-append (l ∷ ls) ms = omega (arith, all_left-append ls ms)

all_drawn-append : (ls ms : List Loader) → all_drawn (ls ++ ms) ≡ all_drawn ls ++ all_drawn ms
all_drawn-append [] ms = refl
all_drawn-append (l ∷ ls) ms =
    ap (λ x. l.drawn ++ x) (all_drawn-append ls ms)
    ∙ sym (append_assoc l.drawn (all_drawn ls) (all_drawn ms))

launch-left : (n m : ℕ) → all_left (launch n m) ≡ n * m
unfolding launch
launch-left zero m = omega arith
launch-left (suc n) m = omega (arith, launch-left n m, suc-mul n m)

launch-drawn : (n m : ℕ) → all_drawn (launch n m) ≡ []
unfolding launch
launch-drawn zero m = refl
launch-drawn (suc n) m = launch-drawn n m

pub record IsExact (start total : ℕ) (s : Loading) : Type 0 where
  pub taken : ℕ
  pub balance : taken + all_left s.threads ≡ total
  pub counter : s.counter ≡ start + taken
  pub keys : Perm (all_drawn s.threads) (numbers start taken)

draw_perm :
    (before after : List Loader) (key left left' : ℕ) (drawn : List ℕ)
    → Perm
        (all_drawn (before ++ record { left = left; drawn = key ∷ drawn } ∷ after))
        (key ∷ all_drawn (before ++ record { left = left'; drawn = drawn } ∷ after))
draw_perm before after key left left' drawn =
    let one : Loader = record { left = left; drawn = key ∷ drawn } in
    let old : Loader = record { left = left'; drawn = drawn } in
    rw (all_drawn-append before (one ∷ after), all_drawn-append before (old ∷ after))
      (perm_middle (all_drawn before) (drawn ++ all_drawn after))

Step-IsExact :
    {start total : ℕ} {s t : Loading}
    → start + total < u64_mod
    → Step s t
    → IsExact start total s
    → IsExact start total t
unfolding counter_next numbers
Step-IsExact {start} {total} fits (draw before after counter left drawn) h =
    let one : Loader = record { left = left; drawn = counter ∷ drawn } in
    let old : Loader = record { left = suc left; drawn = drawn } in
    let now = all_left-append before (one ∷ after) in
    let was = all_left-append before (old ∷ after) in
    record {
      taken = suc h.taken;
      balance = omega (arith, h.balance, now, was);
      counter = omega (arith, h.counter, h.balance, was);
      keys = Perm.trans (draw_perm before after counter left (suc left) drawn) (
          subst
            (λ k. Perm (counter ∷ all_drawn (before ++ old ∷ after)) (k ∷ numbers start h.taken))
            h.counter ((perm-cons counter).1 h.keys));
    }

Reach-IsExact_from :
    {start total : ℕ} {s t : Loading}
    → start + total < u64_mod
    → IsExact start total s
    → Reach s t
    → IsExact start total t
Reach-IsExact_from fits h here = h
Reach-IsExact_from fits h (next r st) = Step-IsExact fits st (Reach-IsExact_from fits h r)

launched-IsExact :
    (start : ℕ) (total threads : ℤ)
    → IsExact start (rounds threads * ops_each total threads) (launched start total threads)
unfolding numbers
launched-IsExact start total threads =
    let n = rounds threads in
    let m = ops_each total threads in
    record {
      taken = 0;
      balance = omega (arith, launch-left n m);
      counter = omega arith;
      keys = rw (launch-drawn n m) (Perm.refl []);
    }

-- However the threads interleave, when all of them have finished the keys that were loaded are the
-- numbers from the first new key on, each once: as many as the record count less its remainder by
-- the number of threads, so that remainder of records is not loaded.
pub Reach-numbers :
    (start : ℕ) (total threads : ℤ) {s : Loading}
    → start + rounds total < u64_mod
    → Reach (launched start total threads) s
    → all_left s.threads ≡ 0
    → 0 < rounds threads
    → Perm (all_drawn s.threads) (numbers start (rounds total - rounds total % rounds threads))
unfolding ops_each
Reach-numbers start total threads {s} fits r finished some_thread =
    let n = rounds threads in
    let t = rounds total in
    let whole = div-add-mod t n in
    let end =
      Reach-IsExact_from {total = n * ops_each total threads} (omega (arith, whole))
        (launched-IsExact start total threads) r in
    let count : end.taken ≡ t - t % n = omega (arith, end.balance, whole) in
    subst (λ k. Perm (all_drawn s.threads) (numbers start k)) count end.keys

-- ===== src/Tests/Zipfian.antt =====
-- workloads/YCSB-C/core/zipfian_generator.h with whole numbers in place of `double`.
use ltram_policy_bench.Prelude.{ℕ, ◌+◌, ◌-◌, ◌*◌, ◌/◌, ◌^◌, ◌≡◌, refl, [], ◌∷◌, some, ltb}
use ltram_policy_bench.Ycsb.Env.{Env}
use ltram_policy_bench.Ycsb.Zipfian.{
  Zipfian, zeta_loop, zeta_from, zeta, eta_of, raise_zeta, refresh, pick, next, blank, make,
}
use ltram_policy_bench.Ycsb.Zipfian.Incremental.{
  IsCurrent, Drawn, draws, draws-Drawn, make-IsCurrent,
}

abbrev pub whole : Env
whole = record {
  Double = ℕ;
  of_u64 = λ n. n;
  to_u64 = λ d. d;
  add = λ m n. m + n;
  sub = λ m n. m - n;
  mul = λ m n. m * n;
  div = λ m n. m / n;
  pow = λ m n. m ^ n;
  lt = ltb;
  half = 0;
  Source = ℕ;
  random_double = λ r. (r, r + 1);
  uniform_int = λ lo hi r. (lo, r + 1);
  rand = λ r. (r, r + 1);
}

-- The generator of 0 to 9 with theta 0, whose zeta sum is the number of items.
abbrev pub ten : Zipfian whole
ten = record {
  num_items = 10;
  base = 0;
  theta = 0;
  zeta_n = 10;
  eta = 1;
  alpha = 1;
  zeta_2 = 2;
  n_for_zeta = 10;
  last_value = 0;
}

made : make whole 0 9 0 0 ≡ some (ten, 1)
unfolding make blank zeta zeta_from zeta_loop raise_zeta eta_of next refresh pick
made = refl

ten-IsCurrent : IsCurrent whole ten
ten-IsCurrent = make-IsCurrent whole 0 9 0 0 ten 1 made

abbrev later : Zipfian whole
later = record ten { zeta_n = 12; n_for_zeta = 12; last_value = 33; eta = 1 }

drawn : draws whole (10 ∷ 12 ∷ 11 ∷ []) ten 1 ≡ some (10 ∷ 24 ∷ 33 ∷ [], later, 4)
unfolding draws next refresh pick raise_zeta eta_of zeta_from zeta_loop
drawn = refl

draws-Drawn_example : Drawn whole (10 ∷ 12 ∷ 11 ∷ []) ten later
draws-Drawn_example =
    draws-Drawn whole (10 ∷ 12 ∷ 11 ∷ []) ten 1 (10 ∷ 24 ∷ 33 ∷ []) later 4 ten-IsCurrent drawn

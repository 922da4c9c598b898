-- ===== src/Ycsb/Zipfian.antt =====
-- workloads/YCSB-C/core/zipfian_generator.h. The mutex makes each call one step.
pub mod Incremental
use ltram_policy_bench.Prelude.{
  ℕ, zero, suc, ◌+◌, ◌-◌, ◌^◌, ◌/◌, Bool, ◌&&◌, Option, none, some, ltb, leb, if◌then◌else◌,
}
use ltram_policy_bench.Prelude.Words.{add64, sub64}
use ltram_policy_bench.Ycsb.Env.{Env}

-- UINT64_MAX >> 24
abbrev pub max_num_items : ℕ
max_num_items = (2 ^ 64 - 1) / 2 ^ 24

module _ (e : Env) where
  pub record Zipfian : Type 0 where
    pub num_items : ℕ
    pub base : ℕ
    pub theta : e.Double
    pub zeta_n : e.Double
    pub eta : e.Double
    pub alpha : e.Double
    pub zeta_2 : e.Double
    pub n_for_zeta : ℕ
    pub last_value : ℕ

  -- The loop of `Zeta`: the rounds that are left, the next index and the sum so far.
  unfoldable pub zeta_loop : e.Double → ℕ → ℕ → e.Double → e.Double
  zeta_loop theta zero i zeta = zeta
  zeta_loop theta (suc n) i zeta =
      zeta_loop theta n (i + 1) (e.add zeta (e.div (e.of_u64 1) (e.pow (e.of_u64 i) theta)))

  -- Zeta(last_num, cur_num, theta, last_zeta), and Zeta(num, theta)
  unfoldable pub zeta_from : ℕ → ℕ → e.Double → e.Double → e.Double
  zeta_from last_num cur_num theta last_zeta =
      zeta_loop theta (cur_num - last_num) (last_num + 1) last_zeta

  unfoldable pub zeta : ℕ → e.Double → e.Double
  zeta num theta = zeta_from 0 num theta (e.of_u64 0)

  -- `Eta()`
  unfoldable pub eta_of : Zipfian → e.Double
  eta_of z =
      e.div
        (e.sub (e.of_u64 1)
          (e.pow (e.div (e.of_u64 2) (e.of_u64 z.num_items)) (e.sub (e.of_u64 1) z.theta)))
        (e.sub (e.of_u64 1) (e.div z.zeta_2 z.zeta_n))

  -- `RaiseZeta`; its callers have `num` at least `n_for_zeta_`, which it asserts.
  unfoldable pub raise_zeta : ℕ → Zipfian → Zipfian
  raise_zeta num z = record z {
    zeta_n = zeta_from z.n_for_zeta num z.theta z.zeta_n;
    n_for_zeta = num;
  }

  -- The part of `Next` that recomputes zeta and eta for a larger number of items.
  unfoldable pub refresh : ℕ → Zipfian → Zipfian
  refresh num z =
      if ltb z.n_for_zeta num
      then (let z' = raise_zeta num z in record z' { eta = eta_of z' })
      else z

  -- The value for a draw `u`.
  unfoldable pub pick : ℕ → Zipfian → e.Double → ℕ
  pick num z u =
      let uz = e.mul u z.zeta_n in
      if e.lt uz (e.of_u64 1)
      then 0
      else if e.lt uz (e.add (e.of_u64 1) (e.pow e.half z.theta))
      then 1
      else e.to_u64 (
          e.add (e.of_u64 z.base) (
            e.mul (e.of_u64 num)
              (e.pow (e.add (e.sub (e.mul z.eta u) z.eta) (e.of_u64 1)) z.alpha)))

  -- `Next(num)`; `none` is a failed assertion.
  unfoldable pub next : ℕ → Zipfian → e.Source → Option (ℕ × Zipfian × e.Source)
  next num z r =
      if leb 2 num && ltb num max_num_items
      then (let z' = refresh num z in
          let (u, r') = e.random_double r in
          let v = pick num z' u in some (v, record z' { last_value = v }, r'))
      else none

  -- The fields before the first `RaiseZeta` of the constructor; `eta` and `last_value` are set
  -- later.
  unfoldable pub blank : ℕ → ℕ → e.Double → Zipfian
  blank min max theta = record {
    num_items = add64 (sub64 max min) 1;
    base = min;
    theta = theta;
    zeta_n = e.of_u64 0;
    eta = e.of_u64 0;
    alpha = e.div (e.of_u64 1) (e.sub (e.of_u64 1) theta);
    zeta_2 = zeta 2 theta;
    n_for_zeta = 0;
    last_value = 0;
  }

  -- The constructor, which draws once.
  unfoldable pub make : ℕ → ℕ → e.Double → e.Source → Option (Zipfian × e.Source)
  make min max theta r =
      let z = blank min max theta in
      if leb 2 z.num_items && ltb z.num_items max_num_items
      then (let z' = raise_zeta z.num_items z in
          elim (next z.num_items (record z' { eta = eta_of z' }) r) [
            | none ↦ none
            | some (v, z'', r') ↦ some (z'', r')
          ])
      else none

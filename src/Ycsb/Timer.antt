-- ===== src/Ycsb/Timer.antt =====
-- workloads/YCSB-C/core/timer.h
-- The clock of the C++ library is a parameter: what it reads, and the seconds from one reading to
-- another, as `duration_cast` gives them.
use ltram_policy_bench.Ycsb.Env.{Env}

pub record Clock (e : Env) : Type 1 where
  pub State : Type 0
  pub TimePoint : Type 0
  pub now : State → TimePoint × State
  pub span : TimePoint → TimePoint → e.Double

module _ (e : Env) (clock : Clock e) where
  pub record Timer : Type 0 where
    pub time : clock.TimePoint

  -- `Start`
  unfoldable pub start : clock.State → Timer × clock.State
  start s = let (t, s') = clock.now s in (record { time = t }, s')

  -- `End`
  unfoldable pub stop : Timer → clock.State → e.Double × clock.State
  stop timer s = let (t, s') = clock.now s in (clock.span timer.time t, s')

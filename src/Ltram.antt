-- ===== src/Ltram.antt =====
-- ltram_module/ltram.c: the write-fault handler and its counters.
pub mod Accounting
pub mod Cpus
use ltram_policy_bench.Prelude.{ℕ, ◌%◌, ◌^◌, ◌+◌, List, [], ◌∷◌, Bool, not, ◌==◌, if◌then◌else◌}
use ltram_policy_bench.Prelude.Int.{ℤ, pos, eqb_ℤ}
use ltram_policy_bench.Kernel.{Kernel}

-- `atomic_long_t`, read as an unsigned word.
pub record LtramStats : Type 0 where
  pub nr_repat : ℕ
  pub nr_repat_fail : ℕ
  pub nr_warn_wrong_zone : ℕ

abbrev pub zeroed : LtramStats
zeroed = record { nr_repat = 0; nr_repat_fail = 0; nr_warn_wrong_zone = 0 }

pub record VmFault : Type 0 where
  pub page : ℕ

-- The three values that the handler returns: 0, VM_FAULT_RETRY and VM_FAULT_NOPAGE.
pub data VmFaultCode : Type 0 where
  proceed retry nopage : VmFaultCode

unfoldable pub atomic_long_inc : ℕ → ℕ
atomic_long_inc n = (n + 1) % 2 ^ 64

module _ (k : Kernel) where
  pub record Machine : Type 0 where
    pub stats : LtramStats
    pub kernel : k.State

  -- `pr_warn_ratelimited` only prints.
  unfoldable pub ltram_page_mkwrite : VmFault → Machine → VmFaultCode × Machine
  unfolding atomic_long_inc
  ltram_page_mkwrite vmf m =
      let folio = k.page_folio vmf.page in
      let st = m.stats in
      if not (k.folio_zonenum folio == k.zone_ltram)
      then (
        VmFaultCode.proceed,
        record m {
          stats = record st { nr_warn_wrong_zone = atomic_long_inc st.nr_warn_wrong_zone };
        },
      )
      else let (err, s) = k.ltram_migrate_from folio m.kernel in
        if not (eqb_ℤ err (pos 0))
        then (
          VmFaultCode.retry,
          record {
            stats = record st { nr_repat_fail = atomic_long_inc st.nr_repat_fail };
            kernel = s;
          },
        )
        else (
          VmFaultCode.nopage,
          record { stats = record st { nr_repat = atomic_long_inc st.nr_repat }; kernel = s },
        )

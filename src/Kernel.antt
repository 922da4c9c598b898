-- ===== src/Kernel.antt =====
-- The kernel services that ltram_module calls. The kernel is another source tree, so they are a
-- parameter: a state and the functions and constants of <linux/mm.h>, <linux/slab.h> and
-- <linux/ltram.h>. A folio and a kernel virtual address are numbers; NULL is `none`.
use ltram_policy_bench.Prelude.{ℕ, Option, Bool}
use ltram_policy_bench.Prelude.Int.{ℤ}

pub record Kernel : Type 1 where
  pub State : Type 0
  pub zone_ltram : ℕ
  pub gfp_ltram : ℕ
  pub gfp_thisnode : ℕ
  pub gfp_kernel : ℕ
  pub gfp_highuser : ℕ
  pub page_size : ℕ
  pub page_folio : ℕ → ℕ
  pub folio_nid : ℕ → ℕ
  pub folio_zonenum : ℕ → ℕ
  -- the flags, the order and the state; the folio, if one was found, and the state after
  pub folio_alloc : ℕ → ℕ → State → Option ℕ × State
  pub folio_put : ℕ → State → State
  pub folio_address : ℕ → Option ℕ
  -- the count and the size of an element; false is NULL
  pub kmalloc_array : ℕ → ℕ → State → Bool × State
  pub kfree : State → State
  pub write_u32 : ℕ → ℕ → State → State
  pub read_u32 : ℕ → State → ℕ
  -- the address, the byte and the count
  pub memset : ℕ → ℕ → ℕ → State → State
  -- zero, or a negative error number, and the state after
  pub ltram_migrate_from : ℕ → State → ℤ × State

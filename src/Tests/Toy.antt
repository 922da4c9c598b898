-- ===== src/Tests/Toy.antt =====
-- A small kernel that runs: one LtRAM folio, number 1, and one ordinary folio, number 0, each of
-- which can be handed out while its count of free pages lasts; one word of memory.
use ltram_policy_bench.Prelude.{
  ℕ, ◌+◌, ◌-◌, ◌*◌, refl, Option, none, some, arith, ◌==◌, leb, if◌then◌else◌,
}
use ltram_policy_bench.Prelude.Int.{ℤ, pos, negsuc}
use ltram_policy_bench.Kernel.{Kernel}
use ltram_policy_bench.Smoke.Leaks.{RefCount, one}

pub record Pages : Type 0 where
  pub ltram : ℕ
  pub dram : ℕ
  pub word : ℕ
  pub refs : ℕ → ℕ

abbrev pub take_page : ℕ → Pages → Pages
take_page x s = record s { refs = λ f. s.refs f + one x f }

-- The mask 3 is GFP_LTRAM with __GFP_THISNODE.
abbrev pub toy_alloc : ℕ → ℕ → Pages → Option ℕ × Pages
toy_alloc gfp order s =
    if gfp == 3
    then (if leb 1 s.ltram
        then (some 1, record s { ltram = s.ltram - 1; refs = λ f. s.refs f + one 1 f })
        else (none, s))
    else if leb 1 s.dram
    then (some 0, record s { dram = s.dram - 1; refs = λ f. s.refs f + one 0 f })
    else (none, s)

abbrev pub toy_put : ℕ → Pages → Pages
toy_put x s =
    let refs = λ (f : ℕ). s.refs f - one x f in
    if x == 1
    then record s { ltram = s.ltram + 1; refs = refs }
    else record s { dram = s.dram + 1; refs = refs }

-- Migration fails with -EBUSY when there is no ordinary page to move to.
abbrev pub toy_migrate : ℕ → Pages → ℤ × Pages
toy_migrate folio s =
    if leb 1 s.dram
    then (pos 0, record s { dram = s.dram - 1; ltram = s.ltram + 1 })
    else (negsuc 15, s)

abbrev pub toy : Kernel
toy = record {
  State = Pages;
  zone_ltram = 4;
  gfp_ltram = 1;
  gfp_thisnode = 2;
  gfp_kernel = 4;
  gfp_highuser = 8;
  page_size = 4096;
  page_folio = λ page. page;
  folio_nid = λ x. if x == 1 then 1 else 0;
  folio_zonenum = λ x. if x == 1 then 4 else 2;
  folio_alloc = toy_alloc;
  folio_put = toy_put;
  folio_address = λ x. some (x * 4096);
  kmalloc_array = λ n size s. (leb (n * size) 4194304, s);
  kfree = λ s. s;
  write_u32 = λ kva v s. record s { word = v };
  read_u32 = λ kva s. s.word;
  memset = λ kva v n s. record s { word = v };
  ltram_migrate_from = toy_migrate;
}

unfoldable pub toy_refs : RefCount toy
toy_refs = record {
  held = λ s. s.refs;
  folio_alloc = λ gfp order s f. ground arith;
  folio_put = λ x s f. ground arith;
  kmalloc_array = λ n size s f. refl;
  kfree = λ s f. refl;
  write_u32 = λ kva v s f. refl;
  memset = λ kva v n s f. refl;
}

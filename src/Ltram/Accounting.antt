-- ===== src/Ltram/Accounting.antt =====
-- What the three counters of ltram_module/ltram.c say about the faults that were handled.
use ltram_policy_bench.Prelude.{
  ℕ, ◌+◌, ◌%◌, ◌^◌, ◌<◌, ◌≡◌, ◌↔◌, List, [], ◌∷◌, arith, ◌==◌, if◌then◌else◌, true, false, Bool,
}
use ltram_policy_bench.Prelude.Int.{pos, eqb_ℤ_iff}
use ltram_policy_bench.Kernel.{Kernel}
use ltram_policy_bench.Ltram.{LtramStats, VmFault, VmFaultCode, Machine, ltram_page_mkwrite}

abbrev pub same_code : VmFaultCode → VmFaultCode → Bool
same_code VmFaultCode.proceed VmFaultCode.proceed = true
same_code VmFaultCode.retry VmFaultCode.retry = true
same_code VmFaultCode.nopage VmFaultCode.nopage = true
same_code _ _ = false

-- How often a code was returned.
pub tally : VmFaultCode → List VmFaultCode → ℕ
tally c [] = 0
tally c (d ∷ ds) = (if same_code c d then 1 else 0) + tally c ds

-- Counters that are 64-bit words, and what the results add to them.
abbrev pub Fits : LtramStats → Type 0
Fits st = (st.nr_repat < 2 ^ 64) × (st.nr_repat_fail < 2 ^ 64) × (st.nr_warn_wrong_zone < 2 ^ 64)

abbrev pub Counts : LtramStats → List VmFaultCode → LtramStats → Type 0
Counts a cs b =
    (b.nr_repat ≡ (a.nr_repat + tally VmFaultCode.nopage cs) % 2 ^ 64)
    × (b.nr_repat_fail ≡ (a.nr_repat_fail + tally VmFaultCode.retry cs) % 2 ^ 64)
    × (b.nr_warn_wrong_zone ≡ (a.nr_warn_wrong_zone + tally VmFaultCode.proceed cs) % 2 ^ 64)

module _ (k : Kernel) where
  -- The handler on one fault after another.
  unfoldable pub serve : List VmFault → Machine k → List VmFaultCode × Machine k
  serve [] m = ([], m)
  serve (f ∷ fs) m =
      let (c, m') = ltram_page_mkwrite k f m in let (cs, m'') = serve fs m' in (c ∷ cs, m'')

  one-Counts :
      (f : VmFault) (m : Machine k)
      → Fits m.stats
      → Counts m.stats ((ltram_page_mkwrite k f m).0 ∷ []) (ltram_page_mkwrite k f m).1.stats
  unfolding ltram_page_mkwrite tally
  one-Counts f m h = ground arith

  -- Whatever faults the handler serves in a row, from counters that are 64-bit words, each counter
  -- has grown, modulo 2 ^ 64, by the number of times that its result was returned.
  pub serve-Counts :
      (fs : List VmFault) (m : Machine k)
      → Fits m.stats
      → Counts m.stats (serve fs m).0 (serve fs m).1.stats
  unfolding serve tally
  serve-Counts [] m h = omega arith
  serve-Counts (f ∷ fs) m h =
      let step = one-Counts f m h in
      let m' = (ltram_page_mkwrite k f m).1 in
      let fits : Fits m'.stats = omega arith in let ih = serve-Counts fs m' fits in omega arith

  -- The handler returns 0 exactly for a folio outside ZONE_LTRAM, and VM_FAULT_NOPAGE exactly for
  -- one inside that the kernel migrated without an error. The kernel's state is the one after the
  -- migration for a folio inside, and is untouched for a folio outside.
  pub page_mkwrite_results :
      (f : VmFault) (m : Machine k)
      → let folio = k.page_folio f.page in
        let (c, m') = ltram_page_mkwrite k f m in
        let in_ltram = (k.folio_zonenum folio ≡ k.zone_ltram) in
        ((c ≡ VmFaultCode.proceed) ↔ (¬ in_ltram))
        × ((c ≡ VmFaultCode.nopage)
            ↔ (in_ltram × ((k.ltram_migrate_from folio m.kernel).0 ≡ pos 0)))
        × (m'.kernel ≡ (
            if k.folio_zonenum folio == k.zone_ltram
            then (k.ltram_migrate_from folio m.kernel).1
            else m.kernel))
  unfolding ltram_page_mkwrite
  page_mkwrite_results f m =
      ground (arith, eqb_ℤ_iff (k.ltram_migrate_from (k.page_folio f.page) m.kernel).0 (pos 0))

-- ===== src/Ltram/Cpus.antt =====
-- The handler of ltram_module/ltram.c on many CPUs at once: each call is a thread that reads the
-- zone, migrates and adds to a counter in separate steps, interleaved with the other threads.
use ltram_policy_bench.Prelude.{
  ℕ, ◌+◌, ◌%◌, ◌^◌, ◌≡◌, ◌≢◌, refl, List, [], ◌∷◌, ◌++◌, arith, false, Bool, if◌then◌else◌,
}
use ltram_policy_bench.Prelude.Int.{ℤ, pos, eqb_ℤ}
use ltram_policy_bench.Kernel.{Kernel}
use ltram_policy_bench.Ltram.{LtramStats, VmFault, VmFaultCode, Machine, zeroed, atomic_long_inc}
use ltram_policy_bench.Ltram.Accounting.{same_code}

-- Where a call stands: before the test of the zone, before the migration of a folio, before the
-- increment for a result, or returned.
pub data Pc : Type 0 where
  enter : VmFault → Pc
  migrate : ℕ → Pc
  add : VmFaultCode → Pc
  done : VmFaultCode → Pc

-- The atomic increment that goes with a result.
unfoldable pub count : VmFaultCode → LtramStats → LtramStats
unfolding atomic_long_inc
count VmFaultCode.proceed st = record st {
  nr_warn_wrong_zone = atomic_long_inc st.nr_warn_wrong_zone;
}
count VmFaultCode.retry st = record st { nr_repat_fail = atomic_long_inc st.nr_repat_fail }
count VmFaultCode.nopage st = record st { nr_repat = atomic_long_inc st.nr_repat }

-- The result for what `ltram_migrate_from` returned.
unfoldable pub outcome : ℤ → VmFaultCode
outcome err = if eqb_ℤ err (pos 0) then VmFaultCode.nopage else VmFaultCode.retry

-- Is the call over, with this result?
abbrev pub is_done : VmFaultCode → Pc → Bool
is_done c (done d) = same_code c d
is_done c _ = false

pub returned : VmFaultCode → List Pc → ℕ
returned c [] = 0
returned c (p ∷ ps) = (if is_done c p then 1 else 0) + returned c ps

module _ (k : Kernel) where
  -- One step of one call.
  pub data Move : Machine k → Pc → Machine k → Pc → Type 0 where
    wrong_zone :
        (m : Machine k) (f : VmFault)
        → k.folio_zonenum (k.page_folio f.page) ≢ k.zone_ltram
        → Move m (enter f) m (add VmFaultCode.proceed)
    in_zone :
        (m : Machine k) (f : VmFault)
        → k.folio_zonenum (k.page_folio f.page) ≡ k.zone_ltram
        → Move m (enter f) m (migrate (k.page_folio f.page))
    migrated :
        (m : Machine k) (folio : ℕ)
        → Move m
            (migrate folio)
            (record m { kernel = (k.ltram_migrate_from folio m.kernel).1 })
            (add (outcome (k.ltram_migrate_from folio m.kernel).0))
    counted :
        (m : Machine k) (c : VmFaultCode)
        → Move m (add c) (record m { stats = count c m.stats }) (done c)

  pub record Sys : Type 0 where
    pub machine : Machine k
    pub calls : List Pc

  -- A new fault, a step of one call, or anything that the rest of the kernel does.
  pub data Step : Sys → Sys → Type 0 where
    fault : (s : Sys) (f : VmFault) → Step s (record s { calls = enter f ∷ s.calls })
    cpu :
        (before after : List Pc) {m m' : Machine k} {p p' : Pc}
        → Move m p m' p'
        → Step
            (record { machine = m; calls = before ++ p ∷ after })
            (record { machine = m'; calls = before ++ p' ∷ after })
    elsewhere :
        (s : Sys) (t : k.State) → Step s (record s { machine = record s.machine { kernel = t } })

  pub data Reach (s : Sys) : Sys → Type 0 where
    here : Reach s s
    next : {t u : Sys} → Reach s t → Step t u → Reach s u

  abbrev pub Booted : k.State → Sys
  Booted t = record { machine = record { stats = zeroed; kernel = t }; calls = [] }

  -- Each counter is the number of calls that have returned its result.
  pub record IsExact (s : Sys) : Type 0 where
    pub repat : s.machine.stats.nr_repat ≡ returned VmFaultCode.nopage s.calls % 2 ^ 64
    pub fail : s.machine.stats.nr_repat_fail ≡ returned VmFaultCode.retry s.calls % 2 ^ 64
    pub warn : s.machine.stats.nr_warn_wrong_zone ≡ returned VmFaultCode.proceed s.calls % 2 ^ 64

  returned-append :
      (c : VmFaultCode) (ps qs : List Pc) → returned c (ps ++ qs) ≡ returned c ps + returned c qs
  unfolding returned
  returned-append c [] qs = omega arith
  returned-append c (p ∷ ps) qs = omega (arith, returned-append c ps qs)

  counted-IsExact :
      (before after : List Pc) (c : VmFaultCode) (m : Machine k)
      → IsExact (record { machine = m; calls = before ++ add c ∷ after })
      → IsExact (record {
        machine = record m { stats = count c m.stats };
        calls = before ++ done c ∷ after;
      })
  unfolding returned count
  counted-IsExact before after VmFaultCode.proceed m h = omega (arith, returned-append)
  counted-IsExact before after VmFaultCode.retry m h = omega (arith, returned-append)
  counted-IsExact before after VmFaultCode.nopage m h = omega (arith, returned-append)

  Move-IsExact :
      (before after : List Pc) {m m' : Machine k} {p p' : Pc}
      → Move m p m' p'
      → IsExact (record { machine = m; calls = before ++ p ∷ after })
      → IsExact (record { machine = m'; calls = before ++ p' ∷ after })
  unfolding returned
  Move-IsExact before after (wrong_zone m f e) h = omega (arith, returned-append)
  Move-IsExact before after (in_zone m f e) h = omega (arith, returned-append)
  Move-IsExact before after (migrated m folio) h = omega (arith, returned-append)
  Move-IsExact before after (counted m c) h = counted-IsExact before after c m h

  pub Step-IsExact : {s t : Sys} → Step s t → IsExact s → IsExact t
  unfolding returned
  Step-IsExact (fault s f) h = omega arith
  Step-IsExact (cpu before after mv) h = Move-IsExact before after mv h
  Step-IsExact (elsewhere s t) h = record { repat = h.repat; fail = h.fail; warn = h.warn }

  -- From zeroed counters, however the calls on the CPUs interleave with one another and with the
  -- rest of the kernel, each counter is, modulo 2 ^ 64, the number of calls that have returned its
  -- result so far.
  pub Reach-IsExact : {t : k.State} {s : Sys} → Reach (Booted t) s → IsExact s
  unfolding returned
  Reach-IsExact here = record { repat = refl; fail = refl; warn = refl }
  Reach-IsExact (next r st) = Step-IsExact st (Reach-IsExact r)

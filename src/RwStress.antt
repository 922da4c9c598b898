-- ===== src/RwStress.antt =====
-- workloads/rwstress/ltram_rw_stress.c. The system calls and the accesses to the mapped memory are a
-- parameter; the messages are left out.
pub mod Documented
pub mod Held
pub mod Written
use ltram_policy_bench.Prelude.{
  ℕ, zero, suc, ◌+◌, ◌*◌, ◌/◌, ◌%◌, ◌^◌, Bool, Option, none, some, if◌then◌else◌,
}
use ltram_policy_bench.Prelude.Int.{ℤ, pos, to_size}
use ltram_policy_bench.Prelude.Words.{mul64}
use ltram_policy_bench.Ycsb.Text.{Bytes}

-- `open`, `mmap` give `none` and `ftruncate`, `mprotect`, `unlink` true when they fail.
pub record Os : Type 1 where
  pub State : Type 0
  pub strtol : Bytes → ℤ
  pub open_file : Bytes → State → Option ℕ × State
  pub ftruncate : ℕ → ℕ → State → Bool × State
  pub mmap : ℕ → ℕ → State → Option ℕ × State
  pub load : ℕ → State → ℕ × State
  pub mprotect : ℕ → ℕ → State → Bool × State
  pub store : ℕ → ℕ → State → State
  pub msync : ℕ → ℕ → State → State
  pub munmap : ℕ → ℕ → State → State
  pub close : ℕ → State → State
  pub unlink : Bytes → State → Bool × State

abbrev pub pgsz : ℕ
pgsz = 4096

module _ (os : Os) where
  -- The two loops over the pages: the rounds that are left, and the offset.
  unfoldable pub read_loop : ℕ → ℕ → ℕ → os.State → os.State
  read_loop zero i p s = s
  read_loop (suc n) i p s = read_loop n (i + pgsz) p (os.load (p + i) s).1

  unfoldable pub write_loop : ℕ → ℕ → ℕ → os.State → os.State
  write_loop zero i p s = s
  write_loop (suc n) i p s = write_loop n (i + pgsz) p (os.store (p + i) 0x5a s)

  -- `argv[1]`, if it is there.
  unfoldable pub page_count : Option Bytes → ℤ
  page_count none = pos 256
  page_count (some arg) = os.strtol arg

  -- From the `mmap` that succeeded on. Whether `unlink` fails is ignored.
  unfoldable pub with_mapping : Bytes → ℕ → ℕ → ℕ → os.State → ℕ × os.State
  with_mapping path len fd p s =
      let (bad, s') = os.mprotect p len (read_loop (len / pgsz) 0 p s) in
      if bad
      then (1, os.close fd (os.munmap p len s'))
      else (let w = os.munmap p len (os.msync p len (write_loop (len / pgsz) 0 p s')) in
          let (ignored, s'') = os.unlink path (os.close fd w) in (0, s''))

  -- From the `mmap` on.
  unfoldable pub map_file : Bytes → ℕ → ℕ → os.State → ℕ × os.State
  map_file path len fd s =
      let (mapped, s') = os.mmap len fd s in
      elim mapped [ none ↦ (1, os.close fd s') | some p ↦ with_mapping path len fd p s' ]

  -- `main`, for a path and what argument there is. `len` is a multiple of the page size, also where
  -- the product wraps around, so each loop has `len / 4096` rounds.
  unfoldable pub rw_stress : Bytes → Option Bytes → os.State → ℕ × os.State
  rw_stress path arg s =
      let len = mul64 (to_size (page_count arg)) pgsz in
      let (found, s₁) = os.open_file path s in
      elim found [
        | none ↦ (1, s₁)
        | some fd ↦
            let (bad, s₂) = os.ftruncate fd len s₁ in
            if bad then (1, os.close fd s₂) else map_file path len fd s₂
      ]

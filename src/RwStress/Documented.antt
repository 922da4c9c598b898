-- ===== src/RwStress/Documented.antt =====
-- What the manual says of the system calls of workloads/rwstress/ltram_rw_stress.c.
use ltram_policy_bench.Prelude.{
  ℕ, ◌≡◌, Bool, true, false, ◌&&◌, Option, none, some, ◌==◌, if◌then◌else◌,
}
use ltram_policy_bench.Ycsb.Text.{Bytes}
use ltram_policy_bench.RwStress.{Os}

-- Which descriptors are open and which mappings there are, by address and length, after one more or
-- one less.
abbrev pub put : ℕ → Bool → (ℕ → Bool) → ℕ → Bool
put n there fds x = if x == n then there else fds x

abbrev pub map : ℕ → ℕ → Bool → (ℕ → ℕ → Bool) → ℕ → ℕ → Bool
map p len there maps q l = if q == p && l == len then there else maps q l

-- A call gives nothing and changes nothing, or gives one that was not there.
abbrev pub Opened : Option ℕ → (ℕ → Bool) → (ℕ → Bool) → Type 0
Opened none fds fds' = fds' ≡ fds
Opened (some fd) fds fds' = (fds fd ≡ false) × (fds' ≡ put fd true fds)

abbrev pub Mapped : ℕ → Option ℕ → (ℕ → ℕ → Bool) → (ℕ → ℕ → Bool) → Type 0
Mapped len none maps maps' = maps' ≡ maps
Mapped len (some p) maps maps' = (maps p len ≡ false) × (maps' ≡ map p len true maps)

-- The open descriptors, the mappings, and whether a path names a file, with what the manual says
-- that the calls do to them. A failed `open` or `unlink` leaves the file as it was; `close` frees the
-- descriptor also when it reports an error; `munmap` is asked only for a mapping that is there.
pub record Documented (os : Os) : Type 0 where
  pub fds : os.State → ℕ → Bool
  pub maps : os.State → ℕ → ℕ → Bool
  pub file : os.State → Bytes → Bool
  pub open_file :
      (path : Bytes) (s : os.State)
      → let (found, s') = os.open_file path s in
        Opened found (fds s) (fds s')
        × (maps s' ≡ maps s)
        × (file s' path ≡ (elim found [ none ↦ file s path | some _ ↦ true ]))
  pub ftruncate :
      (fd len : ℕ) (s : os.State)
      → let s' = (os.ftruncate fd len s).1 in
        (fds s' ≡ fds s) × (maps s' ≡ maps s) × (file s' ≡ file s)
  pub mmap :
      (len fd : ℕ) (s : os.State)
      → let (mapped, s') = os.mmap len fd s in
        (fds s' ≡ fds s) × Mapped len mapped (maps s) (maps s') × (file s' ≡ file s)
  pub load :
      (a : ℕ) (s : os.State)
      → let s' = (os.load a s).1 in (fds s' ≡ fds s) × (maps s' ≡ maps s) × (file s' ≡ file s)
  pub mprotect :
      (p len : ℕ) (s : os.State)
      → let s' = (os.mprotect p len s).1 in
        (fds s' ≡ fds s) × (maps s' ≡ maps s) × (file s' ≡ file s)
  pub store :
      (a v : ℕ) (s : os.State)
      → let s' = os.store a v s in (fds s' ≡ fds s) × (maps s' ≡ maps s) × (file s' ≡ file s)
  pub msync :
      (p len : ℕ) (s : os.State)
      → let s' = os.msync p len s in (fds s' ≡ fds s) × (maps s' ≡ maps s) × (file s' ≡ file s)
  pub munmap :
      (p len : ℕ) (s : os.State)
      → maps s p len ≡ true
      → let s' = os.munmap p len s in
        (fds s' ≡ fds s) × (maps s' ≡ map p len false (maps s)) × (file s' ≡ file s)
  pub close :
      (fd : ℕ) (s : os.State)
      → let s' = os.close fd s in
        (fds s' ≡ put fd false (fds s)) × (maps s' ≡ maps s) × (file s' ≡ file s)
  pub unlink :
      (path : Bytes) (s : os.State)
      → let (bad, s') = os.unlink path s in
        (fds s' ≡ fds s)
        × (maps s' ≡ maps s)
        × (file s' path ≡ (if bad then file s path else false))

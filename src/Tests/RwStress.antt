-- ===== src/Tests/RwStress.antt =====
-- workloads/rwstress/ltram_rw_stress.c over a small machine, and memory that is a function.
use ltram_policy_bench.Prelude.{
  ℕ, ◌-◌, ◌≡◌, refl, [], ◌∷◌, Bool, true, false, Option, none, some, arith, ◌||◌, ◌==◌,
  if◌then◌else◌,
}
use ltram_policy_bench.Prelude.Int.{pos}
use ltram_policy_bench.Ycsb.Text.{Bytes, str_eq, str_eq_iff}
use ltram_policy_bench.RwStress.{Os, rw_stress}
use ltram_policy_bench.RwStress.Documented.{put, map, Opened, Mapped, Documented}
use ltram_policy_bench.RwStress.Held.{Ends, rw_stress_held}
use ltram_policy_bench.RwStress.Written.{Memory}

record Machine : Type 0 where
  fds : ℕ → Bool
  maps : ℕ → ℕ → Bool
  files : Bytes → Bool
  memory : ℕ → ℕ

abbrev name : Bytes → Bool → (Bytes → Bool) → Bytes → Bool
name path there files q = if str_eq q path then there else files q

abbrev open_at : Bool → ℕ → Bytes → Machine → Option ℕ × Machine
open_at true fd path s = (none, s)
open_at false fd path s =
    (some fd, record s { fds = put fd true s.fds; files = name path true s.files })

abbrev map_at : Bool → ℕ → ℕ → Machine → Option ℕ × Machine
map_at true p len s = (none, s)
map_at false p len s = (some p, record s { maps = map p len true s.maps })

-- Only the empty path cannot be removed.
abbrev remove : Bytes → Machine → Bool × Machine
remove [] s = (true, s)
remove (b ∷ bs) s = (false, record s { files = name (b ∷ bs) false s.files })

-- A file opens as descriptor 3 and a mapping is at 100, unless they are taken; a mapping of two pages
-- fails, and so does `mprotect` of one page.
abbrev machine : Os
machine = record {
  State = Machine;
  strtol = λ s. elim s [ [] ↦ pos 0 | c ∷ _ ↦ pos (c - 0x30) ];
  open_file = λ path s. open_at (s.fds 3) 3 path s;
  ftruncate = λ fd len s. (false, s);
  mmap = λ len fd s. map_at (len == 8192 || s.maps 100 len) 100 len s;
  load = λ a s. (s.memory a, s);
  mprotect = λ p len s. (len == 4096, s);
  store = λ a v s. record s { memory = λ x. if x == a then v else s.memory x };
  msync = λ p len s. s;
  munmap = λ p len s. record s { maps = map p len false s.maps };
  close = λ fd s. record s { fds = put fd false s.fds };
  unlink = remove;
}

open_at-Opened :
    (taken : Bool) (fd : ℕ) (path : Bytes) (s : Machine)
    → s.fds fd ≡ taken
    → let (found, s') = open_at taken fd path s in
      Opened found s.fds s'.fds
      × (s'.maps ≡ s.maps)
      × (s'.files path ≡ (elim found [ none ↦ s.files path | some _ ↦ true ]))
open_at-Opened true fd path s h = (refl, refl, refl)
open_at-Opened false fd path s h = ((h, refl), refl, ground (arith, str_eq_iff path path))

map_at-Mapped :
    (bad : Bool) (p len : ℕ) (s : Machine)
    → (bad ≡ false → s.maps p len ≡ false)
    → let (mapped, s') = map_at bad p len s in
      (s'.fds ≡ s.fds) × Mapped len mapped s.maps s'.maps × (s'.files ≡ s.files)
map_at-Mapped true p len s h = (refl, refl, refl)
map_at-Mapped false p len s h = (refl, (h refl, refl), refl)

remove-file :
    (path : Bytes) (s : Machine)
    → let (bad, s') = remove path s in
      (s'.fds ≡ s.fds)
      × (s'.maps ≡ s.maps)
      × (s'.files path ≡ (if bad then s.files path else false))
remove-file [] s = (refl, refl, refl)
remove-file (b ∷ bs) s = (refl, refl, ground (arith, str_eq_iff (b ∷ bs) (b ∷ bs)))

abbrev documented : Documented machine
documented = record {
  fds = λ s. s.fds;
  maps = λ s. s.maps;
  file = λ s. s.files;
  open_file = λ path s. open_at-Opened (s.fds 3) 3 path s refl;
  ftruncate = λ fd len s. (refl, refl, refl);
  mmap = λ len fd s. map_at-Mapped (len == 8192 || s.maps 100 len) 100 len s (λ e. ground arith);
  load = λ a s. (refl, refl, refl);
  mprotect = λ p len s. (refl, refl, refl);
  store = λ a v s. (refl, refl, refl);
  msync = λ p len s. (refl, refl, refl);
  munmap = λ p len s there. (refl, refl, refl);
  close = λ fd s. (refl, refl, refl);
  unlink = remove-file;
}

abbrev memory_of : Memory machine
memory_of = record { byte = λ x s. s.memory x; store = λ a v x s. refl }

abbrev idle : Machine
idle = record { fds = λ x. x == 1; maps = λ p len. p == 7; files = λ path. false; memory = λ x. 0 }

abbrev path : Bytes
path = b'd' ∷ []

-- With three pages no call fails, and the file is removed.
rw_stress_held_example :
    let (code, s') = rw_stress machine path (some (b'3' ∷ [])) idle in
    (s'.fds ≡ idle.fds) × (s'.maps ≡ idle.maps) × Ends machine documented path true (code, s')
rw_stress_held_example = rw_stress_held machine documented path (some (b'3' ∷ [])) idle

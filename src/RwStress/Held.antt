-- ===== src/RwStress/Held.antt =====
-- What workloads/rwstress/ltram_rw_stress.c leaves behind.
use mathlib.Core.Path.{fun_ext, subst}
use ltram_policy_bench.Prelude.{
  ℕ, zero, suc, ◌+◌, ◌/◌, ◌≡◌, ◌∙◌, refl, ap, Bool, true, false, Option, none, some, arith,
  if◌then◌else◌, inl, inr, ◌⊎◌, Option-cases, Bool-cases,
}
use ltram_policy_bench.Prelude.Int.{to_size}
use ltram_policy_bench.Prelude.Words.{mul64}
use ltram_policy_bench.Ycsb.Text.{Bytes}
use ltram_policy_bench.RwStress.{
  Os, pgsz, read_loop, write_loop, page_count, with_mapping, map_file, rw_stress,
}
use ltram_policy_bench.RwStress.Documented.{put, map, Opened, Mapped, Documented}

module _ (os : Os) (c : Documented os) where
  -- The three of them stay.
  abbrev Same : os.State → os.State → Type 0
  Same s s' = (c.fds s' ≡ c.fds s) × (c.maps s' ≡ c.maps s) × (c.file s' ≡ c.file s)

  Same-trans : {s t u : os.State} → Same s t → Same t u → Same s u
  Same-trans h k = (k.0 ∙ h.0, k.1 ∙ h.1, k.2 ∙ h.2)

  read_loop-Same : (n i p : ℕ) (s : os.State) → Same s (read_loop os n i p s)
  unfolding read_loop
  read_loop-Same zero i p s = (refl, refl, refl)
  read_loop-Same (suc n) i p s =
      Same-trans (c.load (p + i) s) (read_loop-Same n (i + pgsz) p (os.load (p + i) s).1)

  write_loop-Same : (n i p : ℕ) (s : os.State) → Same s (write_loop os n i p s)
  unfolding write_loop
  write_loop-Same zero i p s = (refl, refl, refl)
  write_loop-Same (suc n) i p s =
      Same-trans (c.store (p + i) 0x5a s) (write_loop-Same n (i + pgsz) p (os.store (p + i) 0x5a s))

  put-back : (n : ℕ) (fds : ℕ → Bool) → fds n ≡ false → put n false (put n true fds) ≡ fds
  put-back n fds h = fun_ext (λ x. ground arith)

  map-back :
      (p len : ℕ) (maps : ℕ → ℕ → Bool)
      → maps p len ≡ false
      → map p len false (map p len true maps) ≡ maps
  map-back p len maps h = fun_ext (λ q. fun_ext (λ l. ground arith))

  -- The file is gone, or the last call was to unlink it, and failed.
  abbrev pub Gone : Bytes → os.State → Type 0
  Gone path s =
      (c.file s path ≡ false)
      ⊎ ((t : os.State) × (os.unlink path t ≡ (true, s)) × (c.file s path ≡ true))

  -- What is left of the file for each of the two codes, where `there` says if it was there.
  abbrev pub Ends : Bytes → Bool → ℕ × os.State → Type 0
  Ends path there (code, s) = ((code ≡ 0) × Gone path s) ⊎ ((code ≡ 1) × (c.file s path ≡ there))

  fails-Ends :
      (path : Bytes) (there : Bool) (s : os.State) → c.file s path ≡ there → Ends path there (1, s)
  fails-Ends path there s h = inr (refl, h)

  unlink-Gone :
      (path : Bytes) (s : os.State) → c.file s path ≡ true → Gone path (os.unlink path s).1
  unlink-Gone path s h =
      let law = (c.unlink path s).2 in
      elim (Bool-cases (os.unlink path s).0) [
        | inl e ↦ inr (s, ground arith, ground (arith, law))
        | inr e ↦ inl (ground (arith, law))
      ]

  -- The mapping goes and the descriptor is closed.
  unmapped-Held :
      (path : Bytes) (len fd p : ℕ) (s t : os.State)
      → c.maps s p len ≡ true
      → Same s t
      → let u = os.close fd (os.munmap p len t) in
        (c.fds u ≡ put fd false (c.fds s))
        × (c.maps u ≡ map p len false (c.maps s))
        × (c.file u path ≡ c.file s path)
  unmapped-Held path len fd p s t mapped same =
      let here : c.maps t p len ≡ true = ap (λ m. m p len) same.1 ∙ mapped in
      let (f₁, m₁, l₁) = c.munmap p len t here in
      let (f₂, m₂, l₂) = c.close fd (os.munmap p len t) in
      (
        f₂ ∙ ap (put fd false) (f₁ ∙ same.0),
        m₂ ∙ m₁ ∙ ap (map p len false) same.1,
        ap (λ g. g path) (l₂ ∙ l₁ ∙ same.2),
      )

  mapping-Held :
      (path : Bytes) (len fd p : ℕ) (s : os.State)
      → c.maps s p len ≡ true
      → c.file s path ≡ true
      → let (code, s') = with_mapping os path len fd p s in
        (c.fds s' ≡ put fd false (c.fds s))
        × (c.maps s' ≡ map p len false (c.maps s))
        × Ends path true (code, s')
  unfolding with_mapping
  mapping-Held path len fd p s mapped there =
      let n = len / pgsz in
      let s₁ = read_loop os n 0 p s in
      let s₂ = (os.mprotect p len s₁).1 in
      let same₂ = Same-trans (read_loop-Same n 0 p s) (c.mprotect p len s₁) in
      elim (Bool-cases (os.mprotect p len s₁).0) [
        | inl e ↦
            let (f, m, l) = unmapped-Held path len fd p s s₂ mapped same₂ in
            rw e (f, m, fails-Ends path true _ (l ∙ there))
        | inr e ↦
            let w = os.msync p len (write_loop os n 0 p s₂) in
            let same₃ =
              Same-trans same₂
                (Same-trans (write_loop-Same n 0 p s₂) (c.msync p len (write_loop os n 0 p s₂))) in
            let (f, m, l) = unmapped-Held path len fd p s w mapped same₃ in
            let closed = os.close fd (os.munmap p len w) in
            let law = c.unlink path closed in
            rw e (law.0 ∙ f, law.1 ∙ m, inl (refl, unlink-Gone path closed (l ∙ there)))
      ]

  file-Held :
      (path : Bytes) (len fd : ℕ) (s : os.State)
      → c.file s path ≡ true
      → let (code, s') = map_file os path len fd s in
        (c.fds s' ≡ put fd false (c.fds s)) × (c.maps s' ≡ c.maps s) × Ends path true (code, s')
  unfolding map_file
  file-Held path len fd s there =
      let s' = (os.mmap len fd s).1 in
      let (f, m, l) = c.mmap len fd s in
      elim (Option-cases (os.mmap len fd s).0) [
        | inl e ↦
            let (f', m', l') = c.close fd s' in
            let same : c.maps s' ≡ c.maps s = ground arith in
            rw (e, map_file)
              (
                f' ∙ ap (put fd false) f,
                m' ∙ same,
                fails-Ends path true (os.close fd s') (ap (λ g. g path) (l' ∙ l) ∙ there),
              )
        | inr (p, e) ↦
            let new : (c.maps s p len ≡ false) × (c.maps s' ≡ map p len true (c.maps s)) =
              subst (λ o. Mapped len o (c.maps s) (c.maps s')) e m in
            let mapped : c.maps s' p len ≡ true = ap (λ g. g p len) new.1 ∙ ground arith in
            let (f', m', ends) =
              mapping-Held path len fd p s' mapped (ap (λ g. g path) l ∙ there) in
            rw (e, map_file)
              (
                f' ∙ ap (put fd false) f,
                m' ∙ ap (map p len false) new.1 ∙ map-back p len (c.maps s) new.0,
                ends,
              )
      ]

  -- From `ftruncate` on.
  opened-Held :
      (path : Bytes) (len fd : ℕ) (s s₁ : os.State)
      → c.fds s fd ≡ false
      → c.fds s₁ ≡ put fd true (c.fds s)
      → c.maps s₁ ≡ c.maps s
      → c.file s₁ path ≡ true
      → let (bad, s₂) = os.ftruncate fd len s₁ in
        let (code, s') = if bad then (1, os.close fd s₂) else map_file os path len fd s₂ in
        (c.fds s' ≡ c.fds s) × (c.maps s' ≡ c.maps s) × Ends path true (code, s')
  opened-Held path len fd s s₁ closed now maps there =
      let s₂ = (os.ftruncate fd len s₁).1 in
      let (f, m, l) = c.ftruncate fd len s₁ in
      let there₂ : c.file s₂ path ≡ true = ap (λ g. g path) l ∙ there in
      let back : put fd false (c.fds s₂) ≡ c.fds s =
        ap (put fd false) (f ∙ now) ∙ put-back fd (c.fds s) closed in
      elim (Bool-cases (os.ftruncate fd len s₁).0) [
        | inl e ↦
            let (f', m', l') = c.close fd s₂ in
            rw e (
              f' ∙ back,
              m' ∙ m ∙ maps,
              fails-Ends path true (os.close fd s₂) (ap (λ g. g path) l' ∙ there₂),
            )
        | inr e ↦
            let (f', m', ends) = file-Held path len fd s₂ there₂ in
            rw e (f' ∙ back, m' ∙ m ∙ maps, ends)
      ]

  -- With system calls that do what the manual says of descriptors, mappings and the file's name, the
  -- same descriptors are open and the same mappings are there when the program ends as when it began,
  -- on every path. When it returns 0, the backing file is gone, or the last call was to unlink it and
  -- failed; otherwise it returns 1, and the file is left behind if it was opened, and as it was if
  -- not.
  pub rw_stress_held :
      (path : Bytes) (arg : Option Bytes) (s : os.State)
      → let (code, s') = rw_stress os path arg s in
        let found = (os.open_file path s).0 in
        (c.fds s' ≡ c.fds s)
        × (c.maps s' ≡ c.maps s)
        × Ends path (elim found [ none ↦ c.file s path | some _ ↦ true ]) (code, s')
  unfolding rw_stress
  rw_stress_held path arg s =
      let len = mul64 (to_size (page_count os arg)) pgsz in
      let s₁ = (os.open_file path s).1 in
      let (f, m, l) = c.open_file path s in
      elim (Option-cases (os.open_file path s).0) [
        | inl e ↦
            let none_open : c.fds s₁ ≡ c.fds s = subst (λ o. Opened o (c.fds s) (c.fds s₁)) e f in
            rw (e, rw_stress) (none_open, m, fails-Ends path (c.file s path) s₁ (l ∙ rw e refl))
        | inr (fd, e) ↦
            let new : (c.fds s fd ≡ false) × (c.fds s₁ ≡ put fd true (c.fds s)) =
              subst (λ o. Opened o (c.fds s) (c.fds s₁)) e f in
            let there : c.file s₁ path ≡ true = l ∙ rw e refl in
            rw (e, rw_stress) (opened-Held path len fd s s₁ new.0 new.1 m there)
      ]

-- ===== src/Tests/Numa.antt =====
-- The allocations of workloads/matmul/matrix_multiply.c over a list of live addresses.
use ltram_policy_bench.Prelude.{
  ℕ, suc, ◌+◌, ◌-◌, ◌*◌, ◌≡◌, refl, false, Option, none, some, ◌==◌, if◌then◌else◌,
}
use ltram_policy_bench.Prelude.Int.{pos}
use ltram_policy_bench.Matmul.{Floats}
use ltram_policy_bench.Matmul.Numa.{Numa, numa_mm_repeat}
use ltram_policy_bench.Matmul.Numa.Freed.{Live, given, numa_mm_repeat_held}

-- The allocations that were made, and how many are live at an address. The third one fails.
record Heap : Type 0 where
  made : ℕ
  live : ℕ → ℕ

abbrev fresh : Heap → Option ℕ
fresh s = if s.made == 2 then none else some s.made

abbrev numbers : Floats
numbers = record { Float = ℕ; add = λ a b. a + b; mul = λ a b. a * b; zeroes = 0 }

abbrev heap : Numa numbers
heap = record {
  State = Heap;
  unavailable = λ s. false;
  alloc_onnode = λ bytes node s.
      (fresh s, record { made = suc s.made; live = λ x. s.live x + given (fresh s) x });
  free = λ p bytes s. record s { live = λ x. s.live x - (if p == x then 1 else 0) };
  srand_time = λ s. s;
  store_rand = λ p i s. s;
  mprotect_read = λ p bytes s. s;
  memset = λ p v bytes s. s;
  array = λ p s i. 0;
  write_array = λ p v s. s;
}

abbrev live_of : Live numbers heap
live_of = record {
  live = λ s x. s.live x;
  alloc_onnode = λ bytes node s x. refl;
  free = λ p bytes s x. refl;
  srand_time = λ s x. refl;
  store_rand = λ p i s x. refl;
  mprotect_read = λ p bytes s x. refl;
  memset = λ p v bytes s x. refl;
  write_array = λ p v s x. refl;
}

abbrev start : Heap
start = record { made = 0; live = λ x. 0 }

numa_mm_repeat_held_example : (numa_mm_repeat numbers heap (pos 10) start).live 1 ≡ 0
numa_mm_repeat_held_example = numa_mm_repeat_held numbers heap live_of (pos 10) start 1

-- ===== src/Tests/Matmul.antt =====
-- workloads/matmul/matrix_multiply.c over the natural numbers.
use ltram_policy_bench.Prelude.{ℕ, ◌+◌, ◌*◌, ◌≡◌, refl, arith}
use ltram_policy_bench.Matmul.{Floats, side, matmul, j_loop}
use ltram_policy_bench.Matmul.Product.{dot, matmul-dot}

abbrev numbers : Floats
numbers = record { Float = ℕ; add = λ m n. m + n; mul = λ m n. m * n; zeroes = 0 }

-- Three columns of a row, each with 2 times the number below added.
j_loop_runs : j_loop numbers 3 0 0 1 2 (λ x. x) (λ x. 7) 1 ≡ 7 + 2 * 1025
unfolding j_loop
j_loop_runs = refl

matmul-dot_example :
    matmul numbers (λ x. 0) (λ x. x + 1) (λ x. x) (5 * side + 6)
    ≡ dot numbers side 0 5 6 (λ x. x + 1) (λ x. x) 0
matmul-dot_example =
    matmul-dot numbers (λ x. 0) (λ x. x + 1) (λ x. x) 5 6 (omega arith) (omega arith)

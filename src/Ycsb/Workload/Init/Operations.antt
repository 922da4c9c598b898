-- ===== src/Ycsb/Workload/Init/Operations.antt =====
-- Which operations workloads/YCSB-C/core/core_workload.cc lets its workload draw.
use ltram_policy_bench.Prelude.{◌≡◌, List, [], ◌∷◌, ◌++◌, true, some, inl, inr, Bool-cases, All}
use ltram_policy_bench.Ycsb.Env.{Env}
use ltram_policy_bench.Ycsb.Properties.{Properties}
use ltram_policy_bench.Ycsb.Generators.{DiscreteGenerator, add_value, discrete_next}
use ltram_policy_bench.Ycsb.Generators.Bounds.{IsAmong, discrete_next-IsAmong}
use ltram_policy_bench.Ycsb.Workload.{Operation}
use ltram_policy_bench.Ycsb.Workload.Init.{Reader, Mix, add_positive, operations}

module _ (e : Env) (rd : Reader e) (ps : Properties) where
  -- The proportion of an operation.
  abbrev pub share : Mix e rd ps → Operation → e.Double
  share m Operation.read = m.read
  share m Operation.update = m.update
  share m Operation.insert = m.insert
  share m Operation.scan = m.scan
  share m Operation.read_modify_write = m.read_modify_write

  -- Every value in the list has a positive proportion.
  abbrev pub ArePositive : Mix e rd ps → List (Operation × e.Double) → Type 0
  ArePositive m = All (λ p. e.lt (e.of_u64 0) (share m p.0) ≡ true)

  snoc-ArePositive :
      (m : Mix e rd ps) (ops : List (Operation × e.Double)) (op : Operation) (p : e.Double)
      → ArePositive m ops
      → e.lt (e.of_u64 0) (share m op) ≡ true
      → ArePositive m (ops ++ ((op, p) ∷ []))
  snoc-ArePositive m [] op p h k = (k, tt)
  snoc-ArePositive m (o ∷ ops) op p h k = (h.0, snoc-ArePositive m ops op p h.1 k)

  add-ArePositive :
      (m : Mix e rd ps) (op : Operation) (d : DiscreteGenerator e Operation)
      → ArePositive m d.values
      → ArePositive m (add_positive e rd ps op (share m op) d).values
  unfolding add_value
  add-ArePositive m op d h = elim (Bool-cases (e.lt (e.of_u64 0) (share m op))) [
    | inl k ↦ rw k (snoc-ArePositive m d.values op (share m op) h k)
    | inr k ↦ rw k h
  ]

  operations-ArePositive : (m : Mix e rd ps) → ArePositive m (operations e rd ps m).values
  unfolding operations
  operations-ArePositive m =
      let add = add-ArePositive m in
      let none_yet : DiscreteGenerator e Operation = record { values = []; sum = e.of_u64 0 } in
      let d₁ = add_positive e rd ps Operation.read m.read none_yet in
      let d₂ = add_positive e rd ps Operation.update m.update d₁ in
      let d₃ = add_positive e rd ps Operation.insert m.insert d₂ in
      let d₄ = add_positive e rd ps Operation.scan m.scan d₃ in
      add Operation.read_modify_write d₄ (
        add Operation.scan d₃
          (add Operation.insert d₂ (add Operation.update d₁ (add Operation.read none_yet tt))))

  among-ArePositive :
      (m : Mix e rd ps) (op : Operation) (ops : List (Operation × e.Double))
      → IsAmong e op ops
      → ArePositive m ops
      → e.lt (e.of_u64 0) (share m op) ≡ true
  among-ArePositive m op [] i h = absurd i
  among-ArePositive m op ((o, p) ∷ ops) (inl same) h = rw same h.0
  among-ArePositive m op ((o, p) ∷ ops) (inr later) h = among-ArePositive m op ops later h.1

  -- An operation that the workload draws has a positive proportion in its properties: a proportion
  -- of zero rules the operation out.
  pub discrete_next-operations :
      (m : Mix e rd ps) (r : e.Source) (op : Operation)
      → (discrete_next e (operations e rd ps m) r).0 ≡ some op
      → e.lt (e.of_u64 0) (share m op) ≡ true
  discrete_next-operations m r op h =
      let d = operations e rd ps m in
      among-ArePositive m op d.values (discrete_next-IsAmong e d r op h) (operations-ArePositive m)

-- ===== src/VarHeap/Unwound.antt =====
-- The candidates after backtracking (source/library/src/kmx/sat/cdcl/solver_core.cpp, `backtrack`):
-- what source/library/inc/kmx/sat/cdcl/var_heap.hpp says of the search.
use kmx_sat.Base.{
  ℕ, ◌+◌, ◌≡◌, ◌⊎◌, ◌<◌, subst, inl, inr, true, List, [], ◌∷◌, if_cases, arith, leb, ◌==◌,
  Bool-cases, drop, reverse, Entry, here, there,
}
use kmx_sat.Literal.{Literal, variable_of, negated}
use kmx_sat.SolverCore.{Value, unassigned, SolverCore, value_of, trail_begin_of}
use kmx_sat.SolverCore.Backjump.{unassign_values, requeue, unwind, backtrack}
use kmx_sat.VarHeap.{Scores, VarHeap, contains, branching_heap}
use kmx_sat.VarHeap.Order.{IsLinear}
use kmx_sat.VarHeap.Candidates.{IsHeap, requeue-IsHeap}

unassigned-cases :
    (lits : List Literal) (values : ℕ → Value) (l : Literal)
    → unassign_values values lits l.raw ≡ unassigned
    → (values l.raw ≡ unassigned) ⊎ ((x : Literal) × Entry x lits × (variable_of x ≡ variable_of l))
unfolding unassign_values negated variable_of
unassigned-cases [] values l h = inl h
unassigned-cases (lit ∷ lits) values l h = elim (unassigned-cases lits _ l h) [
  | inr (x, e, same) ↦ inr (x, there e, same)
  | inl was ↦ elim (Bool-cases (variable_of lit == variable_of l)) [
    | inl same ↦ inr (lit, here, ground arith)
    | inr other ↦ inl (ground arith)
  ]
]

-- Every unassigned variable is a candidate (the variables are numbered from 1).
pub record IsCovering {S : Type 0} (order : Scores S) (s : SolverCore (VarHeap S)) : Type 0 where
  pub heap : IsHeap order s.heap
  pub covers :
      (l : Literal)
      → 0 < variable_of l
      → variable_of l < s.variable_count + 1
      → value_of s l ≡ unassigned
      → contains s.heap (variable_of l) ≡ true

module _ {S : Type 0} (order : Scores S) (linear : IsLinear order) where
  unwind-IsCovering :
      (s : SolverCore (VarHeap S)) (target begin : ℕ)
      → IsCovering order s
      → IsCovering order (unwind (branching_heap order) s target begin)
  unfolding unwind
  unwind-IsCovering s target begin covering =
      let undone = reverse (drop begin s.trail) in
      let (a, b, c) = requeue-IsHeap order linear undone s.heap (IsCovering.heap covering) in
      record {
        heap = a;
        covers = λ l some_variable inside free. elim (unassigned-cases undone s.values l free) [
          | inl before ↦
              c (variable_of l) (IsCovering.covers covering l some_variable inside before)
          | inr (x, e, same) ↦
              subst (λ (v : ℕ). contains (requeue (branching_heap order) s.heap undone) v ≡ true)
                same (b x e)
        ];
      }

  -- Where the heap is in order and holds every unassigned variable, it does so after backtracking to
  -- any level, provided that the comparison of scores is a linear order.
  pub backtrack-IsCovering :
      (s : SolverCore (VarHeap S)) (target : ℕ)
      → IsCovering order s
      → IsCovering order (backtrack (branching_heap order) s target)
  unfolding backtrack
  backtrack-IsCovering s target covering =
      if_cases (IsCovering order) (leb s.level target) (λ low. covering)
        (λ high. unwind-IsCovering s target (trail_begin_of s.control target) covering)

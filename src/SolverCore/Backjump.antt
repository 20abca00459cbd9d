-- ===== src/SolverCore/Backjump.antt =====
-- Backtracking (source/library/src/kmx/sat/cdcl/solver_core.cpp, `backtrack`) over the interface of
-- the branching heap (source/library/inc/kmx/sat/cdcl/var_heap.hpp).
use kmx_sat.Base.{ℕ, ◌+◌, Bool, List, [], ◌∷◌, ltb, leb, if◌then◌else◌, take, drop, put, reverse}
use kmx_sat.Literal.{Variable, Literal, variable_of, negated}
use kmx_sat.SolverCore.{Value, unassigned, SolverCore, trail_begin_of}

pub record BranchingHeap (H : Type 0) : Type 0 where
  pub contains : H → Variable → Bool
  pub push : H → Variable → H

-- The loop over the trail back to a place writes `values_` and the heap, neither of which it reads
-- for the other: one function each.
unfoldable pub unassign_values : (ℕ → Value) → List Literal → ℕ → Value
unassign_values values [] = values
unassign_values values (lit ∷ lits) =
    unassign_values (put (put values lit.raw unassigned) (negated lit).raw unassigned) lits

module _ {H : Type 0} (heap : BranchingHeap H) where
  unfoldable pub requeue : H → List Literal → H
  requeue h [] = h
  requeue h (lit ∷ lits) =
      requeue
        (if BranchingHeap.contains heap h (variable_of lit)
          then h
          else BranchingHeap.push heap h (variable_of lit))
        lits

  unfoldable pub unwind : SolverCore H → ℕ → ℕ → SolverCore H
  unwind s target begin =
      let undone = reverse (drop begin s.trail) in
      record s {
        values = unassign_values s.values undone;
        heap = requeue s.heap undone;
        trail = take begin s.trail;
        propagated = if ltb begin s.propagated then begin else s.propagated;
        control = take (target + 1) s.control;
        level = target;
      }

  unfoldable pub backtrack : SolverCore H → ℕ → SolverCore H
  backtrack s target =
      if leb s.level target then s else unwind s target (trail_begin_of s.control target)

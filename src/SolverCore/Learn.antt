-- ===== src/SolverCore/Learn.antt =====
-- Learning a clause (source/library/src/kmx/sat/cdcl/solver_core.cpp, `learn_clause`): the clause that
-- conflict analysis left in `learned_` gets the reference `ref` from the clause database. The header
-- of the clause, the journal of proofs and the statistics are left out.
use kmx_sat.Base.{ℕ, ◌+◌, ◌≤◌, ◌<◌, ◌≡◌, some, List, [], ◌∷◌, put, Entry}
use kmx_sat.Literal.{Literal, variable_of}
use kmx_sat.Analyzer.Marking.{Distinct}
use kmx_sat.SolverCore.{falsified, SolverCore, value_of, assign}
use kmx_sat.SolverCore.Setup.{attach_clause_for_propagation}
use kmx_sat.SolverCore.Backjump.{BranchingHeap, backtrack}

module _ {H : Type 0} where
  -- The level of the second literal, and the root for a unit.
  unfoldable pub backjump_level : SolverCore H → List Literal → ℕ
  backjump_level s [] = 0
  backjump_level s (u ∷ []) = 0
  backjump_level s (u ∷ v ∷ rest) = s.levels (variable_of v)

  unfoldable pub add_clause : SolverCore H → ℕ → List Literal → SolverCore H
  add_clause s ref c = record s { clauses = put s.clauses ref c }

  unfoldable pub assert_first : SolverCore H → ℕ → List Literal → SolverCore H
  assert_first s ref [] = s
  assert_first s ref (u ∷ rest) = assign s u (some ref)

unfoldable pub learn_clause :
    {H : Type 0} → BranchingHeap H → SolverCore H → ℕ → List Literal → SolverCore H
learn_clause heap s ref learned =
    assert_first
      (attach_clause_for_propagation
        (add_clause (backtrack heap s (backjump_level s learned)) ref learned) ref)
      ref learned

-- What analysis leaves: a clause that all of the trail falsifies, with one literal of the current
-- level, the first; the second, if there is one, is on the highest level of the rest.
pub record IsLearnable {H : Type 0} (s : SolverCore H) (ref : ℕ) (u : Literal) (rest : List Literal)
    : Type 0 where
  pub fresh : s.clauses ref ≡ []
  pub distinct : Distinct (u ∷ rest)
  pub inside : (x : Literal) → Entry x (u ∷ rest) → variable_of x < s.variable_count + 1
  pub all_false : (x : Literal) → Entry x (u ∷ rest) → value_of s x ≡ falsified
  pub current : s.levels (variable_of u) ≡ s.level
  pub below : (x : Literal) → Entry x rest → s.levels (variable_of x) ≤ backjump_level s (u ∷ rest)
  pub under : backjump_level s (u ∷ rest) < s.level

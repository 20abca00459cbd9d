-- ===== src/SolverCore/Setup.antt =====
-- The watch lists and the units from the clauses, the root units, and the model read off the values
-- (source/library/src/kmx/sat/cdcl/solver_core.cpp). `refs` are the references of the clause
-- database, irredundant ones first. What is only reserved is left out.
use kmx_sat.Base.{ℕ, zero, suc, ◌*◌, none, List, [], ◌∷◌, ◌++◌, ◌==◌, length, put}
use kmx_sat.Literal.{Literal, literal}
use kmx_sat.SolverCore.{is_falsified, Watch, SolverCore, assign, new_level}

module _ {H : Type 0} where
  unfoldable pub push_watch : SolverCore H → Literal → Watch → SolverCore H
  push_watch s l w = record s { watches = put s.watches l.raw (s.watches l.raw ++ w ∷ []) }

  unfoldable pub attach_literals : SolverCore H → ℕ → List Literal → SolverCore H
  attach_literals s ref [] = record s { unit_clause_refs = s.unit_clause_refs ++ ref ∷ [] }
  attach_literals s ref (a ∷ []) = record s { unit_clause_refs = s.unit_clause_refs ++ ref ∷ [] }
  attach_literals s ref (a ∷ b ∷ rest) =
      let binary = length (a ∷ b ∷ rest) == 2 in
      push_watch
        (push_watch s a (record { blocking_literal = b; clause_ref = ref; is_binary = binary })) b
        (record { blocking_literal = a; clause_ref = ref; is_binary = binary })

  unfoldable pub attach_clause_for_propagation : SolverCore H → ℕ → SolverCore H
  attach_clause_for_propagation s ref = attach_literals s ref (s.clauses ref)

  unfoldable pub attach_all : SolverCore H → List ℕ → SolverCore H
  attach_all s [] = s
  attach_all s (ref ∷ refs) = attach_all (attach_clause_for_propagation s ref) refs

  unfoldable pub rebuild_propagation_state : SolverCore H → List ℕ → SolverCore H
  rebuild_propagation_state s refs =
      attach_all (record s { watches = λ _. []; unit_clause_refs = [] }) refs

  -- A literal per variable from 1 on, negated where the value is false.
  unfoldable pub model_below : SolverCore H → ℕ → List Literal
  model_below s zero = []
  model_below s (suc v) =
      model_below s v ++ literal (suc v) (is_falsified (s.values (suc v * 2))) ∷ []

  unfoldable pub internal_model : SolverCore H → List Literal
  internal_model s = model_below s s.variable_count

  -- A decision, or an assumption that is open.
  unfoldable pub decide : SolverCore H → Literal → SolverCore H
  decide s lit = assign (new_level s lit) lit none

-- ===== src/WitnessChecker.antt =====
-- The checker of models (source/library/inc/kmx/sat/cdcl/witness_checker.hpp and
-- source/library/src/kmx/sat/cdcl/witness_checker.cpp). A model is the list of its literals. The
-- clause database is what the checker asks of it: the references of the clauses, irredundant and
-- redundant, in the order of its walks, and the literals of a reference.
pub mod Models
mod Tests
use kmx_sat.Base.{
  ℕ, Bool, true, false, ◌&&◌, ◌||◌, Option, none, some, List, [], ◌∷◌, ◌==◌, if◌then◌else◌, differs,
  not,
}
use kmx_sat.Literal.{Literal, variable_of, is_negated}
use kmx_sat.Literal.Meaning.{Clause}
use kmx_sat.Assignment.{Ref}

pub record Database : Type 0 where
  pub irredundant : List Ref
  pub redundant : List Ref
  pub view_literals : ℕ → Clause

-- The first literal of the model over the variable decides.
unfoldable pub literal_satisfied : Literal → List Literal → Bool
literal_satisfied l [] = false
literal_satisfied l (value ∷ values) =
    let rest = literal_satisfied l values in
    if variable_of value == variable_of l
    then not (differs (is_negated value) (is_negated l))
    else rest

unfoldable pub any_satisfied : Clause → List Literal → Bool
any_satisfied [] model = false
any_satisfied (l ∷ c) model =
    let rest = any_satisfied c model in if literal_satisfied l model then true else rest

unfoldable pub clause_satisfied : Database → Ref → List Literal → Bool
clause_satisfied d none model = true
clause_satisfied d (some offset) model = any_satisfied (d.view_literals offset) model

-- A walk that asks nothing more after the first clause that fails.
unfoldable pub walk : Database → List Ref → List Literal → Bool → Bool
walk d [] model satisfied = satisfied
walk d (ref ∷ refs) model satisfied =
    walk d refs model (if satisfied then clause_satisfied d ref model else false)

unfoldable pub check_model_against_original : Option Database → List Literal → Bool
check_model_against_original none model = true
check_model_against_original (some d) model = walk d d.irredundant model true

unfoldable pub check_model_against_current : Option Database → List Literal → Bool
check_model_against_current none model = true
check_model_against_current (some d) model =
    walk d d.redundant model (walk d d.irredundant model true)

-- The constraint is `none` where no store is attached or it holds no clause.
unfoldable pub check_constraint_satisfaction : Option Clause → List Literal → Bool
check_constraint_satisfaction none model = true
check_constraint_satisfaction (some c) model = any_satisfied c model

-- ===== src/WitnessChecker/Tests.antt =====
-- The check of a model of two clauses.
use kmx_sat.Base.{ℕ, ◌≡◌, refl, ◌==◌, if◌then◌else◌, inr, true, false, some, [], ◌∷◌, here}
use kmx_sat.Literal.{Literal, variable_of, is_negated}
use kmx_sat.Literal.Meaning.{clause_true}
use kmx_sat.WitnessChecker.{
  Database, literal_satisfied, any_satisfied, clause_satisfied, walk, check_model_against_current,
}
use kmx_sat.WitnessChecker.Models.{assignment_of, check_model_against_current-true}

abbrev lit : ℕ → Literal
lit raw = record { raw = raw }

-- x ∨ y stands at 0, ¬x, which is redundant, at 8.
abbrev two_clauses : Database
two_clauses = record {
  irredundant = some 0 ∷ [];
  redundant = some 8 ∷ [];
  view_literals = λ offset. if offset == 0 then lit 2 ∷ lit 4 ∷ [] else lit 3 ∷ [];
}

check_model_against_current-true_example :
    clause_true (assignment_of (lit 3 ∷ lit 4 ∷ [])) (lit 3 ∷ []) ≡ true
unfolding check_model_against_current walk clause_satisfied any_satisfied literal_satisfied
    variable_of is_negated
check_model_against_current-true_example =
    check_model_against_current-true two_clauses (lit 3 ∷ lit 4 ∷ []) refl 8 (inr here)

-- The model of x and ¬y fails the redundant clause.
rejected : check_model_against_current (some two_clauses) (lit 2 ∷ lit 5 ∷ []) ≡ false
unfolding check_model_against_current walk clause_satisfied any_satisfied literal_satisfied
    variable_of is_negated
rejected = refl

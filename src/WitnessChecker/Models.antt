-- ===== src/WitnessChecker/Models.antt =====
-- What a checked model satisfies
-- (source/library/src/kmx/sat/cdcl/witness_checker.cpp).
use kmx_sat.Base.{
  ℕ, ◌≡◌, ◌⊎◌, refl, subst, inl, inr, Bool, true, false, not, some, List, [], ◌∷◌, arith, ◌==◌,
  if◌then◌else◌, Entry, Entry-inv,
}
use kmx_sat.Literal.{Literal, variable_of, is_negated}
use kmx_sat.Literal.Meaning.{Clause, Assignment, literal_true, clause_true}
use kmx_sat.Assignment.{Ref}
use kmx_sat.WitnessChecker.{
  Database, literal_satisfied, any_satisfied, clause_satisfied, walk, check_model_against_current,
}

-- The assignment that a model stands for: its first literal over a variable, and false elsewhere.
unfoldable pub assignment_of : List Literal → Assignment
assignment_of [] v = false
assignment_of (value ∷ values) v =
    let rest = assignment_of values v in
    if variable_of value == v then not (is_negated value) else rest

literal_satisfied-true :
    (l : Literal) (model : List Literal)
    → literal_satisfied l model ≡ true
    → literal_true (assignment_of model) l ≡ true
unfolding literal_satisfied assignment_of
literal_satisfied-true l [] h = absurd cc
literal_satisfied-true l (value ∷ values) h = ground (arith, literal_satisfied-true l values)

any_satisfied-true :
    (c : Clause) (model : List Literal)
    → any_satisfied c model ≡ true
    → clause_true (assignment_of model) c ≡ true
unfolding any_satisfied
any_satisfied-true [] model h = absurd cc
any_satisfied-true (l ∷ c) model h =
    ground (arith, literal_satisfied-true l model, any_satisfied-true c model)

walk-false :
    (d : Database) (refs : List Ref) (model : List Literal) → walk d refs model false ≡ false
unfolding walk
walk-false d [] model = refl
walk-false d (ref ∷ refs) model = walk-false d refs model

walk-true :
    (d : Database) (refs : List Ref) (model : List Literal) (satisfied : Bool)
    → walk d refs model satisfied ≡ true
    → (satisfied ≡ true)
      × ((offset : ℕ)
          → Entry (some offset) refs
          → any_satisfied (d.view_literals offset) model ≡ true)
unfolding walk clause_satisfied
walk-true d refs model false h = absurd (let e = walk-false d refs model in cc)
walk-true d [] model true h = (refl, λ o e. (elim e [ ]))
walk-true d (ref ∷ refs) model true h =
    let (now, later) = walk-true d refs model (clause_satisfied d ref model) h in
    (
      refl,
      λ o e. (elim (Entry-inv e) [
        | inl first ↦ subst (λ r. clause_satisfied d r model ≡ true) first now
        | inr rest ↦ later o rest
      ]),
    )

-- A model that passes the check against the current clauses makes every clause of the database
-- true, irredundant or redundant.
pub check_model_against_current-true :
    (d : Database) (model : List Literal)
    → check_model_against_current (some d) model ≡ true
    → (offset : ℕ) → Entry (some offset) d.irredundant ⊎ Entry (some offset) d.redundant
    → clause_true (assignment_of model) (d.view_literals offset) ≡ true
unfolding check_model_against_current
check_model_against_current-true d model h offset e =
    let (first, redundant) = walk-true d d.redundant model (walk d d.irredundant model true) h in
    let (start, irredundant) = walk-true d d.irredundant model true first in
    elim e [
      | inl i ↦ any_satisfied-true (d.view_literals offset) model (irredundant offset i)
      | inr r ↦ any_satisfied-true (d.view_literals offset) model (redundant offset r)
    ]

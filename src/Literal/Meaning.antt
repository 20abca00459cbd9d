-- ===== src/Literal/Meaning.antt =====
-- What literals and clauses mean under a total assignment of the variables: the specification
-- that the components are held against.
use kmx_sat.Base.{
  ◌≡◌, inl, inr, Bool, true, false, not, ◌||◌, List, [], ◌∷◌, arith, differs, Bool-cases, Entry,
  here, there,
}
use kmx_sat.Literal.{Variable, Literal, variable_of, is_negated, negated}
use kmx_sat.Literal.Encoding.{variable_of-negated, is_negated-negated}

abbrev pub Clause : Type 0
Clause = List Literal

abbrev pub Assignment : Type 0
Assignment = Variable → Bool

abbrev pub literal_true : Assignment → Literal → Bool
literal_true m l = differs (m (variable_of l)) (is_negated l)

abbrev pub clause_true : Assignment → Clause → Bool
clause_true m [] = false
clause_true m (l ∷ c) = literal_true m l || clause_true m c

pub literal_true-negated :
    (m : Assignment) (l : Literal) → literal_true m (negated l) ≡ not (literal_true m l)
literal_true-negated m l = ground (arith, variable_of-negated l, is_negated-negated l)

-- A clause holds exactly when one of its entries does.
pub clause_true-of_Entry :
    (m : Assignment) {l : Literal} (c : Clause)
    → Entry l c
    → literal_true m l ≡ true
    → clause_true m c ≡ true
clause_true-of_Entry m [] e h = elim e [ ]
clause_true-of_Entry m (l ∷ c) here h = ground arith
clause_true-of_Entry m (k ∷ c) (there e) h = ground (arith, clause_true-of_Entry m c e h)

pub Entry-of_clause_true :
    (m : Assignment) (c : Clause)
    → clause_true m c ≡ true
    → (l : Literal) × Entry l c × (literal_true m l ≡ true)
Entry-of_clause_true m (l ∷ c) h = elim (Bool-cases (literal_true m l)) [
  | inl e ↦ (l, here, e)
  | inr e ↦ let (k, w, t) = Entry-of_clause_true m c (ground arith) in (k, there w, t)
]
Entry-of_clause_true m [] h = cc

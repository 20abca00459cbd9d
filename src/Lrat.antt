-- ===== src/Lrat.antt =====
-- The LRAT checker (source/library/inc/kmx/sat/proof/checker/lrat.hpp and
-- source/library/src/kmx/sat/proof/checker/lrat.cpp): the clauses and the antecedent chains of a
-- proof by id, and the replay of a chain by reverse unit propagation.
pub mod UnitScan
pub mod Replay
pub mod Certificate
pub mod Circular
mod Tests
use kmx_sat.Base.{
  ℕ, ◌+◌, ◌-◌, ◌^◌, Bool, true, false, not, Option, none, some, List, [], ◌∷◌, ◌==◌, if◌then◌else◌,
  differs,
}
use kmx_sat.Dict.{find, insert, erase}
use kmx_sat.Literal.{Literal, no_literal, variable_of, is_negated}
use kmx_sat.Literal.Meaning.{Clause}

-- `clause::id`: a 64-bit number, of which the greatest is the invalid one.
abbrev pub ClauseId : Type 0
ClauseId = ℕ

abbrev pub valid : ClauseId → Bool
valid id = not (id == 2 ^ 64 - 1)

pub record Lrat : Type 0 where
  pub clauses : List (ClauseId × Clause)
  pub antecedents : List (ClauseId × List ClauseId)

pub record_clause : Lrat → ClauseId → Clause → Lrat
record_clause s id c = if valid id then record s { clauses = insert id c s.clauses } else s

pub record_antecedents : Lrat → ClauseId → List ClauseId → Lrat
record_antecedents s id chain =
    if valid id then record s { antecedents = insert id chain s.antecedents } else s

pub forget_clause : Lrat → ClauseId → Lrat
forget_clause s id =
    if valid id
    then record s { clauses = erase id s.clauses; antecedents = erase id s.antecedents }
    else s

-- `assigned`, the values fixed so far.
abbrev pub Values : Type 0
Values = List (ℕ × Bool)

-- The first loop of `verify_chain`: each literal of the derived clause is made false.
unfoldable pub assume_false : Values → Clause → Values
assume_false assigned [] = assigned
assume_false assigned (l ∷ c) = assume_false (insert (variable_of l) (is_negated l) assigned) c

-- `satisfied`, `unassigned_count` and `pending`, after the inner loop over an antecedent.
pub record Scan : Type 0 where
  pub satisfied : Bool
  pub unassigned_count : ℕ
  pub pending : Literal

unfoldable pub scan : Values → ℕ → Literal → Clause → Scan
scan assigned n p [] = record { satisfied = false; unassigned_count = n; pending = p }
scan assigned n p (l ∷ c) = elim (find (variable_of l) assigned) [
  | none ↦ scan assigned (n + 1) l c
  | some v ↦
      let rest = scan assigned n p c in
      if differs v (is_negated l)
      then record { satisfied = true; unassigned_count = n; pending = p }
      else rest
]

-- The loop over the chain.
unfoldable pub replay : List (ClauseId × Clause) → Values → List ClauseId → Bool
replay clauses assigned [] = false
replay clauses assigned (key ∷ chain) = elim (find key clauses) [
  | none ↦ false
  | some c ↦
      let s = scan assigned 0 no_literal c in
      let next =
        replay clauses (insert (variable_of s.pending) (not (is_negated s.pending)) assigned)
          chain in
      if s.satisfied
      then false
      else if s.unassigned_count == 0
      then true
      else if s.unassigned_count == 1
      then next
      else false
]

unfoldable pub verify_chain : List (ClauseId × Clause) → Clause → List ClauseId → Bool
verify_chain clauses derived chain = replay clauses (assume_false [] derived) chain

-- The loop of `check_chain`, which stops at the first chain that fails.
unfoldable pub check_entries : List (ClauseId × Clause) → List (ClauseId × List ClauseId) → Bool
check_entries clauses [] = true
check_entries clauses ((id, chain) ∷ rest) = elim (find id clauses) [
  | none ↦ false
  | some c ↦
      let others = check_entries clauses rest in
      if verify_chain clauses c chain then others else false
]

unfoldable pub check_chain : Lrat → Bool
check_chain s = elim s.antecedents [ [] ↦ false | e ∷ rest ↦ check_entries s.clauses (e ∷ rest) ]

validate_found : List (ClauseId × Clause) → Option Clause → Option (List ClauseId) → Bool
validate_found clauses none _ = false
validate_found clauses (some c) none = false
validate_found clauses (some c) (some chain) = verify_chain clauses c chain

unfoldable pub validate_clause : Lrat → ClauseId → Bool
unfolding validate_found
validate_clause s id =
    if valid id then validate_found s.clauses (find id s.clauses) (find id s.antecedents) else false

-- The loop of `finalize_unsat`, which stops at the first empty clause with a chain that holds.
unfoldable pub find_refutation : Lrat → List (ClauseId × Clause) → Bool
find_refutation s [] = false
find_refutation s ((id, l ∷ c) ∷ rest) = find_refutation s rest
find_refutation s ((id, []) ∷ rest) = elim (find id s.antecedents) [
  | none ↦ find_refutation s rest
  | some chain ↦
      let others = find_refutation s rest in
      if verify_chain s.clauses [] chain then true else others
]

unfoldable pub finalize_unsat : Lrat → Bool
finalize_unsat s = find_refutation s s.clauses

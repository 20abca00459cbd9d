-- ===== src/Reconstruct/Tests.antt =====
-- Reconstruction on a small journal.
use kmx_sat.Base.{◌≡◌, refl, List, [], ◌∷◌, ◌++◌, arith}
use kmx_sat.Literal.{Literal, literal, variable_of, is_negated}
use kmx_sat.Literal.Meaning.{Clause}
use kmx_sat.Extension.{
  Extension, empty, witness_mark, append_witness_clause, push_bve_elimination,
  push_factor_transformation,
}
use kmx_sat.Reconstruct.{
  set_value, literal_satisfied, clause_is_satisfied, visit_range, for_each_witness_clause,
  set_literals_over, visit_eliminated, apply_extension_record, reconstruct_full_model,
}
use kmx_sat.Reconstruct.Witness.{append_all, fold, for_each-append_all}

abbrev lit : (raw : Prim.Native.Nat.ℕ) → Literal
lit raw = record { raw = raw }

abbrev two_clauses : List Clause
two_clauses = (lit 2 ∷ lit 4 ∷ []) ∷ (lit 2 ∷ lit 7 ∷ []) ∷ []

-- Variable 1 was eliminated, with the two clauses as witnesses, and variable 4 was introduced.
abbrev journal : Extension
journal = push_factor_transformation (push_bve_elimination (append_all empty two_clauses) 1 0) 4 0

-- 2 is false, so the first clause forces 1 up; 4 is not shown.
reconstruct_runs :
    reconstruct_full_model journal [] (lit 3 ∷ lit 5 ∷ lit 7 ∷ lit 8 ∷ [])
    ≡ lit 2 ∷ lit 5 ∷ lit 7 ∷ []
unfolding reconstruct_full_model push_factor_transformation push_bve_elimination
    append_witness_clause witness_mark apply_extension_record for_each_witness_clause visit_range
    visit_eliminated set_literals_over clause_is_satisfied literal_satisfied set_value variable_of
    is_negated literal
reconstruct_runs = refl

abbrev count_visits : List Clause → Clause → List Clause
count_visits seen c = seen ++ c ∷ []

for_each-append_all_example :
    for_each_witness_clause count_visits
      ((append_all empty two_clauses).witness_literals ++ lit 9 ∷ [])
      (witness_mark empty)
      (witness_mark (append_all empty two_clauses))
      []
    ≡ fold count_visits [] two_clauses
unfolding append_witness_clause
for_each-append_all_example =
    for_each-append_all count_visits empty two_clauses (lit 9 ∷ []) [] (ground arith) (omega arith)

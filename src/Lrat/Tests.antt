-- ===== src/Lrat/Tests.antt =====
-- The checker on small proofs: one that derives a unit, and one that refutes two units.
use kmx_sat.Base.{
  ℕ, ◌<◌, ◌≡◌, refl, ap, sym, ◌∙◌, Entry-single, true, false, List, [], ◌∷◌, arith, All, All-entry,
}
use kmx_sat.Dict.{Entry-of_find}
use kmx_sat.Literal.{Literal, variable_of, is_negated}
use kmx_sat.Literal.Meaning.{Clause, Assignment, clause_true}
use kmx_sat.Lrat.{
  ClauseId, Lrat, record_clause, record_antecedents, assume_false, scan, replay, verify_chain,
  check_entries, check_chain, validate_clause, find_refutation, finalize_unsat,
}
use kmx_sat.Lrat.Replay.{Cited, verify_chain_sound}
use kmx_sat.Lrat.Certificate.{
  Ordered, SatisfiesOriginals, check_chain_sound, finalize_unsat-refutes,
}
use kmx_sat.Lrat.Circular.{validate_clause-circular}

abbrev lit : ℕ → Literal
lit raw = record { raw = raw }

-- 1: x, 2: ¬x ∨ y, and 3: y, derived by 1 and 2.
abbrev derivation : Lrat
derivation = record {
  clauses = (1, lit 2 ∷ []) ∷ (2, lit 3 ∷ lit 4 ∷ []) ∷ (3, lit 4 ∷ []) ∷ [];
  antecedents = (3, 1 ∷ 2 ∷ []) ∷ [];
}

-- 1: x, 2: ¬x, and 3: the empty clause.
abbrev refutation : Lrat
refutation = record {
  clauses = (1, lit 2 ∷ []) ∷ (2, lit 3 ∷ []) ∷ (3, []) ∷ [];
  antecedents = (3, 1 ∷ 2 ∷ []) ∷ [];
}

abbrev all_true : Assignment
all_true v = true

derivation_runs : check_chain derivation ≡ true
unfolding check_chain check_entries verify_chain replay scan assume_false variable_of is_negated
derivation_runs = refl

refutation_runs : (check_chain refutation ≡ true) × (finalize_unsat refutation ≡ true)
unfolding check_chain check_entries verify_chain replay scan assume_false variable_of is_negated
    finalize_unsat find_refutation
refutation_runs = (refl, refl)

-- The chain in the wrong order does not refute.
wrong_chain : verify_chain refutation.clauses [] (2 ∷ []) ≡ false
unfolding verify_chain replay scan assume_false variable_of is_negated
wrong_chain = refl

Ordered-of_entries :
    (s : Lrat)
    → All (λ (e : ClauseId × List ClauseId). All (λ j. j < e.0) e.1) s.antecedents
    → Ordered s
Ordered-of_entries s h k chain f j e =
    All-entry (λ i. i < k) chain
      (All-entry (λ (e : ClauseId × List ClauseId). All (λ j. j < e.0) e.1) s.antecedents h
        (Entry-of_find k s.antecedents f))
      e

SatisfiesOriginals-of_entries :
    (m : Assignment) (s : Lrat)
    → All (λ (e : ClauseId × Clause). clause_true m e.1 ≡ true) s.clauses
    → SatisfiesOriginals m s
SatisfiesOriginals-of_entries m s h k c f g =
    All-entry (λ (e : ClauseId × Clause). clause_true m e.1 ≡ true) s.clauses h
      (Entry-of_find k s.clauses f)

derivation_satisfied :
    All (λ (e : ClauseId × Clause). clause_true all_true e.1 ≡ true) derivation.clauses
unfolding variable_of is_negated
derivation_satisfied = (refl, (refl, (refl, tt)))

derivation-Ordered : Ordered derivation
derivation-Ordered = Ordered-of_entries derivation (omega arith)

refutation-Ordered : Ordered refutation
refutation-Ordered = Ordered-of_entries refutation (omega arith)

derivation-Cited : Cited all_true derivation.clauses (1 ∷ 2 ∷ [])
derivation-Cited k c e f =
    All-entry (λ (e : ClauseId × Clause). clause_true all_true e.1 ≡ true) derivation.clauses
      derivation_satisfied (Entry-of_find k derivation.clauses f)

derivation_verified : verify_chain derivation.clauses (lit 4 ∷ []) (1 ∷ 2 ∷ []) ≡ true
unfolding verify_chain replay scan assume_false variable_of is_negated
derivation_verified = refl

verify_chain_sound_example : clause_true all_true (lit 4 ∷ []) ≡ true
verify_chain_sound_example =
    verify_chain_sound all_true derivation.clauses (lit 4 ∷ []) (1 ∷ 2 ∷ []) derivation_verified
      derivation-Cited

check_chain_sound_example : clause_true all_true (lit 4 ∷ []) ≡ true
check_chain_sound_example =
    check_chain_sound all_true derivation derivation_runs derivation-Ordered
      (SatisfiesOriginals-of_entries all_true derivation derivation_satisfied) 3 (lit 4 ∷ []) refl

finalize_unsat-refutes_example : ¬ SatisfiesOriginals all_true refutation
finalize_unsat-refutes_example =
    finalize_unsat-refutes refutation (ground arith) refutation-Ordered refutation_runs.0
      refutation_runs.1 all_true

-- The unit 7 is accepted on its own word.
validate_clause-circular_example :
    validate_clause (record_antecedents (record_clause derivation 9 (lit 14 ∷ [])) 9 (9 ∷ [])) 9
    ≡ true
validate_clause-circular_example =
    validate_clause-circular derivation 9 (lit 14 ∷ []) refl
      (λ k l p q e. ap is_negated (Entry-single p ∙ sym (Entry-single q)))

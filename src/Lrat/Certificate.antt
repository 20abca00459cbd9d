-- ===== src/Lrat/Certificate.antt =====
-- What the verdicts of the checker certify (`check_chain`, `validate_clause` and `finalize_unsat`
-- of source/library/src/kmx/sat/proof/checker/lrat.cpp) for a proof in the order of its ids.
use kmx_sat.Base.{
  ℕ, zero, suc, ◌<◌, ◌≡◌, refl, inl, inr, true, none, some, List, [], ◌∷◌, arith, Option-cases,
  Entry, here, there,
}
use kmx_sat.Dict.{find, IsMap, Entry-of_find, find-Entry}
use kmx_sat.Literal.Meaning.{Clause, Assignment, clause_true}
use kmx_sat.Lrat.{
  ClauseId, Lrat, verify_chain, check_entries, check_chain, find_refutation, finalize_unsat,
}
use kmx_sat.Lrat.Replay.{verify_chain_sound}

-- A chain that was checked belongs to a recorded clause.
abbrev Checked : List (ClauseId × Clause) → ClauseId → List ClauseId → Type 0
Checked clauses k chain =
    (c : Clause) × (find k clauses ≡ some c) × (verify_chain clauses c chain ≡ true)

check_entries-head :
    (clauses : List (ClauseId × Clause)) (id : ClauseId) (chain : List ClauseId)
    (es : List (ClauseId × List ClauseId))
    → check_entries clauses ((id, chain) ∷ es) ≡ true
    → Checked clauses id chain × (check_entries clauses es ≡ true)
unfolding check_entries
check_entries-head clauses id chain es ok = elim (Option-cases (find id clauses)) [
  | inl f ↦ ground arith
  | inr (c, f) ↦ ((c, f, ground arith), ground arith)
]

check_entries_lem :
    (clauses : List (ClauseId × Clause)) (es : List (ClauseId × List ClauseId)) {k : ClauseId}
    {chain : List ClauseId}
    → check_entries clauses es ≡ true
    → Entry (k, chain) es
    → Checked clauses k chain
check_entries_lem clauses [] ok e = elim e [ ]
check_entries_lem clauses ((id, ch) ∷ es) ok here = (check_entries-head clauses id ch es ok).0
check_entries_lem clauses ((id, ch) ∷ es) ok (there e) =
    check_entries_lem clauses es (check_entries-head clauses id ch es ok).1 e

check_chain_lem :
    (s : Lrat) (k : ClauseId) {chain : List ClauseId}
    → check_chain s ≡ true
    → find k s.antecedents ≡ some chain
    → Checked s.clauses k chain
unfolding check_chain
check_chain_lem s k {chain} ok f = go s.antecedents refl
  where
    go : (es : List (ClauseId × List ClauseId)) → s.antecedents ≡ es → Checked s.clauses k chain
    go [] e = ground arith
    go (x ∷ es) e =
        check_entries_lem s.clauses (x ∷ es) (ground arith) (Entry-of_find k (x ∷ es) (rw e at f))

-- Each recorded chain cites clauses of smaller ids only, as a proof that is logged in order does.
abbrev pub Ordered : Lrat → Type 0
Ordered s =
    (k : ClauseId) (chain : List ClauseId)
    → find k s.antecedents ≡ some chain
    → (j : ClauseId) → Entry j chain
    → j < k

-- The assignment makes the clauses true that no chain derives: the original formula.
abbrev pub SatisfiesOriginals : Assignment → Lrat → Type 0
SatisfiesOriginals m s =
    (k : ClauseId) (c : Clause)
    → find k s.clauses ≡ some c
    → find k s.antecedents ≡ none
    → clause_true m c ≡ true

module _ (m : Assignment) (s : Lrat) (ok : check_chain s ≡ true) (order : Ordered s)
    (given : SatisfiesOriginals m s) where
  satisfied_below :
      (n k : ℕ) (c : Clause) → k < n → find k s.clauses ≡ some c → clause_true m c ≡ true
  satisfied_below zero k c h f = absurd (omega arith)
  satisfied_below (suc n) k c h f = elim (Option-cases (find k s.antecedents)) [
    | inl original ↦ given k c f original
    | inr (chain, e) ↦
        let (d, found, verified) = check_chain_lem s k ok e in
        let derived =
          verify_chain_sound m s.clauses d chain verified
            (λ j x w g. satisfied_below n j x (omega (arith, order k chain e j w)) g) in
        ground arith
  ]

  -- In a proof whose chains cite smaller ids only and which `check_chain` accepts, every recorded
  -- clause follows from the clauses recorded with no chain: an assignment that makes those true
  -- makes every recorded clause true.
  pub check_chain_sound :
      (k : ClauseId) (c : Clause) → find k s.clauses ≡ some c → clause_true m c ≡ true
  check_chain_sound k c f = satisfied_below (suc k) k c (omega arith) f

empty_clause_recorded :
    (s : Lrat) (es : List (ClauseId × Clause))
    → find_refutation s es ≡ true
    → (k : ClauseId) × Entry (k, []) es
unfolding find_refutation
empty_clause_recorded s [] ok = cc
empty_clause_recorded s ((id, l ∷ c) ∷ es) ok =
    let (k, e) = empty_clause_recorded s es ok in (k, there e)
empty_clause_recorded s ((id, []) ∷ es) ok = (id, here)

-- A proof that both `check_chain` and `finalize_unsat` accept, whose chains cite smaller ids
-- only, certifies unsatisfiability: no assignment makes all the clauses true that were recorded
-- with no chain.
pub finalize_unsat-refutes :
    (s : Lrat)
    → IsMap s.clauses
    → Ordered s
    → check_chain s ≡ true
    → finalize_unsat s ≡ true
    → (m : Assignment) → ¬ SatisfiesOriginals m s
unfolding finalize_unsat
finalize_unsat-refutes s keys order ok done m given =
    let (k, e) = empty_clause_recorded s s.clauses done in
    let falsum = check_chain_sound m s ok order given k [] (find-Entry s.clauses keys e) in cc

-- ===== src/Lrat/Circular.antt =====
-- A chain may cite the clause that it derives: `verify_chain` looks antecedents up among all the
-- recorded clauses, the derived one included (source/library/src/kmx/sat/proof/checker/lrat.cpp).
use kmx_sat.Base.{
  ℕ, ◌≡◌, refl, inl, inr, Bool, true, false, some, List, [], ◌∷◌, arith, Bool-cases, Entry, here,
  there,
}
use kmx_sat.Dict.{find, insert, find-insert, find-insert_self}
use kmx_sat.Literal.{Literal, no_literal, variable_of, is_negated}
use kmx_sat.Literal.Meaning.{Clause}
use kmx_sat.Lrat.{
  ClauseId, valid, Lrat, record_clause, record_antecedents, Values, assume_false, scan, replay,
  verify_chain, validate_found, validate_clause,
}

-- No literal of the clause stands against another.
abbrev pub Consistent : Clause → Type 0
Consistent c =
    (k l : Literal)
    → Entry k c
    → Entry l c
    → variable_of k ≡ variable_of l
    → is_negated k ≡ is_negated l

assume_false-kept :
    (a : Values) (v : ℕ) (b : Bool) (c : Clause)
    → ((k : Literal) → Entry k c → variable_of k ≡ v → is_negated k ≡ b)
    → find v a ≡ some b
    → find v (assume_false a c) ≡ some b
unfolding assume_false
assume_false-kept a v b [] same f = f
assume_false-kept a v b (l ∷ c) same f =
    assume_false-kept (insert (variable_of l) (is_negated l) a) v b c (λ k e. same k (there e))
      (ground (arith, find-insert (variable_of l) v (is_negated l) a, same l here))

find-assume_false :
    (a : Values) (c : Clause)
    → Consistent c
    → (l : Literal) → Entry l c
    → find (variable_of l) (assume_false a c) ≡ some (is_negated l)
unfolding assume_false
find-assume_false a [] h l e = elim e [ ]
find-assume_false a (x ∷ c) h l here =
    assume_false-kept _ (variable_of x) (is_negated x) c (λ k e. h k x (there e) here)
      (find-insert_self (variable_of x) (is_negated x) a)
find-assume_false a (x ∷ c) h l (there e) =
    find-assume_false (insert (variable_of x) (is_negated x) a) c
      (λ j k p q. h j k (there p) (there q)) l e

-- All the literals are fixed to be false: the scan finds a conflict.
scan_conflict :
    (a : Values) (p : Literal) (c : Clause)
    → ((l : Literal) → Entry l c → find (variable_of l) a ≡ some (is_negated l))
    → scan a 0 p c ≡ record { satisfied = false; unassigned_count = 0; pending = p }
unfolding scan
scan_conflict a p [] h = refl
scan_conflict a p (l ∷ c) h = elim (Bool-cases (is_negated l)) [
  | inl e ↦ ground (arith, h l here, scan_conflict a p c (λ k w. h k (there w)))
  | inr e ↦ ground (arith, h l here, scan_conflict a p c (λ k w. h k (there w)))
]

verify_chain_self :
    (clauses : List (ClauseId × Clause)) (k : ClauseId) (c : Clause)
    → Consistent c
    → find k clauses ≡ some c
    → verify_chain clauses c (k ∷ []) ≡ true
unfolding verify_chain replay
verify_chain_self clauses k c h f =
    ground (arith, f, scan_conflict (assume_false [] c) no_literal c (find-assume_false [] c h))

-- Under a valid id the checker accepts any clause without complementary literals, whatever else is recorded, once
-- its chain is the clause itself: such a validation says nothing of the clause.
pub validate_clause-circular :
    (s : Lrat) (k : ClauseId) (c : Clause)
    → valid k ≡ true
    → Consistent c
    → validate_clause (record_antecedents (record_clause s k c) k (k ∷ [])) k ≡ true
unfolding validate_clause validate_found record_antecedents record_clause
validate_clause-circular s k c v h = ground (
  arith,
  find-insert_self k c s.clauses,
  find-insert_self k (k ∷ []) s.antecedents,
  verify_chain_self (insert k c s.clauses) k c h (find-insert_self k c s.clauses),
)

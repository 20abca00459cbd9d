-- ===== src/Lrat/Replay.antt =====
-- The loop over a chain of `lrat::verify_chain` (source/library/src/kmx/sat/proof/checker/lrat.cpp).
use kmx_sat.Base.{
  ◌≡◌, refl, inl, inr, true, false, not, some, List, [], ◌∷◌, arith, ◌==◌, Bool-cases, Option-cases,
  Entry, here, there,
}
use kmx_sat.Dict.{find, insert}
use kmx_sat.Literal.{no_literal, variable_of, is_negated}
use kmx_sat.Literal.Meaning.{Clause, Assignment, clause_true}
use kmx_sat.Lrat.{ClauseId, Values, assume_false, scan, replay, verify_chain}
use kmx_sat.Lrat.UnitScan.{Agrees, insert-Agrees, assume_false-Agrees, scan-true}

-- The assignment makes every clause true that the chain cites.
abbrev pub Cited : Assignment → List (ClauseId × Clause) → List ClauseId → Type 0
Cited m clauses chain =
    (k : ClauseId) (c : Clause) → Entry k chain → find k clauses ≡ some c → clause_true m c ≡ true

-- A replay that agrees with such an assignment reaches no conflict.
replay_consistent :
    (m : Assignment) (clauses : List (ClauseId × Clause)) (a : Values) (chain : List ClauseId)
    → Agrees m a
    → Cited m clauses chain
    → replay clauses a chain ≡ false
unfolding replay
replay_consistent m clauses a [] h cited = refl
replay_consistent m clauses a (key ∷ chain) h cited = elim (Option-cases (find key clauses)) [
  | inl e ↦ ground arith
  | inr (c, e) ↦
      let s = scan a 0 no_literal c in
      elim (Bool-cases s.satisfied) [
        | inl cut ↦ ground arith
        | inr whole ↦
            let (counted, forced) = scan-true m a 0 no_literal c h (cited key c here e) whole in
            elim (Bool-cases (s.unassigned_count == 1)) [
              | inl one ↦
                  let value = forced (ground arith) in
                  let next : Agrees m
                      (insert (variable_of s.pending) (not (is_negated s.pending)) a) =
                    insert-Agrees m a (variable_of s.pending) _ (ground arith) h in
                  ground (
                    arith,
                    replay_consistent m clauses
                        (insert (variable_of s.pending) (not (is_negated s.pending)) a) chain next
                        (λ k d w. cited k d (there w)),
                  )
              | inr more ↦ ground arith
            ]
      ]
]

-- A chain that `verify_chain` accepts derives its clause: every assignment that makes the cited
-- clauses true makes the derived clause true.
pub verify_chain_sound :
    (m : Assignment) (clauses : List (ClauseId × Clause)) (derived : Clause) (chain : List ClauseId)
    → verify_chain clauses derived chain ≡ true
    → Cited m clauses chain
    → clause_true m derived ≡ true
unfolding verify_chain
verify_chain_sound m clauses derived chain ok cited = elim (Bool-cases (clause_true m derived)) [
  | inl e ↦ e
  | inr e ↦
      let agrees = assume_false-Agrees m [] derived e (λ v b f. cc) in
      ground (arith, replay_consistent m clauses (assume_false [] derived) chain agrees cited)
]

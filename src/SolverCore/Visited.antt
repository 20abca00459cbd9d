-- ===== src/SolverCore/Visited.antt =====
-- A long watch, and any watch, branch by branch (source/library/src/kmx/sat/cdcl/solver_core.cpp,
-- `propagate`).
use kmx_sat.Base.{
  ℕ, ◌≡◌, refl, sym, subst, inl, inr, false, List, [], ◌∷◌, ◌++◌, Bool-cases, Option-cases, Entry,
  here, there,
}
use kmx_sat.Base.Xor.{bit_xor-left, bit_xor-right}
use kmx_sat.Literal.{Literal}
use kmx_sat.SolverCore.{
  falsified, is_falsified, is_satisfied, Watch, SolverCore, value_of, assign, visit_rest,
  visit_long, visit_watch, find_replacement,
}
use kmx_sat.SolverCore.Watching.{IsWatch}
use kmx_sat.SolverCore.Replacement.{Replacement, find_replacement-Replacement}
use kmx_sat.SolverCore.Rewatch.{Heads, Heads-Entry, Entry-Heads}
use kmx_sat.SolverCore.Scanning.{Scanning, key_false, reblock, advance}
use kmx_sat.SolverCore.Writes.{move}
use kmx_sat.SolverCore.Visiting.{
  Outcome, value-open, value-false, value-true, others_of, no_more, Below-of_true, read_watch,
  force_other, visit_binary-Outcome,
}

module _ {H : Type 0} {original : ℕ → List Literal} {done tail : List Literal} {k : Literal}
    (written rest : List Watch) (s : SolverCore H) (w : Watch) where
  -- The clause of a long watch, whose other watched literal is known.
  visit_rest-Outcome :
      (o : Literal) (cs : List Literal)
      → Heads (s.clauses w.clause_ref) k o cs
      → Scanning original done tail k written (w ∷ rest) s
      → Outcome original done tail k written rest (visit_rest k s w.clause_ref o cs)
  unfolding visit_rest assign
  visit_rest-Outcome o cs heads h =
      let entry : Watch = record {
        blocking_literal = o;
        clause_ref = w.clause_ref;
        is_binary = false;
      } in
      let inside = Entry-Heads heads o (there here) in
      let fits : IsWatch (s.clauses w.clause_ref) k entry = record {
        other = o;
        rest = cs;
        heads = heads;
        blocks = inside;
        binary = λ b. absurd (cc b);
      } in
      let again = reblock written s w entry rest refl fits h in
      elim (Bool-cases (is_satisfied (value_of s o))) [
        | inl up ↦
            let high = value-true (value_of s o) up in
            rw (up, visit_rest)
              (no_more (λ q. Scanning original done q k (written ++ entry ∷ []) rest s) tail
                (advance written s entry rest (Below-of_true s o w.clause_ref inside high h) again))
        | inr up ↦ elim (Option-cases (find_replacement s.values k cs)) [
          | inr ((r, ds), e) ↦
              let (swapped, high) =
                subst (Replacement s.values k cs) e (find_replacement-Replacement s.values k cs) in
              rw (up, e, visit_rest)
                (move written s o r w entry cs ds rest refl refl refl heads swapped high h)
          | inl e ↦
              let all =
                subst (Replacement s.values k cs) e (find_replacement-Replacement s.values k cs) in
              let all_low : (x : Literal) → Entry x cs → value_of s x ≡ falsified =
                λ x m. value-false (value_of s x) (all x m) in
              let others = λ (x : Literal) (m : Entry x (s.clauses w.clause_ref)).
                others_of s k o x cs (key_false written s h) all_low (Heads-Entry heads x m) in
              elim (Bool-cases (is_falsified (value_of s o))) [
                | inl low ↦
                    let down = value-false (value_of s o) low in
                    rw (up, e, low, visit_rest)
                      (
                        again,
                        (
                          (o, inside),
                          λ x m. elim (others x m) [
                            | inl at ↦
                                subst (λ (y : Literal). value_of s y ≡ falsified) (sym at) down
                            | inr d ↦ d
                          ],
                        ),
                      )
                | inr low ↦
                    let free = value-open (value_of s o) up low in
                    rw (up, e, low, visit_rest)
                      (o ∷ [], force_other written rest s entry o cs heads free all_low again)
              ]
        ]
      ]

  visit_long-Outcome :
      Scanning original done tail k written (w ∷ rest) s
      → Outcome original done tail k written rest (visit_long k s w (s.clauses w.clause_ref))
  unfolding visit_long
  visit_long-Outcome h =
      let f = read_watch s w h in
      let o = IsWatch.other f in
      let cs = IsWatch.rest f in
      let rest_outcome = visit_rest-Outcome o cs (IsWatch.heads f) h in
      elim (IsWatch.heads f) [
        | inl e ↦
            rw (e, visit_long)
              (subst
                (λ (r : ℕ).
                  Outcome original done tail k written rest
                    (visit_rest k s w.clause_ref (record { raw = r }) cs))
                (sym (bit_xor-left k.raw o.raw)) rest_outcome)
        | inr e ↦
            rw (e, visit_long)
              (subst
                (λ (r : ℕ).
                  Outcome original done tail k written rest
                    (visit_rest k s w.clause_ref (record { raw = r }) cs))
                (sym (bit_xor-right o.raw k.raw)) rest_outcome)
      ]

  pub visit_watch-Outcome :
      Scanning original done tail k written (w ∷ rest) s
      → Outcome original done tail k written rest (visit_watch k s w)
  unfolding visit_watch
  visit_watch-Outcome h = elim (Bool-cases (is_satisfied (value_of s w.blocking_literal))) [
    | inl up ↦
        let inside = IsWatch.blocks (read_watch s w h) in
        let high = value-true (value_of s w.blocking_literal) up in
        rw (up, visit_watch)
          (no_more (λ q. Scanning original done q k (written ++ w ∷ []) rest s) tail
            (advance written s w rest
              (Below-of_true s w.blocking_literal w.clause_ref inside high h) h))
    | inr up ↦ elim (Bool-cases w.is_binary) [
      | inl two ↦ rw (up, two, visit_watch) (visit_binary-Outcome written rest s w two up h)
      | inr more ↦ rw (up, more, visit_watch) (visit_long-Outcome h)
    ]
  ]

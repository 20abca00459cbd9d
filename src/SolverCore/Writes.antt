-- ===== src/SolverCore/Writes.antt =====
-- The writes to another list and to the trail while one list is read
-- (source/library/src/kmx/sat/cdcl/solver_core.cpp, `propagate`).
use kmx_sat.Base.{
  ℕ, ◌≤◌, ◌≡◌, ◌⊎◌, sym, subst, inl, inr, false, some, List, [], ◌∷◌, ◌++◌, arith, ◌==◌, Bool-cases,
  put, Entry,
}
use kmx_sat.Literal.{Literal, variable_of, negated}
use kmx_sat.SolverCore.{falsified, unassigned, is_falsified, Watch, SolverCore, value_of, assign}
use kmx_sat.SolverCore.Trail.{view, value_of-assign_self}
use kmx_sat.SolverCore.Assigned.{false_of_Entry, assign-IsTrail}
use kmx_sat.SolverCore.Replacement.{Swapped, found, skipped, Swapped-Entry, Swapped-sym}
use kmx_sat.SolverCore.Rewatch.{Heads, Heads-Entry, Entry-Heads, same_literal}
use kmx_sat.SolverCore.MoveWatch.{move-IsWatched}
use kmx_sat.SolverCore.Propagated.{
  Below, put-Below, put-IsReasoned, put-Within, assign-Below, assign-IsReasoned, assign-Within,
}
use kmx_sat.SolverCore.Scanning.{
  Scanning, put_under, put-Move, not_false, key_false, key_level, done_listed,
}

module _ {H : Type 0} {original : ℕ → List Literal} {done tail : List Literal} {k : Literal}
    (written : List Watch) (s : SolverCore H) where
  -- The watch that is read moves to a literal that is not false.
  pub move :
      (o r : Literal) (w v : Watch) (cs ds : List Literal) (rest : List Watch)
      → v.clause_ref ≡ w.clause_ref
      → v.blocking_literal ≡ o
      → v.is_binary ≡ false
      → Heads (s.clauses w.clause_ref) k o cs
      → Swapped k cs r ds
      → is_falsified (value_of s r) ≡ false
      → Scanning original done tail k written (w ∷ rest) s
      → Scanning original done tail k written rest (record s {
        clauses = put s.clauses w.clause_ref (o ∷ r ∷ ds);
        watches = put s.watches r.raw (s.watches r.raw ++ v ∷ []);
      })
  move o r w v cs ds rest same blocks long heads swapped up h =
      let into : (x : Literal) → Entry x (s.clauses w.clause_ref) → Entry x (o ∷ r ∷ ds) =
        λ x e. Swapped-Entry found x (Swapped-Entry (skipped swapped) x (Heads-Entry heads x e)) in
      let back : (x : Literal) → Entry x (o ∷ r ∷ ds) → Entry x (s.clauses w.clause_ref) = λ x e.
        Entry-Heads heads x
          (Swapped-Entry (skipped (Swapped-sym swapped)) x (Swapped-Entry found x e)) in
      let apart : (k.raw == r.raw) ≡ false = elim (Bool-cases (k.raw == r.raw)) [
        | inr n ↦ n
        | inl e ↦ absurd (
            not_false (value_of s r)
              (subst (λ (x : Literal). value_of s x ≡ falsified) (same_literal k r e)
                (key_false written s h))
              up)
      ] in
      record {
        trail = Scanning.trail h;
        watched =
            move-IsWatched s.clauses (Scanning.watched h) written rest w v
              (put-Move s.watches k r w v written rest apart) same blocks long cs ds heads swapped;
        settled = λ l u e d.
            put-Below s.clauses w.clause_ref (o ∷ r ∷ ds) into (view s) l u.clause_ref (
              Scanning.settled h l u
                (elim (Bool-cases (r.raw == l.raw)) [
                  | inr n ↦ subst (Entry u) (put_under s.watches r.raw k.raw l.raw _ written n) e
                  | inl hit ↦
                      let low =
                        false_of_Entry s (Scanning.trail h) l
                          (done_listed written s h (negated l) d) in
                      absurd (
                        not_false (value_of s r)
                          (subst (λ (x : Literal). value_of s x ≡ falsified)
                            (sym (same_literal r l hit)) low)
                          up)
                ])
                d);
        reasoned =
            put-IsReasoned s.clauses w.clause_ref (o ∷ r ∷ ds) into back s.reasons (view s)
              (Scanning.reasoned h);
        within =
            put-Within s.clauses w.clause_ref (o ∷ r ∷ ds) into back original _ (view s)
              (Scanning.within h);
      }

  -- A literal that the other literals of a clause force is assigned.
  pub force :
      (l : Literal) (ref : ℕ) (rest : List Watch)
      → value_of s l ≡ unassigned
      → Entry l (s.clauses ref)
      → ((x : Literal) → Entry x (s.clauses ref) → (x ≡ l) ⊎ (value_of s x ≡ falsified))
      → Scanning original done tail k written rest s
      → Scanning original done (tail ++ l ∷ []) k written rest (assign s l (some ref))
  unfolding assign
  force l ref rest free inside others h = record {
    trail = assign-IsTrail s (Scanning.trail h) l (some ref) free;
    watched = Scanning.watched h;
    settled = λ j u e d.
        let low = false_of_Entry s (Scanning.trail h) j (done_listed written s h (negated j) d) in
        assign-Below s (Scanning.trail h) l free (some ref) s.clauses j u.clause_ref low
          (Scanning.settled h j u e d);
    reasoned =
        assign-IsReasoned s (Scanning.trail h) l free (some ref) s.clauses (Scanning.reasoned h)
          (λ r e.
            let same : ref ≡ r = cc e in
            subst
              (λ (r : ℕ).
                Entry l (s.clauses r)
                × ((x : Literal) → Entry x (s.clauses r) → (x ≡ l) ⊎ (value_of s x ≡ falsified)))
              same (inside, others));
    within =
        assign-Within s (Scanning.trail h) l free (some ref) original s.clauses _
          ((Scanning.within h).0 ref l inside) (Scanning.within h);
  }

  -- The literal that was just assigned satisfies its clause on the current level.
  pub force-Below :
      (l : Literal) (ref j : ℕ) (rest : List Watch)
      → value_of s l ≡ unassigned
      → Entry l (s.clauses j)
      → Scanning original done tail k written rest s
      → Below s.clauses (view (assign s l (some ref))) k j
  unfolding assign
  force-Below l ref j rest free inside h =
      let low : put s.levels (variable_of l) s.level (variable_of l)
          ≤ put s.levels (variable_of l) s.level (variable_of k) =
        (let at = key_level written s h in ground arith) in
      (l, inside, value_of-assign_self s l (some ref), low)

-- ===== src/SolverCore/Restore.antt =====
-- What backtracking restores (source/library/src/kmx/sat/cdcl/solver_core.cpp, `backtrack`).
use kmx_sat.Base.{
  ℕ, zero, suc, ◌+◌, ◌<◌, ◌≡◌, refl, ◌∙◌, true, false, List, [], ◌∷◌, arith, ltb, ◌==◌,
  if◌then◌else◌, length, put, Entry, here, there,
}
use kmx_sat.Literal.{Literal, variable_of, negated}
use kmx_sat.Analyzer.Marking.{Distinct, Fresh-Entry}
use kmx_sat.SolverCore.{Value, falsified, unassigned, satisfied, unassigned_below}
use kmx_sat.SolverCore.Cut.{flipped}
use kmx_sat.SolverCore.Backjump.{unassign_values}

-- What the loop writes, read at a literal.
unassigned_stays :
    (xs : List Literal) (k : Literal) (values : ℕ → Value)
    → values k.raw ≡ unassigned
    → unassign_values values xs k.raw ≡ unassigned
unfolding unassign_values negated
unassigned_stays [] k values h = h
unassigned_stays (x ∷ xs) k values h = unassigned_stays xs k _ (ground (arith, h))

pub unassign_keeps :
    (xs : List Literal) (k : Literal) (values : ℕ → Value)
    → ((l : Literal) → Entry l xs → (variable_of k == variable_of l) ≡ false)
    → unassign_values values xs k.raw ≡ values k.raw
unfolding unassign_values negated variable_of
unassign_keeps [] k values h = refl
unassign_keeps (x ∷ xs) k values h =
    let n = h x here in unassign_keeps xs k _ (λ l e. h l (there e)) ∙ ground (arith, n)

pub unassign_clears :
    (xs : List Literal) (k l : Literal) (values : ℕ → Value)
    → Entry l xs
    → variable_of k ≡ variable_of l
    → unassign_values values xs k.raw ≡ unassigned
unfolding unassign_values negated variable_of
unassign_clears [] k l values e h = elim e [ ]
unassign_clears (x ∷ xs) k l values here h = unassigned_stays xs k _ (ground (arith, h))
unassign_clears (x ∷ xs) k l values (there e) h = unassign_clears xs k l _ e h

unassign_other :
    (values : ℕ → Value) (x k : Literal)
    → (variable_of k == variable_of x) ≡ false
    → (put (put values x.raw unassigned) (negated x).raw unassigned k.raw ≡ values k.raw)
      × (put (put values x.raw unassigned) (negated x).raw unassigned (negated k).raw
          ≡ values (negated k).raw)
unfolding negated variable_of
unassign_other values x k n = (ground arith, ground arith)

unassigned_below-free :
    (values : ℕ → Value) (l : Literal) (n : ℕ)
    → values l.raw ≡ satisfied
    → values (negated l).raw ≡ falsified
    → unassigned_below (put (put values l.raw unassigned) (negated l).raw unassigned) n
      ≡ unassigned_below values n + (if ltb (variable_of l) n then 1 else 0)
unfolding unassigned_below variable_of negated
unassigned_below-free values l zero h g = ground arith
unassigned_below-free values l (suc n) h g = ground (arith, unassigned_below-free values l n h g)

-- One variable more is open for each literal that is undone.
pub unassigned_below-undo :
    (xs : List Literal) (values : ℕ → Value) (n : ℕ)
    → Distinct xs
    → ((l : Literal) → Entry l xs → variable_of l < n)
    → ((l : Literal) → Entry l xs → values l.raw ≡ satisfied)
    → ((l : Literal) → Entry l xs → values (negated l).raw ≡ falsified)
    → unassigned_below (unassign_values values xs) n ≡ unassigned_below values n + length xs
unfolding unassign_values
unassigned_below-undo [] values n d low up down = omega arith
unassigned_below-undo (x ∷ xs) values n d low up down =
    let next : ℕ → Value = put (put values x.raw unassigned) (negated x).raw unassigned in
    let same : (l : Literal)
        → Entry l xs
        → (next l.raw ≡ values l.raw) × (next (negated l).raw ≡ values (negated l).raw) =
      λ l e.
        let n = flipped (variable_of x) (variable_of l) (Fresh-Entry (variable_of x) xs l d.0 e) in
        unassign_other values x l n in
    let rest =
      unassigned_below-undo xs next n d.1 (λ l e. low l (there e))
        (λ l e. (same l e).0 ∙ up l (there e)) (λ l e. (same l e).1 ∙ down l (there e)) in
    let first = unassigned_below-free values x n (up x here) (down x here) in
    let test : ltb (variable_of x) n ≡ true = (let h = low x here in ground arith) in
    ground (arith, rest, first, test)

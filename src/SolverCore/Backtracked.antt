-- ===== src/SolverCore/Backtracked.antt =====
-- Backtracking as a whole (source/library/src/kmx/sat/cdcl/solver_core.cpp, `backtrack`).
use kmx_sat.Base.{
  ℕ, ◌≤◌, ◌<◌, ◌≡◌, refl, sym, ap, ◌∙◌, false, List, [], arith, leb, length, take, Entry,
}
use kmx_sat.Literal.{Literal, variable_of}
use kmx_sat.SolverCore.{falsified, unassigned, SolverCore, value_of, trail_begin_of}
use kmx_sat.SolverCore.Trail.{IsTrail}
use kmx_sat.SolverCore.Scan.{IsPropagating}
use kmx_sat.SolverCore.Backjump.{BranchingHeap, unwind, backtrack}
use kmx_sat.SolverCore.Rollback.{
  keeps, left_trail, back-IsPropagating, back-place, back-low, back-high,
}

-- Backtracking to a lower level, from a state in which trail, frames, tables, watch lists, reasons and
-- clauses agree and `propagated` is not below the length of the propagated part (a conflict leaves it
-- above), leaves a state in which they agree again and all of the trail is propagated. The trail is
-- cut at the frame of the level above the target, and each literal that stays keeps its value.
pub backtrack-IsPropagating :
    {H : Type 0} (heap : BranchingHeap H) (original : ℕ → List Literal) (done queue : List Literal)
    (s : SolverCore H) (target : ℕ)
    → IsPropagating original done queue s
    → length done ≤ s.propagated
    → target < s.level
    → IsPropagating original
        (take (trail_begin_of s.control target) done)
        []
        (backtrack heap s target)
      × ((backtrack heap s target).propagated ≡ length (backtrack heap s target).trail)
      × ((backtrack heap s target).trail ≡ take (trail_begin_of s.control target) s.trail)
      × ((l : Literal)
          → Entry l (take (trail_begin_of s.control target) s.trail)
          → value_of (backtrack heap s target) l ≡ value_of s l)
unfolding backtrack unwind
backtrack-IsPropagating heap original done queue s target h at under =
    let begin = trail_begin_of s.control target in
    let cut = IsTrail.cuts (IsPropagating.trail h) target under in
    let above : leb s.level target ≡ false = ground arith in
    let kept = back-IsPropagating heap original s target begin h cut under in
    let place = back-place heap original s target begin h cut under at in
    let same = left_trail heap original s target begin h cut under in
    rw (above, backtrack)
      (
        kept,
        place ∙ ap length (sym same),
        refl,
        λ l e. keeps heap original s target begin h cut under l e l refl,
      )

-- What backtracking leaves alone, and what it does to false literals.
module _ {H : Type 0} (heap : BranchingHeap H) (s : SolverCore H) (target : ℕ)
    (under : target < s.level) where
  pub backtrack-same :
      ((backtrack heap s target).clauses ≡ s.clauses)
      × ((backtrack heap s target).levels ≡ s.levels)
      × ((backtrack heap s target).level ≡ target)
      × ((backtrack heap s target).variable_count ≡ s.variable_count)
  unfolding backtrack unwind
  backtrack-same =
      let above : leb s.level target ≡ false = ground arith in
      rw (above, backtrack) (refl, refl, refl, refl)

  pub backtrack-low :
      (original : ℕ → List Literal) (done queue : List Literal)
      → IsPropagating original done queue s
      → (x : Literal) → value_of s x ≡ falsified
      → s.levels (variable_of x) ≤ target
      → value_of (backtrack heap s target) x ≡ falsified
  unfolding backtrack unwind
  backtrack-low original done queue h x down low =
      let above : leb s.level target ≡ false = ground arith in
      let cut = IsTrail.cuts (IsPropagating.trail h) target under in
      rw (above, backtrack)
        (back-low heap original s target (trail_begin_of s.control target) h cut under x down low)

  pub backtrack-high :
      (original : ℕ → List Literal) (done queue : List Literal)
      → IsPropagating original done queue s
      → (x : Literal) → value_of s x ≡ falsified
      → target < s.levels (variable_of x)
      → value_of (backtrack heap s target) x ≡ unassigned
  unfolding backtrack unwind
  backtrack-high original done queue h x down high =
      let above : leb s.level target ≡ false = ground arith in
      let cut = IsTrail.cuts (IsPropagating.trail h) target under in
      rw (above, backtrack)
        (back-high heap original s target (trail_begin_of s.control target) h cut under x down high)

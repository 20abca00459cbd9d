-- ===== src/SolverCore/Run.antt =====
-- The search, as the steps that `run_search` composes
-- (source/library/src/kmx/sat/cdcl/solver_core.cpp): propagation, decisions, levels opened for
-- assumptions that are true already, a clause learned after a conflict, backtracking at a restart.
-- Conflict analysis is what `IsLearnable` says of its clause.
use kmx_sat.Base.{
  put, refl, ℕ, suc, ◌+◌, ◌≤◌, ◌<◌, ◌≡◌, ap, ◌∙◌, Option, none, some, List, [], ◌∷◌, append-nil,
  arith, length, take,
}
use kmx_sat.Literal.{Literal, no_literal, variable_of}
use kmx_sat.SolverCore.{
  unassigned, SolverCore, value_of, assign, new_level, propagate, trail_begin_of,
}
use kmx_sat.SolverCore.Trail.{IsTrail}
use kmx_sat.SolverCore.Scan.{IsPropagating}
use kmx_sat.SolverCore.Propagation.{Propagated, propagate-Propagated}
use kmx_sat.SolverCore.Setup.{decide, attach_clause_for_propagation, attach_literals, push_watch}
use kmx_sat.SolverCore.Learn.{backjump_level, add_clause, assert_first, learn_clause, IsLearnable}
use kmx_sat.SolverCore.Learned.{learn_clause-IsPropagating}
use kmx_sat.SolverCore.Decide.{decide-IsPropagating, new_level-IsPropagating}
use kmx_sat.SolverCore.Backjump.{BranchingHeap, backtrack}
use kmx_sat.SolverCore.Backtracked.{backtrack-IsPropagating}

-- Propagation is due, it has come to an end, or it has met a conflict.
pub data Phase : Type 0 where
  due quiet conflicted : Phase

-- Indexed by the clauses too, which learning adds to.
pub data Run {H : Type 0} (heap : BranchingHeap H) (given : ℕ → List Literal) (start : SolverCore H)
    : (ℕ → List Literal) → Phase → SolverCore H → Type 0 where
  starts : Run heap given start given due start
  propagates :
      {clauses : ℕ → List Literal} {s : SolverCore H}
      → Run heap given start clauses due s
      → (propagate s).1 ≡ none
      → Run heap given start clauses quiet (propagate s).0
  conflicts :
      {clauses : ℕ → List Literal} {s : SolverCore H} {ref : ℕ}
      → Run heap given start clauses due s
      → (propagate s).1 ≡ some ref
      → Run heap given start clauses conflicted (propagate s).0
  decides :
      {clauses : ℕ → List Literal} {s : SolverCore H} (l : Literal)
      → Run heap given start clauses quiet s
      → value_of s l ≡ unassigned
      → variable_of l < s.variable_count + 1
      → Run heap given start clauses due (decide s l)
  opens :
      {clauses : ℕ → List Literal} {s : SolverCore H}
      → Run heap given start clauses quiet s
      → Run heap given start clauses due (new_level s no_literal)
  learns :
      {clauses : ℕ → List Literal} {s : SolverCore H} (ref : ℕ) (u : Literal) (rest : List Literal)
      → Run heap given start clauses conflicted s
      → IsLearnable s ref u rest
      → Run heap given start (put clauses ref (u ∷ rest)) due (learn_clause heap s ref (u ∷ rest))
  restarts :
      {clauses : ℕ → List Literal} {s : SolverCore H} (target : ℕ)
      → Run heap given start clauses quiet s
      → target < s.level
      → Run heap given start clauses due (backtrack heap s target)

-- What holds in each phase.
abbrev pub Agrees : {H : Type 0} → (ℕ → List Literal) → Phase → SolverCore H → Type 0
Agrees original due s =
    (done queue : List Literal) × IsPropagating original done queue s × (s.propagated ≡ length done)
Agrees original quiet s = (s.propagated ≡ length s.trail) × IsPropagating original s.trail [] s
Agrees original conflicted s =
    (done queue : List Literal) × IsPropagating original done queue s
    × (s.propagated ≡ suc (length done))

quiet_of :
    {H : Type 0} (original : ℕ → List Literal) (r : SolverCore H × Option ℕ)
    → Propagated original r
    → r.1 ≡ none
    → Agrees original quiet r.0
quiet_of original (t, none) h e = h
quiet_of original (t, some ref) h e = cc e

conflicted_of :
    {H : Type 0} (original : ℕ → List Literal) (r : SolverCore H × Option ℕ) (ref : ℕ)
    → Propagated original r
    → r.1 ≡ some ref
    → Agrees original conflicted r.0
conflicted_of original (t, none) ref h e = cc e
conflicted_of original (t, some c) ref (done, queue, h, at, f) e = (done, queue, h, at)

back_to :
    {H : Type 0} (heap : BranchingHeap H) (original : ℕ → List Literal) (done queue : List Literal)
    (s : SolverCore H) (target : ℕ)
    → IsPropagating original done queue s
    → length done ≤ s.propagated
    → target < s.level
    → (backtrack heap s target).propagated ≡ length (take (trail_begin_of s.control target) done)
back_to heap original done queue s target h at under =
    let (kept, place, cut, same) =
      backtrack-IsPropagating heap original done queue s target h at under in
    place ∙ ap length (IsTrail.splits (IsPropagating.trail kept) ∙ append-nil _)

learned_place :
    {H : Type 0} (s : SolverCore H) (ref : ℕ) (u : Literal) (rest c : List Literal)
    → (assert_first (attach_literals (add_clause s ref (u ∷ rest)) ref c) ref (u ∷ rest)).propagated
      ≡ s.propagated
unfolding assert_first assign attach_literals push_watch add_clause
learned_place s ref u rest [] = refl
learned_place s ref u rest (a ∷ []) = refl
learned_place s ref u rest (a ∷ b ∷ c) = refl

module _ {H : Type 0} (heap : BranchingHeap H) (given : ℕ → List Literal) where
  -- Along every run of propagation, decisions, opened levels, learned clauses and restarts, trail,
  -- frames, tables, watch lists, reasons and clauses agree, provided that they did at the start: in a
  -- quiet state all of the trail is propagated, after a conflict `propagated` is one place past what
  -- is. Of a learned clause it takes what `IsLearnable` says.
  pub Run-Agrees :
      (start : SolverCore H)
      → Agrees given due start
      → (clauses : ℕ → List Literal) (p : Phase) (s : SolverCore H)
      → Run heap given start clauses p s
      → Agrees clauses p s
  unfolding decide assign new_level learn_clause attach_clause_for_propagation add_clause
  Run-Agrees start ok _ due s starts = ok
  Run-Agrees start ok clauses quiet _ (propagates {s = s} r e) =
      let (done, queue, h, at) = Run-Agrees start ok clauses due s r in
      quiet_of clauses (propagate s) (propagate-Propagated clauses done queue s h at) e
  Run-Agrees start ok clauses conflicted _ (conflicts {s = s} {ref} r e) =
      let (done, queue, h, at) = Run-Agrees start ok clauses due s r in
      conflicted_of clauses (propagate s) ref (propagate-Propagated clauses done queue s h at) e
  Run-Agrees start ok clauses due _ (decides {s = s} l r free low) =
      let (at, h) = Run-Agrees start ok clauses quiet s r in
      (s.trail, l ∷ [], decide-IsPropagating clauses s.trail s l h free low, at)
  Run-Agrees start ok clauses due _ (opens {s = s} r) =
      let (at, h) = Run-Agrees start ok clauses quiet s r in
      (s.trail, [], new_level-IsPropagating clauses s.trail s no_literal h, at)
  Run-Agrees start ok _ due _ (learns {clauses} {s} ref u rest r good) =
      let (done, queue, h, at) = Run-Agrees start ok clauses conflicted s r in
      let near : length done ≤ s.propagated = omega (arith, at) in
      let target = backjump_level s (u ∷ rest) in
      (
        take (trail_begin_of s.control target) done,
        u ∷ [],
        learn_clause-IsPropagating heap clauses done queue s ref u rest h near good,
        learned_place (backtrack heap s target) ref u rest _
            ∙ back_to heap clauses done queue s target h near (IsLearnable.under good),
      )
  Run-Agrees start ok clauses due _ (restarts {s = s} target r under) =
      let (at, h) = Run-Agrees start ok clauses quiet s r in
      let near : length s.trail ≤ s.propagated = omega (arith, at) in
      let (kept, place, cut, same) =
        backtrack-IsPropagating heap clauses s.trail [] s target h near under in
      (
        take (trail_begin_of s.control target) s.trail,
        [],
        kept,
        back_to heap clauses s.trail [] s target h near under,
      )

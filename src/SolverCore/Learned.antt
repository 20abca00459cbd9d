-- ===== src/SolverCore/Learned.antt =====
-- Learning a clause keeps trail, tables, watch lists, reasons and clauses in agreement
-- (source/library/src/kmx/sat/cdcl/solver_core.cpp, `learn_clause`).
use kmx_sat.Base.{
  ℕ, ◌+◌, ◌≤◌, ◌<◌, ◌≡◌, refl, sym, ap, subst, ◌∙◌, inl, inr, List, [], ◌∷◌, arith, put, take,
  length, Entry, here, there,
}
use kmx_sat.Literal.{Variable, Literal, variable_of}
use kmx_sat.Analyzer.Marking.{Distinct}
use kmx_sat.SolverCore.{falsified, unassigned, Watch, SolverCore, value_of, trail_begin_of}
use kmx_sat.SolverCore.Trail.{put_self}
use kmx_sat.SolverCore.Watching.{IsWatched}
use kmx_sat.SolverCore.Rewatch.{put-cases}
use kmx_sat.SolverCore.Scan.{IsPropagating}
use kmx_sat.SolverCore.Setup.{push_watch, attach_literals, attach_clause_for_propagation}
use kmx_sat.SolverCore.Attach.{pushed, pushed-Entry}
use kmx_sat.SolverCore.Rebuilt.{IsWatched-of_IsAttached, attach_literals-IsAttached}
use kmx_sat.SolverCore.Backjump.{BranchingHeap, backtrack}
use kmx_sat.SolverCore.Backtracked.{
  backtrack-IsPropagating, backtrack-same, backtrack-low, backtrack-high,
}
use kmx_sat.SolverCore.Learn.{backjump_level, add_clause, assert_first, learn_clause, IsLearnable}
use kmx_sat.SolverCore.Added.{put-IsAttached, added-IsPropagating}

-- From the state after the backjump on.
module _ {H : Type 0} (original : ℕ → List Literal) (done : List Literal) (t : SolverCore H)
    (ref : ℕ) (u : Literal) (h : IsPropagating original done [] t) (fresh : t.clauses ref ≡ [])
    (free : value_of t u ≡ unassigned) where
  attached :
      (rest : List Literal)
      → Distinct (u ∷ rest)
      → IsWatched
          (put t.clauses ref (u ∷ rest))
          (attach_literals (add_clause t ref (u ∷ rest)) ref (u ∷ rest)).watches
  unfolding add_clause
  attached rest d =
      let at_ref = put_self t.clauses ref (u ∷ rest) in
      let all : (j : ℕ) → Distinct (put t.clauses ref (u ∷ rest) j) = λ j.
        put-cases (λ j c. Distinct c) t.clauses ref (u ∷ rest) d j
          (λ n. IsWatched.distinct (IsPropagating.watched h) j) in
      IsWatched-of_IsAttached all (
        attach_literals-IsAttached (add_clause t ref (u ∷ rest)) ref [] (u ∷ rest) at_ref (all ref)
          tt (put-IsAttached t.clauses ref (u ∷ rest) fresh t.watches (IsPropagating.watched h)))

  asserted :
      (rest : List Literal)
      → Distinct (u ∷ rest)
      → ((x : Literal) → Entry x rest → value_of t x ≡ falsified)
      → ((x : Literal) → Entry x (u ∷ rest) → variable_of x < t.variable_count + 1)
      → ((v : Literal) (cs : List Literal) → rest ≡ v ∷ cs → t.levels (variable_of v) ≡ t.level)
      → IsPropagating (put original ref (u ∷ rest)) done (u ∷ []) (
          assert_first
            (attach_literals (add_clause t ref (u ∷ rest)) ref (u ∷ rest))
            ref
            (u ∷ rest))
  unfolding assert_first attach_literals push_watch add_clause
  asserted [] d low inside second =
      added-IsPropagating original done t ref u [] t.watches _ h fresh free low inside
        (attached [] d) (λ k w e. inl e)
  asserted (v ∷ cs) d low inside second =
      added-IsPropagating original done t ref u (v ∷ cs) _ t.unit_clause_refs h fresh free low
        inside (attached (v ∷ cs) d)
        (λ k w e. elim (pushed-Entry (pushed t.watches u _) v _ k w e) [
          | inl (at, same) ↦ inr (
            ap (λ (x : Watch). x.clause_ref) same,
            inr (subst (λ (x : Literal). t.levels (variable_of x) ≡ t.level) at (second v cs refl)),
          )
          | inr e ↦ elim (pushed-Entry t.watches u _ k w e) [
            | inl (at, same) ↦ inr (ap (λ (x : Watch). x.clause_ref) same, inl (sym at))
            | inr old ↦ inl old
          ]
        ])

second_level :
    {H : Type 0} (s : SolverCore H) (u v : Literal) (rest cs : List Literal)
    → rest ≡ v ∷ cs
    → backjump_level s (u ∷ rest) ≡ s.levels (variable_of v)
unfolding backjump_level
second_level s u v rest cs e = rw (e) refl

-- Learning a clause, from a state in which trail, frames, tables, watch lists, reasons and clauses
-- agree and `propagated` is not below the length of the propagated part, leaves a state in which they
-- agree again, with the learned clause among the clauses and its first literal the only one to
-- propagate; provided that the reference is new, the clause has no variable twice, all its literals
-- are false, only its first is on the current level and its second, if any, is on the highest level
-- of the rest (`IsLearnable`).
pub learn_clause-IsPropagating :
    {H : Type 0} (heap : BranchingHeap H) (original : ℕ → List Literal) (done queue : List Literal)
    (s : SolverCore H) (ref : ℕ) (u : Literal) (rest : List Literal)
    → IsPropagating original done queue s
    → length done ≤ s.propagated
    → IsLearnable s ref u rest
    → IsPropagating
        (put original ref (u ∷ rest))
        (take (trail_begin_of s.control (backjump_level s (u ∷ rest))) done)
        (u ∷ [])
        (learn_clause heap s ref (u ∷ rest))
unfolding learn_clause attach_clause_for_propagation add_clause
learn_clause-IsPropagating {H} heap original done queue s ref u rest h at good =
    let target = backjump_level s (u ∷ rest) in
    let under = IsLearnable.under good in
    let t = backtrack heap s target in
    let (same_clauses, same_levels, new_level, same_count) = backtrack-same heap s target under in
    let (kept, place, cut, same) =
      backtrack-IsPropagating heap original done queue s target h at under in
    let fresh =
      subst (λ (c : ℕ → List Literal). c ref ≡ []) (sym same_clauses) (IsLearnable.fresh good) in
    let free =
      backtrack-high heap s target under original done queue h u (IsLearnable.all_false good u here)
        (omega (arith, IsLearnable.current good, under)) in
    let low : (x : Literal) → Entry x rest → value_of t x ≡ falsified = λ x e.
      backtrack-low heap s target under original done queue h x
        (IsLearnable.all_false good x (there e)) (IsLearnable.below good x e) in
    let inside : (x : Literal) → Entry x (u ∷ rest) → variable_of x < t.variable_count + 1 =
      λ x e. omega (arith, IsLearnable.inside good x e, same_count) in
    let second : (v : Literal) (cs : List Literal)
        → rest ≡ v ∷ cs
        → t.levels (variable_of v) ≡ t.level =
      λ v cs e.
        ap (λ (f : Variable → ℕ). f (variable_of v)) same_levels
        ∙ sym (second_level s u v rest cs e)
        ∙ sym new_level in
    subst
      (λ (c : List Literal).
        IsPropagating (put original ref (u ∷ rest)) (take (trail_begin_of s.control target) done)
          (u ∷ [])
          (assert_first (attach_literals (add_clause t ref (u ∷ rest)) ref c) ref (u ∷ rest)))
      (sym (put_self t.clauses ref (u ∷ rest)))
      (asserted original _ t ref u kept fresh free rest (IsLearnable.distinct good) low inside
        second)

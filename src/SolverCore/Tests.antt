-- ===== src/SolverCore/Tests.antt =====
-- Runs of the search core on small clauses.
use kmx_sat.Base.{
  put, sym, Entry-single, ℕ, zero, suc, ◌<◌, ◌≡◌, refl, subst, true, false, none, some, [], ◌∷◌,
  arith, length, take, Entry, All-entry,
}
use kmx_sat.Literal.{Literal, variable_of, is_negated, negated}
use kmx_sat.Literal.Meaning.{Assignment, literal_true}
use kmx_sat.SolverCore.{
  falsified, value_of, is_open, trail_begin_of, propagate, propagate_loop, propagate_literal,
  scan_watches, visit_watch, visit_binary, visit_long, visit_rest, find_replacement, assign,
  new_level, unassigned_below,
}
use kmx_sat.Propagator
use kmx_sat.SolverCore.Propagation.{Propagated, propagate-Propagated}
use kmx_sat.SolverCore.Watching.{IsWatched}
use kmx_sat.SolverCore.Rebuilt.{rebuild_propagation_state-IsWatched}
use kmx_sat.SolverCore.Scan.{IsPropagating}
use kmx_sat.SolverCore.Fixpoint.{
  Attended, propagate-Attended, Satisfies, Decided, propagate-Entailed,
}
use kmx_sat.SolverCore.Decide.{Complete, internal_model-propagate}
use kmx_sat.SolverCore.Setup.{
  attach_all, attach_clause_for_propagation, attach_literals, push_watch, internal_model,
  rebuild_propagation_state, decide,
}
use kmx_sat.SolverCore.Backjump.{backtrack}
use kmx_sat.SolverCore.Learn.{backjump_level, learn_clause, IsLearnable}
use kmx_sat.SolverCore.Learned.{learn_clause-IsPropagating}
use kmx_sat.SolverCore.Backtracked.{backtrack-IsPropagating}
use kmx_sat.SolverCore.Run.{due, conflicted, Run, starts, conflicts, learns, Agrees, Run-Agrees}
use kmx_sat.SolverCore.Samples.{
  lit, clashing, agreeing, list_heap, blank, built, clashing-Distinct, clashing-listed, refs_apart,
  clashing_decided, agreeing_decided, clashing_ready, agreeing_ready,
}

rebuild_propagation_state-IsWatched_example : IsWatched clashing (built clashing).watches
rebuild_propagation_state-IsWatched_example =
    rebuild_propagation_state-IsWatched (blank clashing) (0 ∷ 1 ∷ 2 ∷ []) clashing-Distinct
      refs_apart clashing-listed

-- a, b and c are assigned, then the third clause is reported.
propagate_clashing :
    ((propagate clashing_decided).1 ≡ some 2)
    × ((propagate clashing_decided).0.trail ≡ lit 2 ∷ lit 4 ∷ lit 6 ∷ [])
    × ((propagate clashing_decided).0.level ≡ 1)
unfolding propagate propagate_loop propagate_literal scan_watches visit_watch visit_binary
    visit_long visit_rest find_replacement assign new_level decide rebuild_propagation_state
    attach_all attach_clause_for_propagation attach_literals push_watch negated variable_of
    is_negated unassigned_below Propagator.propagate
propagate_clashing = (refl, refl, refl)

propagate_agreeing :
    ((propagate agreeing_decided).1 ≡ none)
    × ((propagate agreeing_decided).0.trail ≡ lit 2 ∷ lit 4 ∷ lit 6 ∷ [])
    × ((propagate agreeing_decided).0.clauses 1 ≡ lit 6 ∷ lit 5 ∷ lit 3 ∷ [])
    × ((propagate agreeing_decided).0.variable_count ≡ 3)
    × ((n : ℕ) → (propagate agreeing_decided).0.clauses (suc (suc (suc n))) ≡ [])
unfolding propagate propagate_loop propagate_literal scan_watches visit_watch visit_binary
    visit_long visit_rest find_replacement assign new_level decide rebuild_propagation_state
    attach_all attach_clause_for_propagation attach_literals push_watch negated variable_of
    is_negated unassigned_below Propagator.propagate
propagate_agreeing = (refl, refl, refl, refl, λ n. ground arith)

clashing_above : 0 < clashing_decided.level
unfolding decide assign new_level rebuild_propagation_state attach_all attach_clause_for_propagation
    attach_literals push_watch
clashing_above = omega arith

clashing_place : clashing_decided.propagated ≡ 0
unfolding decide assign new_level rebuild_propagation_state attach_all attach_clause_for_propagation
    attach_literals push_watch
clashing_place = refl

agreeing_place : agreeing_decided.propagated ≡ 0
unfolding decide assign new_level rebuild_propagation_state attach_all attach_clause_for_propagation
    attach_literals push_watch
agreeing_place = refl

propagate-Propagated_example : Propagated clashing (propagate clashing_decided)
propagate-Propagated_example =
    propagate-Propagated clashing [] (lit 2 ∷ []) clashing_decided clashing_ready clashing_place

abbrev all_true : Assignment
all_true v = true

agreeing_model : Satisfies all_true agreeing
unfolding variable_of is_negated
agreeing_model zero x e = refl
agreeing_model (suc zero) x e = refl
agreeing_model (suc (suc zero)) x e = refl
agreeing_model (suc (suc (suc n))) x e = elim e [ ]

agreeing_decisions : Decided all_true (propagate agreeing_decided).0
unfolding variable_of is_negated
agreeing_decisions l e r =
    All-entry (λ l. literal_true all_true l ≡ true) (lit 2 ∷ lit 4 ∷ lit 6 ∷ [])
      (refl, (refl, (refl, tt))) (subst (Entry l) propagate_agreeing.1 e)

propagate-Entailed_example :
    ((propagate agreeing_decided).1 ≡ none)
    × ((l : Literal)
        → Entry l (propagate agreeing_decided).0.trail
        → literal_true all_true l ≡ true)
propagate-Entailed_example =
    propagate-Entailed agreeing all_true agreeing_model [] (lit 2 ∷ []) agreeing_decided
      agreeing_ready agreeing_place agreeing_decisions

propagate-Attended_example : Attended (propagate agreeing_decided).0 1 (lit 6) (lit 5)
propagate-Attended_example =
    propagate-Attended agreeing [] (lit 2 ∷ []) agreeing_decided agreeing_ready agreeing_place
      propagate_agreeing.0 1 (lit 6) (lit 5) (lit 3 ∷ []) propagate_agreeing.2

abbrev Good : Literal → Type 0
Good l = (0 < variable_of l) × (is_open (value_of (propagate agreeing_decided).0 l) ≡ false)

Complete-agreeing : Complete (propagate agreeing_decided).0
unfolding propagate propagate_loop propagate_literal scan_watches visit_watch visit_binary
    visit_long visit_rest find_replacement assign new_level decide rebuild_propagation_state
    attach_all attach_clause_for_propagation attach_literals push_watch negated variable_of
    is_negated unassigned_below Propagator.propagate
Complete-agreeing zero x e =
    All-entry Good (lit 3 ∷ lit 4 ∷ []) ((omega arith, refl), ((omega arith, refl), tt)) e
Complete-agreeing (suc zero) x e =
    All-entry Good (lit 6 ∷ lit 5 ∷ lit 3 ∷ [])
      ((omega arith, refl), ((omega arith, refl), ((omega arith, refl), tt))) e
Complete-agreeing (suc (suc zero)) x e =
    All-entry Good (lit 5 ∷ lit 6 ∷ []) ((omega arith, refl), ((omega arith, refl), tt)) e
Complete-agreeing (suc (suc (suc n))) x e = elim (subst (Entry x) (propagate_agreeing.4 n) e) [ ]

internal_model-propagate_example :
    (x : Literal) × Entry x ((propagate agreeing_decided).0.clauses 1)
    × Entry x (internal_model (propagate agreeing_decided).0)
internal_model-propagate_example =
    internal_model-propagate agreeing [] (lit 2 ∷ []) agreeing_decided agreeing_ready agreeing_place
      propagate_agreeing.0 Complete-agreeing (omega (arith, propagate_agreeing.3)) 1 (lit 6) (lit 5)
      (lit 3 ∷ []) propagate_agreeing.2

-- Back from the conflict to the root.
clashing_due : Agrees clashing due clashing_decided
clashing_due = ([], lit 2 ∷ [], clashing_ready, clashing_place)

clashing_run :
    Run list_heap clashing clashing_decided clashing conflicted (propagate clashing_decided).0
clashing_run = conflicts starts propagate_clashing.0

-- The conflict is resolved into ¬a.
clashing-IsLearnable : IsLearnable (propagate clashing_decided).0 3 (lit 3) []
unfolding propagate propagate_loop propagate_literal scan_watches visit_watch visit_binary
    visit_long visit_rest find_replacement assign new_level decide rebuild_propagation_state
    attach_all attach_clause_for_propagation attach_literals push_watch negated variable_of
    is_negated unassigned_below Propagator.propagate backjump_level
clashing-IsLearnable = record {
  fresh = refl;
  distinct = (tt, tt);
  inside = λ x e. subst (λ (y : Literal). variable_of y < 4) (sym (Entry-single e)) (omega arith);
  all_false = λ x e.
      subst (λ (y : Literal). value_of (propagate clashing_decided).0 y ≡ falsified)
        (sym (Entry-single e)) refl;
  current = refl;
  below = λ x e. elim e [ ];
  under = omega arith;
}

Run-Agrees_example :
    Agrees
      (put clashing 3 (lit 3 ∷ []))
      due
      (learn_clause list_heap (propagate clashing_decided).0 3 (lit 3 ∷ []))
Run-Agrees_example =
    Run-Agrees list_heap clashing clashing_decided clashing_due (put clashing 3 (lit 3 ∷ [])) due
      (learn_clause list_heap (propagate clashing_decided).0 3 (lit 3 ∷ []))
      (learns 3 (lit 3) [] clashing_run clashing-IsLearnable)

decided-IsLearnable : IsLearnable clashing_decided 3 (lit 3) []
unfolding propagate propagate_loop propagate_literal scan_watches visit_watch visit_binary
    visit_long visit_rest find_replacement assign new_level decide rebuild_propagation_state
    attach_all attach_clause_for_propagation attach_literals push_watch negated variable_of
    is_negated unassigned_below Propagator.propagate backjump_level
decided-IsLearnable = record {
  fresh = refl;
  distinct = (tt, tt);
  inside = λ x e. subst (λ (y : Literal). variable_of y < 4) (sym (Entry-single e)) (omega arith);
  all_false = λ x e.
      subst (λ (y : Literal). value_of clashing_decided y ≡ falsified) (sym (Entry-single e)) refl;
  current = refl;
  below = λ x e. elim e [ ];
  under = omega arith;
}

learn_clause-IsPropagating_example :
    IsPropagating
      (put clashing 3 (lit 3 ∷ []))
      (take
        (trail_begin_of clashing_decided.control (backjump_level clashing_decided (lit 3 ∷ [])))
        [])
      (lit 3 ∷ [])
      (learn_clause list_heap clashing_decided 3 (lit 3 ∷ []))
learn_clause-IsPropagating_example =
    learn_clause-IsPropagating list_heap clashing [] (lit 2 ∷ []) clashing_decided 3 (lit 3) []
      clashing_ready (omega arith) decided-IsLearnable

backtrack-IsPropagating_example :
    IsPropagating clashing
      (take (trail_begin_of clashing_decided.control 0) [])
      []
      (backtrack list_heap clashing_decided 0)
    × ((backtrack list_heap clashing_decided 0).propagated
        ≡ length (backtrack list_heap clashing_decided 0).trail)
    × ((backtrack list_heap clashing_decided 0).trail
        ≡ take (trail_begin_of clashing_decided.control 0) clashing_decided.trail)
    × ((l : Literal)
        → Entry l (take (trail_begin_of clashing_decided.control 0) clashing_decided.trail)
        → value_of (backtrack list_heap clashing_decided 0) l ≡ value_of clashing_decided l)
backtrack-IsPropagating_example =
    backtrack-IsPropagating list_heap clashing [] (lit 2 ∷ []) clashing_decided 0 clashing_ready
      (omega arith) clashing_above

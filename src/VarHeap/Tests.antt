-- ===== src/VarHeap/Tests.antt =====
-- A heap of four candidates with scores (source/library/src/kmx/sat/cdcl/var_heap.cpp) and the
-- theorems at it.
use kmx_sat.Base.{
  ℕ, ◌<◌, ◌≡◌, refl, sym, subst, ◌∙◌, true, false, not, ◌&&◌, none, List, [], ◌∷◌, arith, ltb, ◌==◌,
  if◌then◌else◌, here, there, put, ◌⊎◌, inl, inr,
}
use kmx_sat.Literal.{Variable, Literal, literal, variable_of}
use kmx_sat.SolverCore.Backjump.{requeue, backtrack}
use kmx_sat.SolverCore.{satisfied, falsified, unassigned, SolverCore, no_frame}
use kmx_sat.VarHeap.Unwound.{IsCovering, backtrack-IsCovering}
use kmx_sat.VarHeap.{
  Scores, sift_up, climb, place, parent_of, VarHeap, contains, top, ranks_below, push, pop,
  branching_heap,
}
use kmx_sat.VarHeap.Order.{IsLinear}
use kmx_sat.VarHeap.Popped.{pop-IsHeap}
use kmx_sat.VarHeap.Candidates.{IsHeap, requeue-IsHeap}

abbrev natural : Scores ℕ
natural = record { less = ltb; same = λ a b. a == b }

natural-IsLinear : IsLinear natural
natural-IsLinear = record {
  less_asym = λ a b h. ground arith;
  less_split = λ a b c h k. ground arith;
  same_unless = λ a b. ground arith;
}

abbrev blank : VarHeap ℕ
blank = record {
  scores = λ v. if v == 2 then 7 else 4;
  heap = λ k. 0;
  count = 0;
  positions = λ v. none;
}

blank-IsHeap : IsHeap natural blank
blank-IsHeap = record {
  placed = (λ k below. absurd (omega arith), λ v k at. absurd (ground arith));
  ordered = λ k pos below. absurd (omega arith);
}

abbrev lits : List Literal
lits = literal 1 false ∷ literal 2 true ∷ []

abbrev full : VarHeap ℕ
full = requeue (branching_heap natural) blank lits

full-IsHeap : IsHeap natural full
full-IsHeap = (requeue-IsHeap natural natural-IsLinear lits blank blank-IsHeap).0

full_held : (v : Variable) → (v ≡ 1) ⊎ (v ≡ 2) → contains full v ≡ true
unfolding variable_of literal
full_held v h =
    let each = (requeue-IsHeap natural natural-IsLinear lits blank blank-IsHeap).1 in
    elim h [
      | inl one ↦ rw (one) (each (literal 1 false) here)
      | inr two ↦ rw (two) (each (literal 2 true) (there here))
    ]

full_entries : (0 < full.count) × (top full ≡ 2)
unfolding requeue branching_heap contains push top sift_up climb place variable_of literal
    ranks_below parent_of
full_entries = (omega arith, refl)

pop-IsHeap_example :
    IsHeap natural (pop natural full).0
    × ((v : Variable)
        → contains (pop natural full).0 v ≡ (not ((pop natural full).1 == v) && contains full v))
    × (contains full (pop natural full).1 ≡ true)
    × ((v : Variable)
        → contains full v ≡ true
        → ranks_below natural full.scores (pop natural full).1 v ≡ false)
pop-IsHeap_example = pop-IsHeap natural natural-IsLinear full full-IsHeap full_entries.0

-- The best candidate is taken out and assigned.
abbrev decided : SolverCore (VarHeap ℕ)
decided = record {
  values = put (put (λ j. unassigned) 4 satisfied) 5 falsified;
  levels = put (λ v. 0) 2 1;
  reasons = λ v. none;
  trail_positions = λ v. 0;
  saved_phase = λ v. satisfied;
  trail = literal 2 false ∷ [];
  control = no_frame ∷ no_frame ∷ [];
  propagated = 0;
  level = 1;
  variable_count = 2;
  heap = (pop natural full).0;
  propagator = record {
    watched = [];
    staged_conflicts = [];
    staged_conflict_head = 0;
    propagation_call_count = 0;
    assumption_propagation_call_count = 0;
    beyond_conflict_propagation_call_count = 0;
    pending_assumption_count = 0;
  };
  clauses = λ ref. [];
  unit_clause_refs = [];
  watches = λ j. [];
  watch_entry_scan_count = 0;
  binary_watch_scan_count = 0;
  binary_watch_conflict_count = 0;
  propagation_assignment_count = 0;
  iterate_count = 0;
}

first_popped : (pop natural full).1 ≡ 2
unfolding pop requeue top
first_popped = full_entries.1

decided_open :
    (l : Literal)
    → 0 < variable_of l
    → variable_of l < 3
    → put (put (λ (j : ℕ). unassigned) 4 satisfied) 5 falsified l.raw ≡ unassigned
    → variable_of l ≡ 1
unfolding variable_of
decided_open l some_variable inside free = ground arith

still_held : contains (pop natural full).0 1 ≡ true
still_held =
    let same = (pop-IsHeap natural natural-IsLinear full full-IsHeap full_entries.0).1 1 in
    same ∙ rw (first_popped) (full_held 1 (inl refl))

decided-IsCovering : IsCovering natural decided
decided-IsCovering = record {
  heap = (pop-IsHeap natural natural-IsLinear full full-IsHeap full_entries.0).0;
  covers = λ l some_variable inside free.
      subst (λ (v : Variable). contains (pop natural full).0 v ≡ true)
        (sym (decided_open l some_variable inside free)) still_held;
}

backtrack-IsCovering_example : IsCovering natural (backtrack (branching_heap natural) decided 0)
backtrack-IsCovering_example =
    backtrack-IsCovering natural natural-IsLinear decided 0 decided-IsCovering

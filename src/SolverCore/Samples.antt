-- ===== src/SolverCore/Samples.antt =====
-- The clauses ¬a ∨ b, ¬a ∨ ¬b ∨ c and ¬b ∨ ¬c over a = 1, b = 2 and c = 3, with a decided: b and c
-- follow, and the third clause is falsified. With its c positive nothing is. The branching heap is a
-- list.
use kmx_sat.Base.{
  ℕ, zero, suc, ◌<◌, ◌≡◌, refl, none, List, [], ◌∷◌, arith, Entry, here, there, All, All-entry,
}
use kmx_sat.Literal.{Literal, variable_of}
use kmx_sat.Analyzer.{contains}
use kmx_sat.SolverCore.{unassigned, satisfied, SolverCore, no_frame}
use kmx_sat.Analyzer.Marking.{Distinct}
use kmx_sat.SolverCore.Watching.{IsWatched}
use kmx_sat.SolverCore.Attach.{AllApart}
use kmx_sat.SolverCore.Rebuilt.{rebuild_propagation_state-IsWatched}
use kmx_sat.SolverCore.Scan.{IsPropagating}
use kmx_sat.SolverCore.Decide.{start-IsPropagating, decide-IsPropagating}
use kmx_sat.SolverCore.Setup.{
  attach_all, attach_clause_for_propagation, attach_literals, push_watch, rebuild_propagation_state,
  decide,
}
use kmx_sat.SolverCore.Backjump.{BranchingHeap}

abbrev pub lit : ℕ → Literal
lit r = record { raw = r }

abbrev pub clashing : ℕ → List Literal
clashing zero = lit 3 ∷ lit 4 ∷ []
clashing (suc zero) = lit 3 ∷ lit 5 ∷ lit 6 ∷ []
clashing (suc (suc zero)) = lit 5 ∷ lit 7 ∷ []
clashing (suc (suc (suc n))) = []

abbrev pub agreeing : ℕ → List Literal
agreeing zero = lit 3 ∷ lit 4 ∷ []
agreeing (suc zero) = lit 3 ∷ lit 5 ∷ lit 6 ∷ []
agreeing (suc (suc zero)) = lit 5 ∷ lit 6 ∷ []
agreeing (suc (suc (suc n))) = []

abbrev pub list_heap : BranchingHeap (List ℕ)
list_heap = record { contains = λ h v. contains v h; push = λ h v. v ∷ h }

abbrev pub blank : (ℕ → List Literal) → SolverCore (List ℕ)
blank clauses = record {
  values = λ _. unassigned;
  levels = λ _. 0;
  reasons = λ _. none;
  trail_positions = λ _. 0;
  saved_phase = λ _. satisfied;
  trail = [];
  control = no_frame ∷ [];
  propagated = 0;
  level = 0;
  variable_count = 3;
  heap = [];
  propagator = record {
    watched = [];
    staged_conflicts = [];
    staged_conflict_head = 0;
    propagation_call_count = 0;
    assumption_propagation_call_count = 0;
    beyond_conflict_propagation_call_count = 0;
    pending_assumption_count = 0;
  };
  clauses = clauses;
  unit_clause_refs = [];
  watches = λ _. [];
  watch_entry_scan_count = 0;
  binary_watch_scan_count = 0;
  binary_watch_conflict_count = 0;
  propagation_assignment_count = 0;
  iterate_count = 0;
}

abbrev pub built : (ℕ → List Literal) → SolverCore (List ℕ)
built clauses = rebuild_propagation_state (blank clauses) (0 ∷ 1 ∷ 2 ∷ [])

pub clashing-Distinct : (ref : ℕ) → Distinct (clashing ref)
unfolding variable_of
clashing-Distinct zero = ground arith
clashing-Distinct (suc zero) = ground arith
clashing-Distinct (suc (suc zero)) = ground arith
clashing-Distinct (suc (suc (suc n))) = tt

agreeing-Distinct : (ref : ℕ) → Distinct (agreeing ref)
unfolding variable_of
agreeing-Distinct zero = ground arith
agreeing-Distinct (suc zero) = ground arith
agreeing-Distinct (suc (suc zero)) = ground arith
agreeing-Distinct (suc (suc (suc n))) = tt

pub clashing-listed :
    (ref : ℕ) (a b : Literal) (cs : List Literal)
    → clashing ref ≡ a ∷ b ∷ cs
    → Entry ref (0 ∷ 1 ∷ 2 ∷ [])
clashing-listed zero a b cs e = here
clashing-listed (suc zero) a b cs e = there here
clashing-listed (suc (suc zero)) a b cs e = there (there here)
clashing-listed (suc (suc (suc n))) a b cs e = cc e

agreeing-listed :
    (ref : ℕ) (a b : Literal) (cs : List Literal)
    → agreeing ref ≡ a ∷ b ∷ cs
    → Entry ref (0 ∷ 1 ∷ 2 ∷ [])
agreeing-listed zero a b cs e = here
agreeing-listed (suc zero) a b cs e = there here
agreeing-listed (suc (suc zero)) a b cs e = there (there here)
agreeing-listed (suc (suc (suc n))) a b cs e = cc e

pub refs_apart : AllApart (0 ∷ 1 ∷ 2 ∷ [])
refs_apart = ((refl, (refl, tt)), ((refl, tt), (tt, tt)))

clashing-IsWatched : IsWatched clashing (built clashing).watches
clashing-IsWatched =
    rebuild_propagation_state-IsWatched (blank clashing) (0 ∷ 1 ∷ 2 ∷ []) clashing-Distinct
      refs_apart clashing-listed

agreeing-IsWatched : IsWatched agreeing (built agreeing).watches
agreeing-IsWatched =
    rebuild_propagation_state-IsWatched (blank agreeing) (0 ∷ 1 ∷ 2 ∷ []) agreeing-Distinct
      refs_apart agreeing-listed

-- The literals of a list of them, one by one.
in_range :
    (x : Literal) (c : List Literal)
    → All (λ l. (0 < variable_of l) × (variable_of l < 4)) c
    → Entry x c
    → (0 < variable_of x) × (variable_of x < 4)
in_range x c h e = All-entry (λ l. (0 < variable_of l) × (variable_of l < 4)) c h e

clashing_range :
    (ref : ℕ) (x : Literal) → Entry x (clashing ref) → (0 < variable_of x) × (variable_of x < 4)
unfolding variable_of
clashing_range zero x = in_range x _ (ground arith)
clashing_range (suc zero) x = in_range x _ (ground arith)
clashing_range (suc (suc zero)) x = in_range x _ (ground arith)
clashing_range (suc (suc (suc n))) x = λ e. elim e [ ]

agreeing_range :
    (ref : ℕ) (x : Literal) → Entry x (agreeing ref) → (0 < variable_of x) × (variable_of x < 4)
unfolding variable_of
agreeing_range zero x = in_range x _ (ground arith)
agreeing_range (suc zero) x = in_range x _ (ground arith)
agreeing_range (suc (suc zero)) x = in_range x _ (ground arith)
agreeing_range (suc (suc (suc n))) x = λ e. elim e [ ]

clashing_start : IsPropagating clashing [] [] (built clashing)
unfolding rebuild_propagation_state attach_all attach_clause_for_propagation attach_literals
    push_watch
clashing_start =
    start-IsPropagating (built clashing) refl refl refl (λ i. refl) clashing-IsWatched
      (λ ref x e. (clashing_range ref x e).1)

agreeing_start : IsPropagating agreeing [] [] (built agreeing)
unfolding rebuild_propagation_state attach_all attach_clause_for_propagation attach_literals
    push_watch
agreeing_start =
    start-IsPropagating (built agreeing) refl refl refl (λ i. refl) agreeing-IsWatched
      (λ ref x e. (agreeing_range ref x e).1)

abbrev pub clashing_decided : SolverCore (List ℕ)
clashing_decided = decide (built clashing) (lit 2)

abbrev pub agreeing_decided : SolverCore (List ℕ)
agreeing_decided = decide (built agreeing) (lit 2)

pub clashing_ready : IsPropagating clashing [] (lit 2 ∷ []) clashing_decided
unfolding rebuild_propagation_state attach_all attach_clause_for_propagation attach_literals
    push_watch variable_of
clashing_ready =
    decide-IsPropagating clashing [] (built clashing) (lit 2) clashing_start refl (omega arith)

pub agreeing_ready : IsPropagating agreeing [] (lit 2 ∷ []) agreeing_decided
unfolding rebuild_propagation_state attach_all attach_clause_for_propagation attach_literals
    push_watch variable_of
agreeing_ready =
    decide-IsPropagating agreeing [] (built agreeing) (lit 2) agreeing_start refl (omega arith)

-- ===== src/SolverCore.antt =====
-- The search core (source/library/inc/kmx/sat/cdcl/solver_core.hpp and
-- source/library/src/kmx/sat/cdcl/solver_core.cpp): assignment, decision levels, unit propagation
-- over watched literals with blocking literals, backtracking. The arena of clauses is the function
-- from a reference to its literals; no relocation is pending, as after a compaction, so that
-- `resolve_ref` gives back its argument. Tables that are sized per episode are functions. The
-- branching heap is the parameter `H`; see `BranchingHeap`.
pub mod Cut
pub mod Trail
pub mod Assigned
pub mod Watching
pub mod Replacement
pub mod Rewatch
pub mod MoveWatch
pub mod Propagated
pub mod Scanning
pub mod Writes
pub mod Visiting
pub mod Visited
pub mod Scan
pub mod Turn
pub mod Frozen
pub mod Propagation
pub mod Fixpoint
pub mod Setup
pub mod Attach
pub mod Rebuilt
pub mod Decide
pub mod Backjump
pub mod Restore
pub mod Rollback
pub mod Backtracked
pub mod Learn
pub mod Added
pub mod Learned
pub mod Run
mod Samples
mod Tests
use kmx_sat.Base.{
  ℕ, zero, suc, ◌+◌, ◌-◌, ◌*◌, bit_xor, Bool, true, false, not, Option, none, some, List, [], ◌∷◌,
  ◌++◌, ◌==◌, ltb, leb, if◌then◌else◌, length, get_elem?, get_or, take, drop, put, reverse,
}
use kmx_sat.Literal.{Variable, Literal, no_literal, variable_of, is_negated, negated}
use kmx_sat.Propagator.{Propagator}
use kmx_sat.Propagator

-- The entries of `values_`: -1, 0 and 1.
pub data Value : Type 0 where
  falsified unassigned satisfied : Value

pub record Watch : Type 0 where
  pub blocking_literal : Literal
  pub clause_ref : ℕ
  pub is_binary : Bool

pub record ControlFrame : Type 0 where
  pub trail_begin : ℕ
  pub decision : Literal
  pub seen_count : ℕ
  pub seen_min_trail : ℕ

pub record SolverCore (H : Type 0) : Type 0 where
  pub values : ℕ → Value
  pub levels : Variable → ℕ
  pub reasons : Variable → Option ℕ
  pub trail_positions : Variable → ℕ
  pub saved_phase : Variable → Value
  pub trail : List Literal
  pub control : List ControlFrame
  pub propagated : ℕ
  pub level : ℕ
  pub variable_count : ℕ
  pub heap : H
  pub propagator : Propagator
  pub clauses : ℕ → List Literal
  pub unit_clause_refs : List ℕ
  pub watches : ℕ → List Watch
  pub watch_entry_scan_count : ℕ
  pub binary_watch_scan_count : ℕ
  pub binary_watch_conflict_count : ℕ
  pub propagation_assignment_count : ℕ
  pub iterate_count : ℕ

abbrev pub no_frame : ControlFrame
no_frame = record { trail_begin = 0; decision = no_literal; seen_count = 0; seen_min_trail = 0 }

-- Where the assignments above a level start.
abbrev pub trail_begin_of : List ControlFrame → ℕ → ℕ
trail_begin_of control target = ControlFrame.trail_begin (get_or control (target + 1) no_frame)

abbrev pub opposite : Value → Value
opposite falsified = satisfied
opposite unassigned = unassigned
opposite satisfied = falsified

abbrev pub is_falsified : Value → Bool
is_falsified falsified = true
is_falsified unassigned = false
is_falsified satisfied = false

abbrev pub is_open : Value → Bool
is_open falsified = false
is_open unassigned = true
is_open satisfied = false

abbrev pub is_satisfied : Value → Bool
is_satisfied falsified = false
is_satisfied unassigned = false
is_satisfied satisfied = true

module _ {H : Type 0} where
  abbrev pub value_of : SolverCore H → Literal → Value
  value_of s l = s.values l.raw

  unfoldable pub assign : SolverCore H → Literal → Option ℕ → SolverCore H
  assign s lit reason = record s {
    values = put (put s.values lit.raw satisfied) (negated lit).raw falsified;
    levels = put s.levels (variable_of lit) s.level;
    reasons = put s.reasons (variable_of lit) reason;
    trail_positions = put s.trail_positions (variable_of lit) (length s.trail);
    saved_phase =
        put s.saved_phase (variable_of lit) (if is_negated lit then falsified else satisfied);
    trail = s.trail ++ lit ∷ [];
  }

  unfoldable pub new_level : SolverCore H → Literal → SolverCore H
  new_level s decision = record s {
    level = s.level + 1;
    control =
        s.control
        ++ (record {
          trail_begin = length s.trail;
          decision = decision;
          seen_count = 0;
          seen_min_trail = 0;
        })
          ∷ [];
  }

-- How many of the variables below a bound are open.
unfoldable pub unassigned_below : (ℕ → Value) → ℕ → ℕ
unassigned_below values zero = 0
unassigned_below values (suc v) =
    (if is_open (values (v * 2)) then 1 else 0) + unassigned_below values v

-- The search from the third literal on for one that is not false, which the falsified literal
-- replaces: the literal found, and what then stands from the third literal on.
unfoldable pub find_replacement :
    (ℕ → Value) → Literal → List Literal → Option (Literal × List Literal)
find_replacement values not_lit [] = none
find_replacement values not_lit (c ∷ cs) =
    let later = find_replacement values not_lit cs in
    elim (is_falsified (values c.raw)) [
      | false ↦ some (c, not_lit ∷ cs)
      | true ↦ elim later [ none ↦ none | some (r, ds) ↦ some (r, c ∷ ds) ]
    ]

-- What becomes of one watch: it is kept, it moves to another list, or its clause is falsified.
pub data Visit (H : Type 0) : Type 0 where
  kept : SolverCore H → Watch → Visit H
  moved : SolverCore H → Visit H
  conflicting : SolverCore H → Watch → ℕ → Visit H

module _ {H : Type 0} where
  unfoldable pub visit_binary : SolverCore H → Watch → Visit H
  visit_binary s entry =
      let counted : SolverCore H = record s {
        binary_watch_scan_count = s.binary_watch_scan_count + 1;
      } in
      elim (is_falsified (value_of s entry.blocking_literal)) [
        | true ↦
            conflicting
              (record counted { binary_watch_conflict_count = s.binary_watch_conflict_count + 1 })
              entry entry.clause_ref
        | false ↦ kept (assign counted entry.blocking_literal (some entry.clause_ref)) entry
      ]

  -- The search for another watch, with the other watched literal and the literals from the third on.
  unfoldable pub visit_rest : Literal → SolverCore H → ℕ → Literal → List Literal → Visit H
  visit_rest not_lit s ref other rest =
      let entry : Watch = record {
        blocking_literal = other;
        clause_ref = ref;
        is_binary = false;
      } in
      elim (is_satisfied (value_of s other)) [
        | true ↦ kept s entry
        | false ↦ elim (find_replacement s.values not_lit rest) [
          | some (replacement, after) ↦ moved (record s {
            clauses = put s.clauses ref (other ∷ replacement ∷ after);
            watches = put s.watches replacement.raw (s.watches replacement.raw ++ entry ∷ []);
          })
          | none ↦ elim (is_falsified (value_of s other)) [
            | true ↦ conflicting s entry ref
            | false ↦
                kept
                  (assign (record s { clauses = put s.clauses ref (other ∷ not_lit ∷ rest) }) other
                    (some ref))
                  entry
          ]
        ]
      ]

  -- A watched clause has two literals; of a shorter one nothing would be read.
  unfoldable pub visit_long : Literal → SolverCore H → Watch → List Literal → Visit H
  visit_long not_lit s entry [] = kept s entry
  visit_long not_lit s entry (a ∷ []) = kept s entry
  visit_long not_lit s entry (a ∷ b ∷ rest) =
      visit_rest not_lit s entry.clause_ref
        (record { raw = bit_xor (bit_xor a.raw b.raw) not_lit.raw }) rest

  unfoldable pub visit_watch : Literal → SolverCore H → Watch → Visit H
  visit_watch not_lit s entry = elim (is_satisfied (value_of s entry.blocking_literal)) [
    | true ↦ kept s entry
    | false ↦ elim entry.is_binary [
      | true ↦ visit_binary s entry
      | false ↦ visit_long not_lit s entry (s.clauses entry.clause_ref)
    ]
  ]

  -- The pass over one list, which the source compacts in place. A watch only moves to a list of a
  -- literal that is not false, hence never to this one, which is written back at the end. The
  -- counters, which the source adds up at the end, count here as the watches are read.
  unfoldable pub scan_watches :
      Literal → SolverCore H → List Watch → List Watch → (SolverCore H × List Watch) × Option ℕ
  scan_watches not_lit s written [] = ((s, written), none)
  scan_watches not_lit s written (entry ∷ rest) =
      let read : SolverCore H = record s {
        watch_entry_scan_count = s.watch_entry_scan_count + 1;
      } in
      elim (visit_watch not_lit read entry) [
        | kept t w ↦ scan_watches not_lit t (written ++ w ∷ []) rest
        | moved t ↦ scan_watches not_lit t written rest
        | conflicting t w ref ↦ ((t, written ++ w ∷ rest), some ref)
      ]

  unfoldable pub propagate_literal : SolverCore H → Literal → SolverCore H × Option ℕ
  propagate_literal s lit =
      let not_lit = negated lit in
      let counted : SolverCore H = record s {
        propagated = s.propagated + 1;
        iterate_count = s.iterate_count + 1;
      } in
      let ((t, written), conflict) = scan_watches not_lit counted [] (s.watches not_lit.raw) in
      (record t { watches = put t.watches not_lit.raw written }, conflict)

  -- The outer loop, on a number of turns.
  unfoldable pub propagate_loop : ℕ → SolverCore H → SolverCore H × Option ℕ
  propagate_loop zero s = (s, none)
  propagate_loop (suc turns) s = elim (get_elem? s.trail s.propagated) [
    | none ↦ (s, none)
    | some lit ↦
        let (t, conflict) = propagate_literal s lit in
        elim conflict [ some ref ↦ (t, some ref) | none ↦ propagate_loop turns t ]
  ]

  -- A turn takes a literal off the queue, and an assignment closes a variable.
  abbrev pub turns_of : SolverCore H → ℕ
  turns_of s = length s.trail - s.propagated + unassigned_below s.values (s.variable_count + 1)

  unfoldable pub propagate : SolverCore H → SolverCore H × Option ℕ
  propagate s =
      let (ref, bookkeeping) = Propagator.propagate s.propagator in
      let ready : SolverCore H = record s { propagator = bookkeeping } in
      let (t, conflict) = propagate_loop (turns_of ready) ready in
      (
        record t {
          propagation_assignment_count =
              s.propagation_assignment_count + (length t.trail - length s.trail);
        },
        conflict,
      )

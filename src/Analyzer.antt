-- ===== src/Analyzer.antt =====
-- Conflict analysis (source/library/inc/kmx/sat/cdcl/conflict_analyzer.hpp and
-- source/library/src/kmx/sat/cdcl/conflict_analyzer.cpp). The caller's two callbacks, the level and
-- the reason of a variable, are parameters. The scratch buffers, which every call clears, are
-- local values, and `seen_flags_`, which is set exactly at the indices that
-- `touched_variable_indices_` holds, is that list.
pub mod Levels
pub mod Backjump
pub mod Kept
pub mod Guidance
pub mod Marking
pub mod Invariant
pub mod Search
pub mod Live
pub mod Learned
pub mod Implied
pub mod Canonical
mod Tests
use kmx_sat.Base.{
  ℕ, zero, suc, ◌+◌, ◌-◌, Bool, true, false, ◌&&◌, ◌||◌, Option, none, some, List, [], ◌∷◌, ◌++◌,
  reverse, ltb, leb, ◌==◌, if◌then◌else◌, length,
}
use kmx_sat.Literal.{Variable, Literal, no_literal, variable_of, negated}

pub record ConflictAnalyzer : Type 0 where
  pub pending_conflict_literals : List Literal
  pub learned_literals : List Literal
  pub resolution_chain_literals : List Literal
  pub resolution_chain_step_count : ℕ
  pub bump_candidates : List Variable
  pub decision_levels : List (ℕ × ℕ)
  pub touched_variable_indices : List ℕ
  pub backjump_level : ℕ

unfoldable pub contains : ℕ → List ℕ → Bool
contains v [] = false
contains v (w ∷ vs) = w == v || contains v vs

-- The search for a literal over the same variable.
unfoldable pub has_variable : Variable → List Literal → Bool
has_variable v [] = false
has_variable v (l ∷ ls) = variable_of l == v || has_variable v ls

-- The copy without duplicates: `kept` is what has been copied.
unfoldable pub unique_from : List Literal → List Literal → List Literal
unique_from kept [] = kept
unique_from kept (l ∷ ls) =
    unique_from (if has_variable (variable_of l) kept then kept else kept ++ l ∷ []) ls

unfoldable pub unique : List Literal → List Literal
unique ls = unique_from [] ls

pub seed_conflict_clause : ConflictAnalyzer → List Literal → ConflictAnalyzer
seed_conflict_clause s literals = record s {
  decision_levels = [];
  pending_conflict_literals = literals;
}

-- `analyze_via_resolution`: what the resolution loop keeps. The counter stays below the number
-- of variables, so that its 32 bits do not wrap.
pub record Marks : Type 0 where
  pub seen : List ℕ
  pub bump : List Variable
  pub tail : List Literal
  pub unresolved : ℕ

-- The variable of the last pivot is passed over.
unfoldable pub is_pivot : Option Literal → Literal → Bool
is_pivot none c = false
is_pivot (some pivot) c = variable_of c == variable_of pivot

module _ (level_of : Variable → ℕ) (current_level : ℕ) where
  unfoldable pub mark_literal : Option Literal → Marks → Literal → Marks
  mark_literal pivot m c =
      let v = variable_of c in
      let marked : Marks = record m { seen = m.seen ++ v ∷ []; bump = m.bump ++ v ∷ [] } in
      if is_pivot pivot c
      then m
      else if contains v m.seen
      then m
      else if level_of v == 0
      then marked
      else if leb current_level (level_of v)
      then record marked { unresolved = m.unresolved + 1 }
      else record marked { tail = m.tail ++ c ∷ [] }

  unfoldable pub mark_literals : Option Literal → Marks → List Literal → Marks
  mark_literals pivot m [] = m
  mark_literals pivot m (c ∷ cs) = mark_literals pivot (mark_literal pivot m c) cs

  -- The walk back along the trail: the pivot and what is left to walk.
  unfoldable pub find_pivot : List ℕ → List Literal → Option (Literal × List Literal)
  find_pivot seen [] = none
  find_pivot seen (t ∷ rest) =
      let later = find_pivot seen rest in
      if contains (variable_of t) seen && level_of (variable_of t) == current_level
      then some (t, rest)
      else later

-- The loop; each turn takes a literal off the trail, so that its length bounds the turns.
unfoldable pub resolve_loop :
    (Variable → ℕ)
    → ℕ
    → (Variable → List Literal)
    → ℕ
    → Option Literal
    → List Literal
    → List Literal
    → Marks
    → Option Literal × Marks
resolve_loop level_of current_level reason_of zero pivot literals cursor m = (none, m)
resolve_loop level_of current_level reason_of (suc turns) pivot literals cursor m =
    let marked = mark_literals level_of current_level pivot m literals in
    elim (marked.unresolved == 0) [
      | true ↦ (pivot, marked)
      | false ↦ elim (find_pivot level_of current_level marked.seen cursor) [
        | none ↦ (none, marked)
        | some (p, rest) ↦
            let taken : Marks = record marked { unresolved = marked.unresolved - 1 } in
            elim (taken.unresolved == 0) [
              | true ↦ (some p, taken)
              | false ↦
                  resolve_loop level_of current_level reason_of turns (some p)
                    (reason_of (variable_of p)) rest taken
            ]
      ]
    ]

abbrev pub no_marks : Marks
no_marks = record { seen = []; bump = []; tail = []; unresolved = 0 }

unfoldable pub resolve_conflict :
    (Variable → ℕ)
    → ℕ
    → (Variable → List Literal)
    → List Literal
    → List Literal
    → Option Literal × Marks
resolve_conflict level_of current_level reason_of trail conflict =
    resolve_loop level_of current_level reason_of (suc (length trail)) none conflict (reverse trail)
      no_marks

module _ (level_of : Variable → ℕ) where
  unfoldable pub highest_level : List Literal → ℕ
  highest_level [] = 0
  highest_level (l ∷ ls) =
      let rest = highest_level ls in
      if ltb rest (level_of (variable_of l)) then level_of (variable_of l) else rest

  -- The order of `std::sort`: the higher level first, then the smaller word.
  unfoldable pub sorts_before : Literal → Literal → Bool
  sorts_before l r =
      if level_of (variable_of l) == level_of (variable_of r)
      then ltb l.raw r.raw
      else ltb (level_of (variable_of r)) (level_of (variable_of l))

  unfoldable pub insert_sorted : Literal → List Literal → List Literal
  insert_sorted l [] = l ∷ []
  insert_sorted l (k ∷ ks) =
      let later = insert_sorted l ks in if sorts_before k l then k ∷ later else l ∷ k ∷ ks

  unfoldable pub sort_tail : List Literal → List Literal
  sort_tail [] = []
  sort_tail (l ∷ ls) = insert_sorted l (sort_tail ls)

-- The asserting literal and the tail, of the loop's result.
unfoldable pub split_asserting : Option Literal × Marks → Option (Literal × List Literal)
split_asserting (some p, m) = some (negated p, m.tail)
split_asserting (none, m) = elim m.tail [ [] ↦ none | l ∷ ls ↦ some (l, ls) ]

-- What follows the loop.
unfoldable pub learn : (Variable → ℕ) → ConflictAnalyzer → Option Literal × Marks → ConflictAnalyzer
learn level_of s result =
    let bumped : ConflictAnalyzer = record s {
      bump_candidates = result.1.bump;
      touched_variable_indices = result.1.seen;
    } in
    elim (split_asserting result) [
      | none ↦ bumped
      | some (asserting, tail) ↦ record bumped {
        backjump_level = highest_level level_of tail;
        learned_literals = unique (asserting ∷ sort_tail level_of tail);
      }
    ]

-- The callbacks are `none` for the null pointer.
unfoldable pub analyze_via_resolution :
    ConflictAnalyzer
    → List Literal
    → ℕ
    → Option (Variable → ℕ)
    → Option (Variable → List Literal)
    → ConflictAnalyzer
analyze_via_resolution s trail current_level level_of reason_of =
    let cleared : ConflictAnalyzer = record s {
      resolution_chain_literals = [];
      resolution_chain_step_count = 0;
      learned_literals = [];
      bump_candidates = [];
      backjump_level = 0;
      pending_conflict_literals = [];
    } in
    elim s.pending_conflict_literals [
      | [] ↦ cleared
      | l ∷ ls ↦ elim level_of [
        | none ↦ cleared
        | some level ↦ elim reason_of [
          | none ↦ cleared
          | some reason ↦
              learn level cleared (resolve_conflict level current_level reason trail (l ∷ ls))
        ]
      ]
    ]

-- ===== src/Analyzer/Levels.antt =====
-- `analyze`, which the levels recorded beforehand guide
-- (source/library/src/kmx/sat/cdcl/conflict_analyzer.cpp).
use kmx_sat.Base.{ℕ, ◌&&◌, none, some, List, [], ◌∷◌, ◌++◌, ltb, ◌==◌, if◌then◌else◌, length}
use kmx_sat.Dict.{find, insert}
use kmx_sat.Literal.{Variable, Literal, no_literal, variable_of}
use kmx_sat.Analyzer.{ConflictAnalyzer, contains, unique}

unfoldable pub level_of_variable : ConflictAnalyzer → Variable → ℕ
level_of_variable s v = elim (find v s.decision_levels) [ none ↦ 0 | some level ↦ level ]

pub set_decision_level : ConflictAnalyzer → Variable → ℕ → ConflictAnalyzer
set_decision_level s v level = record s { decision_levels = insert v level s.decision_levels }

-- Minimization: the head stays and the tail loses its literals of level 0.
unfoldable pub drop_root_literals : (Variable → ℕ) → List Literal → List Literal
drop_root_literals level_of [] = []
drop_root_literals level_of (l ∷ ls) =
    let rest = drop_root_literals level_of ls in
    if level_of (variable_of l) == 0 then rest else l ∷ rest

abbrev pub minimize : (Variable → ℕ) → List Literal → List Literal
minimize level_of [] = []
minimize level_of (l ∷ ls) = l ∷ drop_root_literals level_of ls

-- The first literal of the highest level, then the others in their order: `before` holds those in
-- front of the best so far, and `after` those passed since.
unfoldable pub pick_asserting :
    (Variable → ℕ) → List Literal → Literal → List Literal → List Literal → List Literal
pick_asserting level_of before best after [] = best ∷ before ++ after
pick_asserting level_of before best after (l ∷ ls) =
    if ltb (level_of (variable_of best)) (level_of (variable_of l))
    then pick_asserting level_of (before ++ best ∷ after) l [] ls
    else pick_asserting level_of before best (after ++ l ∷ []) ls

abbrev pub asserting_first : (Variable → ℕ) → List Literal → List Literal
asserting_first level_of [] = []
asserting_first level_of (l ∷ ls) = pick_asserting level_of [] l [] ls

unfoldable pub unique_variables : List Variable → List Literal → List Variable
unique_variables kept [] = kept
unique_variables kept (l ∷ ls) =
    unique_variables (if contains (variable_of l) kept then kept else kept ++ variable_of l ∷ []) ls

-- The loop of `second_highest_decision_level`.
unfoldable pub second_highest : (Variable → ℕ) → ℕ → ℕ → List Literal → ℕ
second_highest level_of highest second [] = second
second_highest level_of highest second (l ∷ ls) =
    let level = level_of (variable_of l) in
    if ltb highest level
    then second_highest level_of level highest ls
    else if ltb level highest && ltb second level
    then second_highest level_of highest level ls
    else second_highest level_of highest second ls

unfoldable pub second_highest_decision_level : ConflictAnalyzer → ℕ
second_highest_decision_level s =
    if ltb (length s.learned_literals) 2
    then 0
    else second_highest (level_of_variable s) 0 0 s.learned_literals

unfoldable pub analyze : ConflictAnalyzer → ConflictAnalyzer
analyze s =
    let level_of = level_of_variable s in
    let learned =
      asserting_first level_of (minimize level_of (unique s.pending_conflict_literals)) in
    let analyzed : ConflictAnalyzer = record s {
      resolution_chain_literals = [];
      resolution_chain_step_count = 0;
      pending_conflict_literals = [];
      learned_literals = learned;
      bump_candidates = unique_variables [] learned;
    } in
    record analyzed { backjump_level = second_highest_decision_level analyzed }

pub derive_first_uip : ConflictAnalyzer → Literal
derive_first_uip s = elim s.learned_literals [ [] ↦ no_literal | l ∷ ls ↦ l ]

pub build_resolution_chain : ConflictAnalyzer → ConflictAnalyzer
build_resolution_chain s = elim s.learned_literals [
  | [] ↦ record s { resolution_chain_step_count = 0; resolution_chain_literals = [] }
  | l ∷ ls ↦ record s { resolution_chain_step_count = length ls; resolution_chain_literals = ls }
]

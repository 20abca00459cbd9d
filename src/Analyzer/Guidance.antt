-- ===== src/Analyzer/Guidance.antt =====
-- The clause that `analyze` learns of a conflict clause and of the levels it is told
-- (source/library/src/kmx/sat/cdcl/conflict_analyzer.cpp).
use kmx_sat.Base.{ℕ, ◌≤◌, ◌<◌, ◌≡◌, List, [], ◌∷◌, Entry}
use kmx_sat.Literal.{Variable, Literal, variable_of}
use kmx_sat.Analyzer.{ConflictAnalyzer}
use kmx_sat.Analyzer.Levels.{drop_root_literals, pick_asserting}
use kmx_sat.Analyzer.Marking.{Distinct}

-- What is learned of the conflict clause `l ∷ ls`: its literals but for repeated variables and, after
-- the first, level 0; the first literal learned has the highest level, and the backjump level is that
-- of the next lower one.
pub record Guided (level_of : Variable → ℕ) (l : Literal) (ls : List Literal) (s : ConflictAnalyzer)
    : Type 0 where
  pub first : Literal
  pub others : List Literal
  pub learned : s.learned_literals ≡ first ∷ others
  pub from : (c : Literal) → Entry c s.learned_literals → Entry c (l ∷ ls)
  pub covers :
      (c : Literal)
      → Entry c (l ∷ ls)
      → 0 < level_of (variable_of c)
      → (k : Literal) × Entry k s.learned_literals × (variable_of k ≡ variable_of c)
  pub distinct : Distinct s.learned_literals
  pub roots : (c : Literal) → Entry c s.learned_literals → level_of (variable_of c) ≡ 0 → c ≡ l
  pub highest :
      (c : Literal) → Entry c (l ∷ ls) → level_of (variable_of c) ≤ level_of (variable_of first)
  pub kept :
      (c : Literal)
      → Entry c s.learned_literals
      → level_of (variable_of c) < level_of (variable_of first)
      → level_of (variable_of c) ≤ s.backjump_level
  pub backjump : 0 < level_of (variable_of first) → s.backjump_level < level_of (variable_of first)

-- The clause without repeated variables and literals of level 0, and before its highest literal is
-- put in front.
record Minimized (level_of : Variable → ℕ) (l : Literal) (ls rest learned : List Literal)
    : Type 0 where
  moved : learned ≡ pick_asserting level_of [] l [] (drop_root_literals level_of rest)
  from : (c : Literal) → Entry c rest → Entry c ls
  covers :
      (c : Literal)
      → Entry c (l ∷ ls)
      → (k : Literal) × Entry k (l ∷ rest) × (variable_of k ≡ variable_of c)
  distinct : Distinct (l ∷ rest)

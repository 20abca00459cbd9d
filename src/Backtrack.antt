-- ===== src/Backtrack.antt =====
-- The trail, the decision frames and the engine that unwinds them with the assignment store
-- (source/library/inc/kmx/sat/cdcl/trail.hpp, source/library/src/kmx/sat/cdcl/trail.cpp,
-- source/library/inc/kmx/sat/cdcl/stack/decision_frame.hpp and
-- source/library/src/kmx/sat/cdcl/engine/backtrack.cpp).
pub mod Unwind
mod Tests
use kmx_sat.Base.{
  ℕ, zero, suc, ◌+◌, ◌-◌, Bool, true, false, not, ◌||◌, Option, none, some, List, [], ◌∷◌, ◌++◌,
  ltb, leb, ◌==◌, if◌then◌else◌, length, get_or, set, take,
}
use kmx_sat.Literal.{Literal, no_literal}
use kmx_sat.Assignment.{Assignment, unassign_above_level}

pub record Trail : Type 0 where
  pub literals : List Literal
  pub propagation_head : ℕ

pub push : Trail → Literal → Trail
push t l = record t { literals = t.literals ++ l ∷ [] }

unfoldable pub pop_to : Trail → ℕ → Trail
pop_to t position =
    if leb (length t.literals) position
    then record { literals = []; propagation_head = 0 }
    else record {
      literals = take position t.literals;
      propagation_head = if ltb position t.propagation_head then position else t.propagation_head;
    }

pub advance_propagation_head : Trail → Trail
advance_propagation_head t =
    if ltb t.propagation_head (length t.literals)
    then record t { propagation_head = t.propagation_head + 1 }
    else t

pub literal_at : Trail → ℕ → Literal
literal_at t position = get_or t.literals position no_literal

-- `frame`
pub record Frame : Type 0 where
  pub decision : Literal
  pub trail_base : ℕ

abbrev pub no_frame : Frame
no_frame = record { decision = no_literal; trail_base = 0 }

pub record DecisionFrames : Type 0 where
  pub frames : List Frame
  pub current_trail_base : ℕ

unfoldable pub push_frame : DecisionFrames → Literal → DecisionFrames
push_frame d l = record {
  frames = d.frames ++ record { decision = l; trail_base = d.current_trail_base } ∷ [];
  current_trail_base = 0;
}

unfoldable pub set_current_trail_base : DecisionFrames → ℕ → DecisionFrames
set_current_trail_base d base = record d { current_trail_base = base }

unfoldable pub pop_to_level : DecisionFrames → ℕ → DecisionFrames
pop_to_level d level =
    if leb (length d.frames) level
    then record { frames = []; current_trail_base = 0 }
    else record d { frames = take level d.frames }

pub decision_literal : DecisionFrames → ℕ → Literal
decision_literal d level =
    if level == 0 || ltb (length d.frames) level
    then no_literal
    else (get_or d.frames (level - 1) no_frame).decision

unfoldable pub trail_base_of_level : DecisionFrames → ℕ → ℕ
trail_base_of_level d level =
    if level == 0 || ltb (length d.frames) level
    then 0
    else (get_or d.frames (level - 1) no_frame).trail_base

unfoldable pub reuse_trail_metadata : DecisionFrames → DecisionFrames
reuse_trail_metadata d =
    let last = length d.frames - 1 in
    record d {
      frames =
          set d.frames last
            (record (get_or d.frames last no_frame) { trail_base = d.current_trail_base });
    }

-- `engine::backtrack` with its bound state.
pub record Engine : Type 0 where
  pub trail : Trail
  pub assignment : Assignment
  pub frames : DecisionFrames
  pub last_backtracked_level : ℕ
  pub trail_reuse_count : ℕ

abbrev pub current_level : Engine → ℕ
current_level s = length s.frames.frames

unfoldable pub backtrack_to_level : Engine → ℕ → Engine
backtrack_to_level s level =
    let target = if ltb level (current_level s) then level else current_level s in
    let trail_head = length s.trail.literals in
    let trail_base = trail_base_of_level s.frames (target + 1) in
    let preserved_head = if ltb trail_base trail_head then trail_base else trail_head in
    let trail : Trail =
      pop_to s.trail (if ltb preserved_head trail_head then preserved_head else trail_head) in
    let cleared = unassign_above_level s.assignment target in
    record s {
      trail = trail;
      frames = pop_to_level s.frames target;
      assignment = record cleared {
        current_level = target;
        current_trail_position = length trail.literals;
      };
      last_backtracked_level = target;
    }

pub chronological_backtrack : Engine → Engine
unfolding backtrack_to_level
chronological_backtrack s =
    if current_level s == 0 then s else backtrack_to_level s (current_level s - 1)

pub reuse_trail : Engine → Engine
unfolding reuse_trail_metadata
reuse_trail s = record s {
  frames = reuse_trail_metadata s.frames;
  trail_reuse_count = s.trail_reuse_count + 1;
}

-- ===== src/Backtrack/Unwind.antt =====
-- What unwinding does to the trail, the frames and the assignment
-- (source/library/src/kmx/sat/cdcl/engine/backtrack.cpp).
use kmx_sat.Base.{ℕ, ◌+◌, ◌-◌, ◌≤◌, ◌<◌, ◌≡◌, refl, ap, List, [], arith, length, get_or, take}
use kmx_sat.Assignment.{unassign_above_level}
use kmx_sat.Backtrack.{
  Engine, no_frame, pop_to, pop_to_level, trail_base_of_level, current_level, backtrack_to_level,
}

-- The trail base of the first frame above a level.
abbrev pub base_above : Engine → ℕ → ℕ
base_above s level = (get_or s.frames.frames level no_frame).trail_base

-- The state that a backjump should reach: the trail up to the base of the first dropped level,
-- the frames and the assignments of the levels kept.
pub record Unwound (s : Engine) (level : ℕ) (u : Engine) : Type 0 where
  pub trail : u.trail.literals ≡ take (base_above s level) s.trail.literals
  pub frames : u.frames.frames ≡ take level s.frames.frames
  pub dense : u.assignment.dense ≡ (unassign_above_level s.assignment level).dense
  pub sparse : u.assignment.sparse ≡ s.assignment.sparse
  pub level_set : u.assignment.current_level ≡ level
  pub reported : u.last_backtracked_level ≡ level

base_of_next :
    (s : Engine) (level : ℕ)
    → level < current_level s
    → trail_base_of_level s.frames (level + 1) ≡ base_above s level
unfolding trail_base_of_level
base_of_next s level below =
    let e : level + 1 - 1 ≡ level = omega arith in
    ground (arith, ap (λ n. (get_or s.frames.frames n no_frame).trail_base) e)

base_past_top : (s : Engine) → trail_base_of_level s.frames (current_level s + 1) ≡ 0
unfolding trail_base_of_level
base_past_top s = ground arith

take-zero {ℓ} : {A : Type ℓ} (n : ℕ) (xs : List A) → n ≡ 0 → take n xs ≡ []
take-zero n xs e = rw e refl

-- A backjump below the current level, whose first dropped frame begins inside the trail, cuts
-- the trail at that frame's base, keeps the frames up to the level, clears the dense assignments
-- above it, and sets the current level.
pub backtrack_to_level-below :
    (s : Engine) (level : ℕ)
    → level < current_level s
    → base_above s level < length s.trail.literals
    → Unwound s level (backtrack_to_level s level)
unfolding backtrack_to_level pop_to pop_to_level unassign_above_level
backtrack_to_level-below s level below inside =
    let base = base_of_next s level below in
    record {
      trail = ground (arith, base);
      frames = ground arith;
      dense = ground arith;
      sparse = ground arith;
      level_set = ground arith;
      reported = ground arith;
    }

-- A backjump to the current level or above empties the trail and drops every frame, while the
-- dense assignments up to the current level stay.
pub backtrack_to_level-at_current :
    (s : Engine) (level : ℕ)
    → current_level s ≤ level
    → ((backtrack_to_level s level).trail.literals ≡ [])
      × ((backtrack_to_level s level).frames.frames ≡ [])
      × ((backtrack_to_level s level).assignment.dense
          ≡ (unassign_above_level s.assignment (current_level s)).dense)
      × ((backtrack_to_level s level).assignment.current_level ≡ current_level s)
unfolding backtrack_to_level pop_to pop_to_level unassign_above_level
backtrack_to_level-at_current s level above =
    let base = base_past_top s in (ground (arith, base), ground arith, ground arith, ground arith)

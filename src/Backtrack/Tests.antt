-- ===== src/Backtrack/Tests.antt =====
-- Backjumps of a state with two decisions.
use kmx_sat.Base.{ℕ, ◌≡◌, arith, true, false, none, some, [], ◌∷◌}
use kmx_sat.Literal.{Literal}
use kmx_sat.Assignment.{Slot, unassign_above_level}
use kmx_sat.Backtrack.{Engine, backtrack_to_level}
use kmx_sat.Backtrack.Unwind.{Unwound, backtrack_to_level-below, backtrack_to_level-at_current}

abbrev lit : ℕ → Literal
lit raw = record { raw = raw }

abbrev slot_at : ℕ → Slot
slot_at level = record {
  value = some true;
  reason = none;
  level = level;
  trail_position = 0;
  analyzed = false;
}

-- Literals 0 on level 0, 2 and 4 on level 1, 6 on level 2.
abbrev two_decisions : Engine
two_decisions = record {
  trail = record { literals = lit 0 ∷ lit 2 ∷ lit 4 ∷ lit 6 ∷ []; propagation_head = 4 };
  assignment = record {
    dense = slot_at 0 ∷ slot_at 1 ∷ slot_at 1 ∷ slot_at 2 ∷ [];
    sparse = [];
    current_level = 2;
    current_trail_position = 4;
  };
  frames = record {
    frames =
        record { decision = lit 2; trail_base = 1 }
        ∷ record { decision = lit 6; trail_base = 3 }
        ∷ [];
    current_trail_base = 0;
  };
  last_backtracked_level = 0;
  trail_reuse_count = 0;
}

backtrack_to_level-below_example : Unwound two_decisions 1 (backtrack_to_level two_decisions 1)
backtrack_to_level-below_example =
    backtrack_to_level-below two_decisions 1 (omega arith) (omega arith)

-- Nothing is above level 2, yet the trail is emptied.
backtrack_to_level-at_current_example :
    ((backtrack_to_level two_decisions 2).trail.literals ≡ [])
    × ((backtrack_to_level two_decisions 2).frames.frames ≡ [])
    × ((backtrack_to_level two_decisions 2).assignment.dense
        ≡ (unassign_above_level two_decisions.assignment 2).dense)
    × ((backtrack_to_level two_decisions 2).assignment.current_level ≡ 2)
backtrack_to_level-at_current_example = backtrack_to_level-at_current two_decisions 2 (omega arith)

-- ===== src/Assignment/Tests.antt =====
-- The reads after writes of the assignment store, at a store with both parts in use.
use kmx_sat.Base.{ℕ, ◌+◌, ◌^◌, ◌≡◌, true, false, none, some, [], ◌∷◌}
use kmx_sat.Literal.{Literal, variable_of}
use kmx_sat.Assignment.{
  rewrite_reasons_after_compaction, Slot, empty_slot, Assignment, slot_of, assign, unassign_from,
  unassign_above_level,
}
use kmx_sat.Assignment.Relocation.{Relocated, rewrite_reasons_after_compaction-Relocated}
use kmx_sat.Assignment.Lookup.{
  assigned_slot, slot_of-assign, slot_of-unassign_from, slot_of-unassign_above_level,
}

abbrev lit : ℕ → Literal
lit raw = record { raw = raw }

abbrev slot_at : ℕ → Slot
slot_at level = record {
  value = some true;
  reason = some 7;
  level = level;
  trail_position = 2;
  analyzed = false;
}

-- Variables 0, 1 and 2 ^ 20 + 1 are assigned, the last two on level 3.
abbrev two_parts : Assignment
two_parts = record {
  dense = slot_at 0 ∷ slot_at 3 ∷ [];
  sparse = (2 ^ 20 + 1, slot_at 3) ∷ [];
  current_level = 3;
  current_trail_position = 5;
}

-- The literal 9 is the negative one of variable 4, beyond the dense part.
slot_of-assign_example :
    slot_of (assign two_parts (lit 9) none) 4 ≡ assigned_slot two_parts (lit 9) none
unfolding variable_of
slot_of-assign_example = slot_of-assign two_parts (lit 9) none 4

slot_of-unassign_from_example :
    slot_of (unassign_from two_parts (2 ^ 20 + 1)) (2 ^ 20 + 1) ≡ empty_slot
slot_of-unassign_from_example = slot_of-unassign_from two_parts (2 ^ 20 + 1) (2 ^ 20 + 1) (tt, tt)

-- A variable of the sparse part stays assigned on level 3 when the levels above 0 are cleared.
slot_of-unassign_above_level_example :
    slot_of (unassign_above_level two_parts 0) (2 ^ 20 + 1) ≡ slot_at 3
unfolding slot_of
slot_of-unassign_above_level_example = slot_of-unassign_above_level two_parts 0 (2 ^ 20 + 1)

-- A reason that the relocation moves.
rewrite_reasons_after_compaction-Relocated_example :
    Relocated ((7, 3) ∷ []) 1 two_parts (rewrite_reasons_after_compaction two_parts ((7, 3) ∷ []))
rewrite_reasons_after_compaction-Relocated_example =
    rewrite_reasons_after_compaction-Relocated two_parts ((7, 3) ∷ []) 1

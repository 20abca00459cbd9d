-- ===== src/Assignment/Lookup.antt =====
-- Reads after writes of the assignment store
-- (source/library/src/kmx/sat/cdcl/store/assignment.cpp), across the dense and the sparse part.
use kmx_sat.Base.{
  ℕ, ◌≡◌, inl, inr, false, not, none, some, arith, ◌==◌, if◌then◌else◌, Bool-cases, ltb,
}
use kmx_sat.Dict.{IsMap, find-insert, find-erase}
use kmx_sat.Literal.{Variable, Literal, variable_of, is_negated}
use kmx_sat.Assignment.{
  Ref, Slot, empty_slot, Assignment, is_sparse, slot_of, assign, unassign_from,
  unassign_above_level,
}
use kmx_sat.Assignment.Slots.{read, read-set, read-clear, read-clear_above}

-- What `assign` writes.
abbrev pub assigned_slot : Assignment → Literal → Ref → Slot
assigned_slot a l reason = record {
  value = some (not (is_negated l));
  reason = reason;
  level = a.current_level;
  trail_position = a.current_trail_position;
  analyzed = false;
}

-- After `assign` the literal's variable holds the literal's value, the reason, the current level
-- and the current trail position, unmarked, and every other variable reads as before.
pub slot_of-assign :
    (a : Assignment) (l : Literal) (reason : Ref) (w : Variable)
    → slot_of (assign a l reason) w
      ≡ (if variable_of l == w then assigned_slot a l reason else slot_of a w)
unfolding assign slot_of
slot_of-assign a l reason w = elim (Bool-cases (is_sparse (variable_of l))) [
  | inl sparse ↦ ground (arith, find-insert (variable_of l) w (assigned_slot a l reason) a.sparse)
  | inr dense ↦ ground (arith, read-set a.dense (variable_of l) w (assigned_slot a l reason))
]

-- After `unassign_from`, on a store whose sparse part has one entry for each variable, the variable
-- reads as never assigned, and every other as before.
pub slot_of-unassign_from :
    (a : Assignment) (v w : Variable)
    → IsMap a.sparse
    → slot_of (unassign_from a v) w ≡ (if v == w then empty_slot else slot_of a w)
unfolding unassign_from slot_of
slot_of-unassign_from a v w h = elim (Bool-cases (is_sparse v)) [
  | inl sparse ↦ ground (arith, find-erase v w a.sparse h)
  | inr dense ↦ ground (arith, read-clear a.dense v w)
]

slot_of-dense : (a : Assignment) (v : Variable) → is_sparse v ≡ false → slot_of a v ≡ read a.dense v
unfolding slot_of
slot_of-dense a v dense = ground arith

-- What a slot is after the levels above `level` are cleared.
abbrev pub cleared : ℕ → Slot → Slot
cleared level s = elim s.value [ none ↦ s | some b ↦ if ltb level s.level then empty_slot else s ]

-- `unassign_above_level` clears exactly the assigned variables above the level whose index is
-- below 2 ^ 20: a variable of the sparse part reads as before, whatever its level.
pub slot_of-unassign_above_level :
    (a : Assignment) (level : ℕ) (v : Variable)
    → slot_of (unassign_above_level a level) v
      ≡ (if is_sparse v then slot_of a v else cleared level (slot_of a v))
unfolding unassign_above_level
slot_of-unassign_above_level a level v = elim (Bool-cases (is_sparse v)) [
  | inl sparse ↦ unfold slot_of in (ground arith)
  | inr dense ↦
      rw (slot_of-dense (unassign_above_level a level) v dense, slot_of-dense a v dense, dense)
        (read-clear_above level a.dense v)
]

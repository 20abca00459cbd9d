-- ===== src/Assignment.antt =====
-- The assignment store (source/library/inc/kmx/sat/cdcl/store/assignment.hpp and
-- source/library/src/kmx/sat/cdcl/store/assignment.cpp): a dense part, vectors of one length
-- indexed by variable, below the index 2 ^ 20, and a sparse part, maps by index, from there on.
-- A slot stands for what the five vectors, or the five maps, hold of one variable.
pub mod Slots
pub mod Lookup
pub mod Relocation
mod Tests
use kmx_sat.Base.{
  ℕ, zero, suc, ◌+◌, ◌-◌, ◌^◌, Bool, true, false, not, Option, none, some, List, [], ◌∷◌, ◌++◌, ltb,
  leb, if◌then◌else◌, length, get_elem?, set, replicate,
}
use kmx_sat.Dict.{find, insert, erase}
use kmx_sat.Literal.{Variable, Literal, variable_of, is_negated}

-- `clause::ref_t`: an offset, or the invalid reference.
abbrev pub Ref : Type 0
Ref = Option ℕ

pub record Slot : Type 0 where
  pub value : Option Bool
  pub reason : Ref
  pub level : ℕ
  pub trail_position : ℕ
  pub analyzed : Bool

abbrev pub empty_slot : Slot
empty_slot = record { value = none; reason = none; level = 0; trail_position = 0; analyzed = false }

pub record Assignment : Type 0 where
  pub dense : List Slot
  pub sparse : List (ℕ × Slot)
  pub current_level : ℕ
  pub current_trail_position : ℕ

abbrev pub is_sparse : Variable → Bool
is_sparse v = leb (2 ^ 20) v

-- A read: the slot, and the default where there is none.
unfoldable pub slot_of : Assignment → Variable → Slot
slot_of a v =
    if is_sparse v
    then (elim (find v a.sparse) [ none ↦ empty_slot | some s ↦ s ])
    else elim (get_elem? a.dense v) [ none ↦ empty_slot | some s ↦ s ]

unfoldable pub value_of : Assignment → Variable → Option Bool
value_of a v = (slot_of a v).value

unfoldable pub reason_of : Assignment → Variable → Ref
reason_of a v = (slot_of a v).reason

unfoldable pub level_of : Assignment → Variable → ℕ
level_of a v = (slot_of a v).level

unfoldable pub trail_position_of : Assignment → Variable → ℕ
trail_position_of a v = (slot_of a v).trail_position

unfoldable pub analysis_seen : Assignment → Variable → Bool
analysis_seen a v = (slot_of a v).analyzed

abbrev pub ensure_capacity : List Slot → ℕ → List Slot
ensure_capacity slots v =
    if leb (length slots) v then slots ++ replicate (v + 1 - length slots) empty_slot else slots

unfoldable pub assign : Assignment → Literal → Ref → Assignment
assign a l reason =
    let slot : Slot = record {
      value = some (not (is_negated l));
      reason = reason;
      level = a.current_level;
      trail_position = a.current_trail_position;
      analyzed = false;
    } in
    let v = variable_of l in
    if is_sparse v
    then record a { sparse = insert v slot a.sparse }
    else record a { dense = set (ensure_capacity a.dense v) v slot }

unfoldable pub unassign_from : Assignment → Variable → Assignment
unassign_from a v =
    if is_sparse v
    then record a { sparse = erase v a.sparse }
    else record a { dense = set a.dense v empty_slot }

-- The loop of `unassign_above_level`, over the dense slots.
unfoldable pub clear_above : ℕ → List Slot → List Slot
clear_above level [] = []
clear_above level (s ∷ slots) =
    (elim s.value [ none ↦ s | some b ↦ if ltb level s.level then empty_slot else s ])
    ∷ clear_above level slots

unfoldable pub unassign_above_level : Assignment → ℕ → Assignment
unassign_above_level a level = record a { dense = clear_above level a.dense }

-- A variable that the store does not hold is marked in the sparse part only.
unfoldable pub mark_analyzed : Assignment → Variable → Assignment
mark_analyzed a v =
    if is_sparse v
    then (elim (find v a.sparse) [
      | none ↦ record a { sparse = insert v (record empty_slot { analyzed = true }) a.sparse }
      | some s ↦ record a { sparse = insert v (record s { analyzed = true }) a.sparse }
    ])
    else elim (get_elem? a.dense v) [
      | none ↦ a
      | some s ↦ record a { dense = set a.dense v (record s { analyzed = true }) }
    ]

abbrev pub unmark_all : List Slot → List Slot
unmark_all [] = []
unmark_all (s ∷ slots) = record s { analyzed = false } ∷ unmark_all slots

abbrev pub unmark_entries : List (ℕ × Slot) → List (ℕ × Slot)
unmark_entries [] = []
unmark_entries ((k, s) ∷ entries) = (k, record s { analyzed = false }) ∷ unmark_entries entries

unfoldable pub clear_analysis_marks : Assignment → Assignment
clear_analysis_marks a = record a { dense = unmark_all a.dense; sparse = unmark_entries a.sparse }

-- A relocation of clause offsets, on the reason of a slot.
unfoldable pub relocate_reason : List (ℕ × ℕ) → Slot → Slot
relocate_reason relocation s = elim s.reason [
  | none ↦ s
  | some offset ↦ elim (find offset relocation) [
    | none ↦ s
    | some moved ↦ record s { reason = some moved }
  ]
]

unfoldable pub relocate_all : List (ℕ × ℕ) → List Slot → List Slot
relocate_all relocation [] = []
relocate_all relocation (s ∷ slots) = relocate_reason relocation s ∷ relocate_all relocation slots

unfoldable pub relocate_entries : List (ℕ × ℕ) → List (ℕ × Slot) → List (ℕ × Slot)
relocate_entries relocation [] = []
relocate_entries relocation ((k, s) ∷ entries) =
    (k, relocate_reason relocation s) ∷ relocate_entries relocation entries

-- The invalid offset is the key of no relocation.
unfoldable pub rewrite_reasons_after_compaction : Assignment → List (ℕ × ℕ) → Assignment
rewrite_reasons_after_compaction a [] = a
rewrite_reasons_after_compaction a (e ∷ relocation) = record a {
  dense = relocate_all (e ∷ relocation) a.dense;
  sparse = relocate_entries (e ∷ relocation) a.sparse;
}

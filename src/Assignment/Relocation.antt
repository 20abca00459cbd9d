-- ===== src/Assignment/Relocation.antt =====
-- The reasons after a compaction of the clauses
-- (source/library/src/kmx/sat/cdcl/store/assignment.cpp).
use kmx_sat.Base.{
  ℕ, zero, suc, ◌≡◌, refl, sym, ap, ◌∙◌, inl, inr, Option, none, some, List, [], ◌∷◌, arith,
  Bool-cases,
}
use kmx_sat.Dict.{find}
use kmx_sat.Literal.{Variable}
use kmx_sat.Assignment.{
  Slot, empty_slot, Assignment, is_sparse, slot_of, relocate_reason, relocate_all, relocate_entries,
  rewrite_reasons_after_compaction, value_of, reason_of, level_of, trail_position_of, analysis_seen,
}
use kmx_sat.Assignment.Slots.{read}

read-relocate_all :
    (relocation : List (ℕ × ℕ)) (slots : List Slot) (v : ℕ)
    → read (relocate_all relocation slots) v ≡ relocate_reason relocation (read slots v)
unfolding relocate_all relocate_reason
read-relocate_all relocation [] v = refl
read-relocate_all relocation (s ∷ slots) zero = refl
read-relocate_all relocation (s ∷ slots) (suc v) = read-relocate_all relocation slots v

-- A read of the sparse part.
abbrev or_empty : Option Slot → Slot
or_empty o = elim o [ none ↦ empty_slot | some s ↦ s ]

find-relocate_entries :
    (relocation : List (ℕ × ℕ)) (entries : List (ℕ × Slot)) (v : ℕ)
    → find v (relocate_entries relocation entries)
      ≡ (elim (find v entries) [ none ↦ none | some s ↦ some (relocate_reason relocation s) ])
unfolding relocate_entries
find-relocate_entries relocation [] v = refl
find-relocate_entries relocation ((k, s) ∷ entries) v =
    ground (arith, find-relocate_entries relocation entries v)

relocate_reason-none : (s : Slot) → relocate_reason [] s ≡ s
unfolding relocate_reason
relocate_reason-none s = ground arith

or_empty-relocated :
    (relocation : List (ℕ × ℕ)) (o : Option Slot)
    → or_empty (elim o [ none ↦ none | some s ↦ some (relocate_reason relocation s) ])
      ≡ relocate_reason relocation (or_empty o)
unfolding relocate_reason
or_empty-relocated relocation none = refl
or_empty-relocated relocation (some s) = refl

slot_of-rewrite_reasons :
    (a : Assignment) (relocation : List (ℕ × ℕ)) (v : Variable)
    → slot_of (rewrite_reasons_after_compaction a relocation) v
      ≡ relocate_reason relocation (slot_of a v)
unfolding slot_of rewrite_reasons_after_compaction
slot_of-rewrite_reasons a [] v = sym (relocate_reason-none (slot_of a v))
slot_of-rewrite_reasons a (e ∷ relocation) v = elim (Bool-cases (is_sparse v)) [
  | inl sparse ↦ rw sparse (
      ap or_empty (find-relocate_entries (e ∷ relocation) a.sparse v)
      ∙ or_empty-relocated (e ∷ relocation) (find v a.sparse))
  | inr dense ↦ rw dense (read-relocate_all (e ∷ relocation) a.dense v)
]

-- What the reads of `v` say in `b` after a relocation of the clauses of `a`.
pub record Relocated (relocation : List (ℕ × ℕ)) (v : Variable) (a b : Assignment) : Type 0 where
  pub value : value_of b v ≡ value_of a v
  pub level : level_of b v ≡ level_of a v
  pub trail_position : trail_position_of b v ≡ trail_position_of a v
  pub analyzed : analysis_seen b v ≡ analysis_seen a v
  pub no_reason : reason_of a v ≡ none → reason_of b v ≡ none
  pub moved :
      (offset target : ℕ)
      → reason_of a v ≡ some offset
      → find offset relocation ≡ some target
      → reason_of b v ≡ some target
  pub stays :
      (offset : ℕ)
      → reason_of a v ≡ some offset
      → find offset relocation ≡ none
      → reason_of b v ≡ some offset

-- After a compaction every variable, of the dense or of the sparse part, has the value, the level,
-- the trail position and the mark that it had; its reason is the offset that the relocation gives
-- for the old one, the old one where the relocation has none for it, and none where it had none.
pub rewrite_reasons_after_compaction-Relocated :
    (a : Assignment) (relocation : List (ℕ × ℕ)) (v : Variable)
    → Relocated relocation v a (rewrite_reasons_after_compaction a relocation)
unfolding value_of level_of trail_position_of analysis_seen reason_of relocate_reason
rewrite_reasons_after_compaction-Relocated a relocation v =
    let e = slot_of-rewrite_reasons a relocation v in
    record {
      value = ground (arith, e);
      level = ground (arith, e);
      trail_position = ground (arith, e);
      analyzed = ground (arith, e);
      no_reason = λ none_before. ground (arith, e);
      moved = λ offset target before at. ground (arith, e);
      stays = λ offset before at. ground (arith, e);
    }

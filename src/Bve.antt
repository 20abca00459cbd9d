-- ===== src/Bve.antt =====
-- Bounded variable elimination
-- (source/library/inc/kmx/sat/simplify/eliminator/variable/bounded.hpp and
-- source/library/src/kmx/sat/simplify/eliminator/variable/bounded.cpp): a candidate is scored,
-- its clauses are resolved, and the positive ones are journalled. The clause database is read
-- through the record `ClauseStore`.
pub mod Resolve
pub mod Resolvents
pub mod LiveClauses
pub mod Sound
mod Tests
use kmx_sat.Base.{
  ℕ, suc, ◌+◌, ◌*◌, Bool, true, false, not, ◌||◌, Option, none, some, List, [], ◌∷◌, ◌++◌, ltb, leb,
  ◌==◌, if◌then◌else◌, length, get_elem?, take, drop,
}
use kmx_sat.Base.Int.{ℤ, pos, sub_ℕ, ◌+ℤ◌, leb_ℤ}
use kmx_sat.Literal.{Variable, Literal, variable_of, negated}
use kmx_sat.Literal.Meaning.{Clause}
use kmx_sat.Extension.{Extension, witness_mark, append_witness_clause, push_bve_elimination}

-- `clause::ref_t`
abbrev pub Ref : Type 0
Ref = ℕ

-- What the pass reads of `clause::database`: `view_literals` of its storage, and `is_garbage`.
pub record ClauseStore : Type 0 where
  pub view_literals : Ref → Clause
  pub is_garbage : Ref → Bool

-- `occurrence_entry`
pub record Occurrences : Type 0 where
  pub positive : List Ref
  pub negative : List Ref

pub record Bounded : Type 0 where
  pub frozen : List Variable
  pub clause_growth_limit : ℤ
  pub resolvent_width_limit : ℕ
  pub occurrences : List Occurrences

unfoldable pub frozen_has : List Variable → Variable → Bool
frozen_has [] v = false
frozen_has (x ∷ xs) v = x == v || frozen_has xs v

unfoldable pub is_frozen : Bounded → Variable → Bool
unfolding frozen_has
is_frozen b v = frozen_has b.frozen v

unfoldable pub score_variable : Bounded → Variable → ℤ
score_variable b v = elim (get_elem? b.occurrences v) [
  | none ↦ pos 1
  | some entry ↦
      sub_ℕ (length entry.positive * length entry.negative)
        (length entry.positive + length entry.negative)
]

unfoldable pub can_eliminate : Bounded → Variable → Bool
unfolding is_frozen score_variable
can_eliminate b v = elim (get_elem? b.occurrences v) [
  | none ↦ false
  | some entry ↦
      if is_frozen b v
      then false
      else if length entry.positive + length entry.negative == 0
      then false
      else leb_ℤ (score_variable b v) b.clause_growth_limit
]

-- The search of `resolvent_scratch_` by raw value.
unfoldable pub has_raw : ℕ → Clause → Bool
has_raw r [] = false
has_raw r (l ∷ c) = l.raw == r || has_raw r c

-- The local function `append` of `resolve`.
unfoldable pub append_literals : Variable → Clause → Clause → Clause
append_literals v [] scratch = scratch
append_literals v (l ∷ c) scratch = append_literals v c (
    if variable_of l == v
    then scratch
    else if has_raw l.raw scratch
    then scratch
    else scratch ++ l ∷ [])

unfoldable pub clashes : Literal → Clause → Bool
clashes l [] = false
clashes l (k ∷ c) = l.raw == (negated k).raw || clashes l c

unfoldable pub any_clash : Clause → Clause → Bool
any_clash [] right = false
any_clash (l ∷ left) right = clashes l right || any_clash left right

-- The resolvent, and whether it is kept.
unfoldable pub resolve : Clause → Clause → Variable → Clause × Bool
resolve positive negative v =
    let left = append_literals v positive [] in
    let scratch = append_literals v negative left in
    (scratch, not (any_clash (take (length left) scratch) (drop (length left) scratch)))

module _ (store : ClauseStore) (b : Bounded) (v : Variable) (entry : Occurrences) where
  -- What the inner loop does with one pair: `none` is the early `return false`.
  unfoldable pub keep_resolvent : Clause × Bool → List Clause → Option (List Clause)
  keep_resolvent (c, false) rs = some rs
  keep_resolvent (c, true) rs =
      if ltb b.resolvent_width_limit (length c)
      then none
      else if leb_ℤ (pos (length (rs ++ c ∷ [])))
          (pos (length entry.positive + length entry.negative) +ℤ b.clause_growth_limit)
      then some (rs ++ c ∷ [])
      else none

  unfoldable pub resolve_with_negatives : Ref → List Ref → List Clause → Option (List Clause)
  resolve_with_negatives p [] rs = some rs
  resolve_with_negatives p (n ∷ ns) rs = elim (store.is_garbage n) [
    | true ↦ resolve_with_negatives p ns rs
    | false ↦ elim (keep_resolvent (resolve (store.view_literals p) (store.view_literals n) v) rs) [
      | none ↦ none
      | some rs' ↦ resolve_with_negatives p ns rs'
    ]
  ]

  unfoldable pub resolve_positives : List Ref → List Clause → Option (List Clause)
  resolve_positives [] rs = some rs
  resolve_positives (p ∷ ps) rs = elim (store.is_garbage p) [
    | true ↦ resolve_positives ps rs
    | false ↦ elim (resolve_with_negatives p entry.negative rs) [
      | none ↦ none
      | some rs' ↦ resolve_positives ps rs'
    ]
  ]

unfoldable pub none_empty : List Clause → Bool
none_empty [] = true
none_empty ([] ∷ rs) = false
none_empty ((l ∷ c) ∷ rs) = none_empty rs

unfoldable pub keep_if_none_empty : Option (List Clause) → Option (List Clause)
keep_if_none_empty none = none
keep_if_none_empty (some rs) = if none_empty rs then some rs else none

-- `build_resolvents`: `resolvents_` where the call returns true.
unfoldable pub build_resolvents : ClauseStore → Bounded → Variable → Option (List Clause)
build_resolvents store b v = elim (get_elem? b.occurrences v) [
  | none ↦ none
  | some entry ↦ keep_if_none_empty (resolve_positives store b v entry entry.positive [])
]

-- The loop of `emit_extension_record`.
unfoldable pub append_live : ClauseStore → Extension → List Ref → Extension
append_live store e [] = e
append_live store e (r ∷ rs) =
    append_live store
      (if store.is_garbage r then e else append_witness_clause e (store.view_literals r)) rs

unfoldable pub emit_extension_record : ClauseStore → Bounded → Variable → Extension → Extension
emit_extension_record store b v e = elim (get_elem? b.occurrences v) [
  | none ↦ e
  | some entry ↦ push_bve_elimination (append_live store e entry.positive) v (witness_mark e)
]

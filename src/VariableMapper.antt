-- ===== src/VariableMapper.antt =====
-- The map between external and internal variables
-- (source/library/inc/kmx/sat/cdcl/variable_mapper.hpp and
-- source/library/src/kmx/sat/cdcl/variable_mapper.cpp). The sets of indices are maps to nothing.
pub mod Mapping
mod Tests
use kmx_sat.Base.{
  ℕ, ◌+◌, ◌%◌, ◌^◌, Bool, true, false, Option, none, some, List, [], ◌∷◌, ltb, ◌==◌, if◌then◌else◌,
}
use kmx_sat.Dict.{find, insert, erase}
use kmx_sat.Literal.{Variable, Literal, literal, variable_of, is_negated}

pub record VariableMapper : Type 0 where
  pub external_to_internal : List (ℕ × Variable)
  pub internal_to_external : List (ℕ × Variable)
  pub inactive_variables : List (ℕ × Unit {0})
  pub eliminated_variables : List (ℕ × Unit {0})
  pub next_internal_index : ℕ

abbrev pub internal_variable_base : ℕ
internal_variable_base = 2 ^ 30

unfoldable pub ensure_external_variable : VariableMapper → Variable → Variable × VariableMapper
ensure_external_variable s v = elim (find v s.external_to_internal) [
  | some internal ↦ (internal, s)
  | none ↦ (
    s.next_internal_index,
    record s {
      next_internal_index = (s.next_internal_index + 1) % 2 ^ 32;
      external_to_internal = insert v s.next_internal_index s.external_to_internal;
      internal_to_external = insert s.next_internal_index v s.internal_to_external;
    },
  )
]

unfoldable pub to_internal_literal : VariableMapper → Literal → Literal
to_internal_literal s l = elim (find (variable_of l) s.external_to_internal) [
  | none ↦ l
  | some internal ↦ literal internal (is_negated l)
]

unfoldable pub to_external_literal : VariableMapper → Literal → Literal
to_external_literal s l = elim (find (variable_of l) s.internal_to_external) [
  | none ↦ l
  | some external ↦ literal external (is_negated l)
]

-- The inverse of a map, an entry at a time.
pub invert : List (ℕ × Variable) → List (ℕ × Variable) → List (ℕ × Variable)
invert [] rebuilt = rebuilt
invert ((external, internal) ∷ entries) rebuilt = invert entries (insert internal external rebuilt)

pub rebuild_after_compaction : VariableMapper → VariableMapper
rebuild_after_compaction s = elim s.external_to_internal [
  | [] ↦ s
  | e ∷ entries ↦ record s { internal_to_external = invert (e ∷ entries) [] }
]

-- An internal variable under a permutation.
abbrev pub permuted : List (ℕ × Variable) → Variable → Variable
permuted permutation internal = elim (find internal permutation) [
  | none ↦ internal
  | some moved ↦ moved
]

pub permute_entries : List (ℕ × Variable) → List (ℕ × Variable) → List (ℕ × Variable)
permute_entries permutation [] = []
permute_entries permutation ((external, internal) ∷ entries) =
    (external, permuted permutation internal) ∷ permute_entries permutation entries

pub highest_internal : ℕ → List (ℕ × Variable) → ℕ
highest_internal highest [] = highest
highest_internal highest ((external, internal) ∷ entries) =
    highest_internal (if ltb highest internal then internal else highest) entries

pub rebuild_with_permutation : VariableMapper → List (ℕ × Variable) → VariableMapper
rebuild_with_permutation s permutation = elim s.external_to_internal [
  | [] ↦ s
  | e ∷ entries ↦
      let rebuilt = permute_entries permutation (e ∷ entries) in
      record s {
        external_to_internal = rebuilt;
        internal_to_external = invert rebuilt [];
        next_internal_index = (highest_internal internal_variable_base rebuilt + 1) % 2 ^ 32;
      }
]

pub mapping_entries : VariableMapper → List (Variable × Variable)
mapping_entries s = s.external_to_internal

pub mark_inactive : VariableMapper → Variable → VariableMapper
mark_inactive s v = record s { inactive_variables = insert v tt s.inactive_variables }

pub mark_eliminated : VariableMapper → Variable → VariableMapper
mark_eliminated s v = record s { eliminated_variables = insert v tt s.eliminated_variables }

pub mark_active : VariableMapper → Variable → VariableMapper
mark_active s v = record s { inactive_variables = erase v s.inactive_variables }

pub is_eliminated : VariableMapper → Variable → Bool
is_eliminated s v = elim (find v s.eliminated_variables) [ none ↦ false | some u ↦ true ]

pub is_inactive : VariableMapper → Variable → Bool
is_inactive s v = elim (find v s.inactive_variables) [ none ↦ false | some u ↦ true ]

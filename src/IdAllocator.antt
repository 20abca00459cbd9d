-- ===== src/IdAllocator.antt =====
-- The issuer of proof identities (source/library/inc/kmx/sat/proof/clause/id_allocator.hpp and
-- source/library/src/kmx/sat/proof/clause/id_allocator.cpp). A reference is its offset, or `none`.
pub mod Bijection
mod Tests
use kmx_sat.Base.{
  ℕ, ◌+◌, ◌-◌, ◌%◌, ◌^◌, Bool, true, false, not, ◌&&◌, ◌||◌, Option, none, some, List, [], ◌==◌,
  if◌then◌else◌,
}
use kmx_sat.Dict.{find, insert, erase}
use kmx_sat.Assignment.{Ref}
use kmx_sat.Lrat.{ClauseId, valid}

-- `id {}`
abbrev pub no_id : ClauseId
no_id = 2 ^ 64 - 1

pub record IdAllocator : Type 0 where
  pub next_id : ℕ
  pub ref_to_id : List (ℕ × ClauseId)
  pub id_to_ref : List (ClauseId × ℕ)
  pub active_ids : List (ClauseId × Unit {0})
  pub last_allocated : ClauseId

abbrev pub fresh_allocator : IdAllocator
fresh_allocator = record {
  next_id = 1;
  ref_to_id = [];
  id_to_ref = [];
  active_ids = [];
  last_allocated = no_id;
}

unfoldable pub allocate_for_new_clause : IdAllocator → Ref → ClauseId × IdAllocator
allocate_for_new_clause a none = (no_id, a)
allocate_for_new_clause a (some key) = elim (find key a.ref_to_id) [
  | some id ↦ (id, a)
  | none ↦ (
    a.next_id,
    record {
      next_id = (a.next_id + 1) % 2 ^ 64;
      ref_to_id = insert key a.next_id a.ref_to_id;
      id_to_ref = insert a.next_id key a.id_to_ref;
      active_ids = insert a.next_id tt a.active_ids;
      last_allocated = a.next_id;
    },
  )
]

unfoldable pub id_for_clause_ref : IdAllocator → Ref → ClauseId
id_for_clause_ref a none = no_id
id_for_clause_ref a (some key) = elim (find key a.ref_to_id) [ some id ↦ id | none ↦ no_id ]

-- The overload of one argument: the last identity goes to the reference.
unfoldable pub preserve_last : IdAllocator → Ref → IdAllocator
preserve_last a none = a
preserve_last a (some key) =
    if not (valid a.last_allocated) then a else elim (find key a.ref_to_id) [
      | some id ↦ a
      | none ↦ record a {
        ref_to_id = insert key a.last_allocated a.ref_to_id;
        id_to_ref = insert a.last_allocated key a.id_to_ref;
        active_ids = insert a.last_allocated tt a.active_ids;
      }
    ]

-- Whether the new reference belongs to another identity.
abbrev pub taken : IdAllocator → ℕ → ClauseId → Bool
taken a new_key moved = elim (find new_key a.ref_to_id) [
  | none ↦ false
  | some id ↦ not (id == moved)
]

unfoldable pub preserve_on_relocation : IdAllocator → Ref → Ref → IdAllocator
preserve_on_relocation a (some old_key) (some new_key) =
    if old_key == new_key then a else elim (find old_key a.ref_to_id) [
      | none ↦ a
      | some moved ↦ if taken a new_key moved then a else record a {
        ref_to_id = insert new_key moved (erase old_key a.ref_to_id);
        id_to_ref = insert moved new_key a.id_to_ref;
        active_ids = insert moved tt a.active_ids;
      }
    ]
preserve_on_relocation a none new_ref = a
preserve_on_relocation a (some old_key) none = a

unfoldable pub retire_on_delete : IdAllocator → ClauseId → IdAllocator
retire_on_delete a id = if not (valid id) then a else elim (find id a.id_to_ref) [
  | some key ↦ record a {
    ref_to_id = erase key a.ref_to_id;
    id_to_ref = erase id a.id_to_ref;
    active_ids = erase id a.active_ids;
  }
  | none ↦ record a { active_ids = erase id a.active_ids }
]

pub retire_ref : IdAllocator → Ref → IdAllocator
retire_ref a ref = retire_on_delete a (id_for_clause_ref a ref)

pub has_active_id : IdAllocator → ClauseId → Bool
has_active_id a id = valid id && (elim (find id a.active_ids) [ none ↦ false | some u ↦ true ])

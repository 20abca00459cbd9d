-- ===== src/OnlineChecker.antt =====
-- The online proof checker (source/library/inc/kmx/sat/proof/checker/online.hpp and
-- source/library/src/kmx/sat/proof/checker/online.cpp): which clauses are live, and counters.
pub mod Counting
mod Tests
use kmx_sat.Base.{
  ℕ, suc, ◌+◌, Bool, true, false, not, Option, none, some, List, [], ◌∷◌, ◌==◌, if◌then◌else◌,
}
use kmx_sat.Dict.{find, insert, erase}
use kmx_sat.Assignment.{Ref}

pub record Coverage : Type 0 where
  pub clauses_added : ℕ
  pub clauses_deleted : ℕ
  pub clauses_shrunk : ℕ
  pub structural_errors : ℕ

-- `active_`, the set of offsets, is a map to nothing.
pub record Online : Type 0 where
  pub active : List (ℕ × Unit {0})
  pub coverage : Coverage

abbrev pub is_active : ℕ → Online → Bool
is_active offset s = elim (find offset s.active) [ none ↦ false | some u ↦ true ]

abbrev pub structural_error : Online → Online
structural_error s = record s {
  coverage = record (s.coverage) { structural_errors = s.coverage.structural_errors + 1 };
}

unfoldable pub on_add : Online → Ref → Online
on_add s none = structural_error s
on_add s (some offset) = if is_active offset s then structural_error s else record {
  active = insert offset tt s.active;
  coverage = record (s.coverage) { clauses_added = s.coverage.clauses_added + 1 };
}

unfoldable pub on_delete : Online → Ref → Online
on_delete s none = structural_error s
on_delete s (some offset) =
    if is_active offset s
    then record {
      active = erase offset s.active;
      coverage = record (s.coverage) { clauses_deleted = s.coverage.clauses_deleted + 1 };
    }
    else structural_error s

unfoldable pub on_shrink : Online → Ref → Online
on_shrink s none = structural_error s
on_shrink s (some offset) =
    if is_active offset s
    then record s {
      coverage = record (s.coverage) { clauses_shrunk = s.coverage.clauses_shrunk + 1 };
    }
    else structural_error s

unfoldable pub on_relocate : Online → Ref → Ref → Online
on_relocate s (some old_offset) (some new_offset) =
    if old_offset == new_offset
    then s
    else if is_active old_offset s
    then record s { active = insert new_offset tt (erase old_offset s.active) }
    else s
on_relocate s none new_ref = s
on_relocate s (some old_offset) none = s

pub validate_conclusion : Online → Bool
validate_conclusion s = s.coverage.structural_errors == 0

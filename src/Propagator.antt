-- ===== src/Propagator.antt =====
-- The propagator's watch registry and its queue of staged conflicts
-- (source/library/inc/kmx/sat/cdcl/propagator.hpp and
-- source/library/src/kmx/sat/cdcl/propagator.cpp). The call counters are not machine words here.
pub mod Queue
mod Tests
use kmx_sat.Base.{
  ℕ, zero, suc, ◌+◌, ◌-◌, Bool, true, false, not, ◌&&◌, ◌||◌, Option, none, some, List, [], ◌∷◌,
  ◌++◌, ltb, leb, ◌==◌, if◌then◌else◌, length, get_or, set, take, drop,
}
use kmx_sat.Assignment.{Ref}

pub record Propagator : Type 0 where
  pub watched : List Ref
  pub staged_conflicts : List Ref
  pub staged_conflict_head : ℕ
  pub propagation_call_count : ℕ
  pub assumption_propagation_call_count : ℕ
  pub beyond_conflict_propagation_call_count : ℕ
  pub pending_assumption_count : ℕ

abbrev pub same_ref : Ref → Ref → Bool
same_ref none none = true
same_ref (some a) (some b) = a == b
same_ref none (some b) = false
same_ref (some a) none = false

abbrev pub has_staged_conflicts : Propagator → Bool
has_staged_conflicts s = ltb s.staged_conflict_head (length s.staged_conflicts)

unfoldable pub staged_conflict_count : Propagator → ℕ
staged_conflict_count s =
    if has_staged_conflicts s then length s.staged_conflicts - s.staged_conflict_head else 0

-- A prefix of 64 consumed entries or more is erased.
unfoldable pub consume_staged_conflict : Propagator → Ref × Propagator
consume_staged_conflict s =
    let conflict = get_or s.staged_conflicts s.staged_conflict_head none in
    let head = s.staged_conflict_head + 1 in
    if not (has_staged_conflicts s)
    then (none, s)
    else if head == length s.staged_conflicts
    then (conflict, record s { staged_conflicts = []; staged_conflict_head = 0 })
    else if leb 64 head
    then (
      conflict,
      record s { staged_conflicts = drop head s.staged_conflicts; staged_conflict_head = 0 },
    )
    else (conflict, record s { staged_conflict_head = head })

unfoldable pub propagate : Propagator → Ref × Propagator
propagate s =
    let counted : Propagator = record s { propagation_call_count = s.propagation_call_count + 1 } in
    if has_staged_conflicts counted then consume_staged_conflict counted else (none, counted)

-- Conflicts staged while no assumption is pending are left for `propagate`.
unfoldable pub propagate_assumptions : Propagator → Ref × Propagator
propagate_assumptions s =
    let counted : Propagator = record s {
      assumption_propagation_call_count = s.assumption_propagation_call_count + 1;
    } in
    let cleared : Propagator = record counted { pending_assumption_count = 0 } in
    if s.pending_assumption_count == 0
    then (none, counted)
    else if has_staged_conflicts cleared
    then consume_staged_conflict cleared
    else (none, cleared)

pub propagate_beyond_conflict : Propagator → Ref × Propagator
propagate_beyond_conflict s =
    let counted : Propagator = record s {
      beyond_conflict_propagation_call_count = s.beyond_conflict_propagation_call_count + 1;
    } in
    if has_staged_conflicts counted then consume_staged_conflict counted else (none, counted)

unfoldable pub contains_ref : Ref → List Ref → Bool
contains_ref ref [] = false
contains_ref ref (w ∷ refs) = same_ref w ref || contains_ref ref refs

pub is_watched : Propagator → Ref → Bool
is_watched s ref = contains_ref ref s.watched

pub watch_clause : Propagator → Ref → Propagator
watch_clause s none = s
watch_clause s (some offset) =
    if is_watched s (some offset) then s else record s { watched = s.watched ++ some offset ∷ [] }

unfoldable pub index_of : Ref → List Ref → ℕ
index_of ref [] = 0
index_of ref (w ∷ refs) = let later = index_of ref refs in if same_ref w ref then 0 else suc later

-- The last entry takes the place of the one removed.
pub detach_clause : Propagator → Ref → Propagator
detach_clause s ref =
    let last = length s.watched - 1 in
    if is_watched s ref
    then record s {
      watched = take last (set s.watched (index_of ref s.watched) (get_or s.watched last none));
    }
    else s

unfoldable pub stage_conflict : Propagator → Ref → Propagator
stage_conflict s none = s
stage_conflict s (some offset) = record s {
  staged_conflicts = s.staged_conflicts ++ some offset ∷ [];
}

pub set_pending_assumption_count : Propagator → ℕ → Propagator
set_pending_assumption_count s count = record s { pending_assumption_count = count }

pub reset_episode_state : Propagator → Propagator
reset_episode_state s = record s {
  staged_conflicts = [];
  staged_conflict_head = 0;
  pending_assumption_count = 0;
}

-- ===== src/Propagator/Tests.antt =====
-- The queue with two conflicts, the first one consumed.
use kmx_sat.Base.{some, [], ◌∷◌}
use kmx_sat.Propagator.{Propagator, consume_staged_conflict}
use kmx_sat.Propagator.Queue.{Takes, consume_staged_conflict-Takes}

abbrev staged : Propagator
staged = record {
  watched = [];
  staged_conflicts = some 5 ∷ some 7 ∷ some 9 ∷ [];
  staged_conflict_head = 1;
  propagation_call_count = 0;
  assumption_propagation_call_count = 0;
  beyond_conflict_propagation_call_count = 0;
  pending_assumption_count = 0;
}

consume_staged_conflict-Takes_example :
    Takes (some 7 ∷ some 9 ∷ []) (consume_staged_conflict staged)
consume_staged_conflict-Takes_example = consume_staged_conflict-Takes staged

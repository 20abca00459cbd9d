-- ===== src/Restart/Tests.antt =====
-- The restart controller at small schedules.
use kmx_sat.Base.{◌^◌, ◌≤◌, ◌≡◌, refl, true, false, arith}
use kmx_sat.Restart.{
  Restart, grow, shrink, luby_multiplier, current_restart_budget, reset_after_inprocess,
}
use kmx_sat.Restart.Sequence.{luby_sequence}
use kmx_sat.Restart.Luby.{luby_multiplier-reads, luby_multiplier-le}
use kmx_sat.Restart.Schedule.{conflicts, pending-conflicts, budget-reset_after_inprocess}

multipliers :
    (luby_multiplier 0 ≡ 1)
    × (luby_multiplier 5 ≡ 2)
    × (luby_multiplier 6 ≡ 4)
    × (luby_multiplier 7 ≡ 1)
    × (luby_multiplier 33554430 ≡ 16777216)
    × (luby_multiplier 33554431 ≡ 1)
unfolding luby_multiplier grow shrink
multipliers = (refl, refl, refl, refl, refl, refl)

luby_multiplier-reads_example : luby_multiplier 6 ≡ 4
unfolding luby_sequence
luby_multiplier-reads_example = luby_multiplier-reads 2 6 (omega arith) (omega arith)

-- Far beyond the largest block.
luby_multiplier-le_example : luby_multiplier 100000000000 ≤ 2 ^ 24
luby_multiplier-le_example = luby_multiplier-le 100000000000

-- Armed, three conflicts before the next restart.
abbrev armed : Restart
armed = record {
  conflict_count = 2;
  decision_count = 9;
  restart_count = 0;
  restart_sequence_index = 6;
  conflicts_at_last_restart = 0;
  decision_restart_sequence_index = 0;
  restart_interval = 5;
  next_scheduled_restart_at = 5;
  decision_restart_interval = 0;
  next_scheduled_decision_restart_at = 0;
  restart_pending = false;
}

pending-conflicts_example : (conflicts 3 armed).restart_pending ≡ true
unfolding current_restart_budget
pending-conflicts_example =
    pending-conflicts 3 armed (refl, refl, omega arith, omega arith) (omega arith)

budget-reset_after_inprocess_example :
    (current_restart_budget (reset_after_inprocess armed) ≡ 20)
    × ((reset_after_inprocess armed).restart_sequence_index ≡ 7)
    × ((reset_after_inprocess armed).restart_count ≡ 0)
unfolding luby_multiplier grow shrink
budget-reset_after_inprocess_example = budget-reset_after_inprocess armed refl (omega arith)

-- ===== src/Restart.antt =====
-- The restart controller (source/library/inc/kmx/sat/cdcl/controller/restart.hpp and
-- source/library/src/kmx/sat/cdcl/controller/restart.cpp): the schedules by conflicts and by
-- decisions. The moving averages of the glue, which are floating-point numbers, are not modelled;
-- what they do to the schedules is `request_restart`.
pub mod Sequence
pub mod Luby
pub mod Schedule
mod Tests
use kmx_sat.Base.{
  ℕ, zero, suc, ◌+◌, ◌-◌, ◌*◌, ◌/◌, ◌%◌, ◌^◌, Bool, true, false, ◌==◌, ltb, leb, not, ◌&&◌,
  if◌then◌else◌,
}

-- `counter_t`, of 64 bits.
abbrev pub word : ℕ → ℕ
word n = n % 2 ^ 64

pub record Restart : Type 0 where
  pub conflict_count : ℕ
  pub decision_count : ℕ
  pub restart_count : ℕ
  pub restart_sequence_index : ℕ
  pub conflicts_at_last_restart : ℕ
  pub decision_restart_sequence_index : ℕ
  pub restart_interval : ℕ
  pub next_scheduled_restart_at : ℕ
  pub decision_restart_interval : ℕ
  pub next_scheduled_decision_restart_at : ℕ
  pub restart_pending : Bool

-- The first loop of `luby_multiplier`; the steps left are 24 less the exponent.
unfoldable pub grow : ℕ → ℕ → ℕ → ℕ → ℕ × ℕ
grow zero index size sequence = (size, sequence)
grow (suc steps) index size sequence =
    let rest = grow steps index (word (2 * size + 1)) (sequence + 1) in
    if ltb size (word (index + 1)) then rest else (size, sequence)

-- The second loop; it shrinks the size, so that the size bounds its steps.
unfoldable pub shrink : ℕ → ℕ → ℕ → ℕ → ℕ
shrink zero index size sequence = 2 ^ sequence
shrink (suc steps) index size sequence =
    let half = (size - 1) / 2 in
    let rest = shrink steps (index % half) half (sequence - 1) in
    if not (size - 1 == index) && ltb 1 size then rest else 2 ^ sequence

unfoldable pub luby_multiplier : ℕ → ℕ
luby_multiplier index = let grown = grow 24 index 1 0 in shrink 24 index grown.0 grown.1

-- A budget, and the state whose sequence index has moved on.
unfoldable pub next_restart_budget : Restart → ℕ × Restart
next_restart_budget s = (
  word (s.restart_interval * luby_multiplier s.restart_sequence_index),
  record s { restart_sequence_index = word (s.restart_sequence_index + 1) },
)

pub next_decision_restart_budget : Restart → ℕ × Restart
next_decision_restart_budget s = (
  word (s.decision_restart_interval * luby_multiplier s.decision_restart_sequence_index),
  record s { decision_restart_sequence_index = word (s.decision_restart_sequence_index + 1) },
)

pub has_progress_since_restart : Restart → Bool
has_progress_since_restart s = ltb s.conflicts_at_last_restart s.conflict_count

pub reset : Restart → Restart
reset s = record s {
  conflict_count = 0;
  decision_count = 0;
  restart_count = 0;
  restart_sequence_index = 0;
  decision_restart_sequence_index = 0;
  conflicts_at_last_restart = 0;
  next_scheduled_restart_at = s.restart_interval;
  next_scheduled_decision_restart_at = s.decision_restart_interval;
  restart_pending = false;
}

unfoldable pub tick_conflict : Restart → Restart
tick_conflict s =
    let counted : Restart = record s { conflict_count = word (s.conflict_count + 1) } in
    let budget = next_restart_budget counted in
    if counted.restart_interval == 0
    then counted
    else if leb counted.next_scheduled_restart_at counted.conflict_count
    then record (budget.1) {
      restart_pending = true;
      next_scheduled_restart_at = word (counted.conflict_count + budget.0);
    }
    else counted

pub tick_decision : Restart → Restart
tick_decision s =
    let counted : Restart = record s { decision_count = word (s.decision_count + 1) } in
    let budget = next_decision_restart_budget counted in
    if counted.decision_restart_interval == 0
    then counted
    else if leb counted.next_scheduled_decision_restart_at counted.decision_count
    then record (budget.1) {
      restart_pending = true;
      next_scheduled_decision_restart_at = word (counted.decision_count + budget.0);
    }
    else counted

unfoldable pub rebase_schedule : Restart → Restart
rebase_schedule s =
    let budget = next_restart_budget s in
    let first : Restart =
      if s.restart_interval == 0
      then s
      else record (budget.1) { next_scheduled_restart_at = word (s.conflict_count + budget.0) } in
    if first.decision_restart_interval == 0 then first else record first {
      next_scheduled_decision_restart_at =
          word (first.decision_count + first.decision_restart_interval);
    }

unfoldable pub reset_after_inprocess : Restart → Restart
reset_after_inprocess s = rebase_schedule (record s {
  restart_count = if s.restart_pending then word (s.restart_count + 1) else s.restart_count;
  restart_pending = false;
  conflicts_at_last_restart = s.conflict_count;
})

pub resynchronize_after_inprocess : Restart → Restart
resynchronize_after_inprocess s =
    let budget = next_decision_restart_budget s in
    if s.decision_restart_interval == 0 then s else record (budget.1) {
      next_scheduled_decision_restart_at = word (s.decision_count + budget.0);
    }

unfoldable pub current_restart_budget : Restart → ℕ
current_restart_budget s =
    if s.restart_interval == 0
    then 0
    else if s.restart_pending
    then 0
    else if leb s.next_scheduled_restart_at s.conflict_count
    then 0
    else s.next_scheduled_restart_at - s.conflict_count

pub current_decision_restart_budget : Restart → ℕ
current_decision_restart_budget s =
    if s.decision_restart_interval == 0
    then 0
    else if s.restart_pending
    then 0
    else if leb s.next_scheduled_decision_restart_at s.decision_count
    then 0
    else s.next_scheduled_decision_restart_at - s.decision_count

pub request_restart : Restart → Restart
request_restart s = record s { restart_pending = true }

unfoldable pub set_restart_interval : Restart → ℕ → Restart
set_restart_interval s interval = record s {
  restart_interval = interval;
  restart_sequence_index = 0;
  next_scheduled_restart_at = word (s.conflict_count + interval);
}

pub set_decision_restart_interval : Restart → ℕ → Restart
set_decision_restart_interval s interval = record s {
  decision_restart_interval = interval;
  decision_restart_sequence_index = 0;
  next_scheduled_decision_restart_at = word (s.decision_count + interval);
}

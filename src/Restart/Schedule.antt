-- ===== src/Restart/Schedule.antt =====
-- What the schedule by conflicts promises
-- (source/library/src/kmx/sat/cdcl/controller/restart.cpp).
use native.Mathlib.Nat.{mod-eq_of_lt}
use kmx_sat.Base.{
  ℕ, zero, suc, ◌+◌, ◌-◌, ◌*◌, ◌^◌, ◌≤◌, ◌<◌, ◌≡◌, ap, ◌∙◌, inl, inr, true, false, arith, ◌==◌,
  if◌then◌else◌, Bool-cases,
}
use kmx_sat.Restart.{
  Restart, word, luby_multiplier, next_restart_budget, tick_conflict, current_restart_budget,
  rebase_schedule, reset_after_inprocess,
}

-- A run of conflicts.
abbrev pub conflicts : ℕ → Restart → Restart
conflicts zero s = s
conflicts (suc n) s = conflicts n (tick_conflict s)

-- A schedule by conflicts that is armed, its next restart within the counter's range.
abbrev pub Armed : Restart → Type 0
Armed s =
    ((s.restart_interval == 0) ≡ false)
    × (s.restart_pending ≡ false)
    × (s.conflict_count < s.next_scheduled_restart_at)
    × (s.next_scheduled_restart_at < 2 ^ 64)

tick-before :
    (s : Restart)
    → Armed s
    → s.conflict_count + 1 < s.next_scheduled_restart_at
    → tick_conflict s ≡ record s { conflict_count = s.conflict_count + 1 }
unfolding tick_conflict
tick-before s (on, idle, later, range) before =
    let fits : word (s.conflict_count + 1) ≡ s.conflict_count + 1 = mod-eq_of_lt (omega arith) in
    rw fits (ground arith)

tick-fires :
    (s : Restart)
    → Armed s
    → s.conflict_count + 1 ≡ s.next_scheduled_restart_at
    → (tick_conflict s).restart_pending ≡ true
unfolding tick_conflict
tick-fires s (on, idle, later, range) due =
    let fits : word (s.conflict_count + 1) ≡ s.conflict_count + 1 = mod-eq_of_lt (omega arith) in
    rw fits (ground arith)

budget_of_Armed :
    (s : Restart)
    → Armed s
    → current_restart_budget s ≡ s.next_scheduled_restart_at - s.conflict_count
unfolding current_restart_budget
budget_of_Armed s h = ground arith

pending_after :
    (n : ℕ) (s : Restart)
    → Armed s
    → s.conflict_count + n ≤ s.next_scheduled_restart_at
    → (conflicts n s).restart_pending ≡ (s.conflict_count + n == s.next_scheduled_restart_at)
pending_after zero s h few = ground arith
pending_after (suc n) s h few =
    elim (Bool-cases (s.conflict_count + 1 == s.next_scheduled_restart_at)) [
      | inl due ↦ let last : n ≡ 0 = ground arith in ground (arith, tick-fires s h)
      | inr early ↦
          let before : s.conflict_count + 1 < s.next_scheduled_restart_at = ground arith in
          let next : Restart = record s { conflict_count = s.conflict_count + 1 } in
          let rest = pending_after n next (h.0, h.1, before, h.3) (omega arith) in
          let shift : s.conflict_count + 1 + n ≡ s.conflict_count + suc n = omega arith in
          ap (λ t. (conflicts n t).restart_pending) (tick-before s h before)
          ∙ rest
          ∙ ap (λ m. m == s.next_scheduled_restart_at) shift
    ]

-- While the schedule is armed, `current_restart_budget` is the number of conflicts to the next
-- restart: of the runs of up to so many conflicts, that of exactly so many leaves a restart
-- pending and no shorter one does.
pub pending-conflicts :
    (n : ℕ) (s : Restart)
    → Armed s
    → n ≤ current_restart_budget s
    → (conflicts n s).restart_pending ≡ (n == current_restart_budget s)
pending-conflicts n s h few =
    let budget = budget_of_Armed s h in
    let run = pending_after n s h (ground (arith, budget)) in rw (budget, run) (ground arith)

-- A performed restart, where an interval is set, arms the schedule by conflicts with the interval times the multiplier at the
-- present place of the sequence, where that stays in the counter's range, and moves on in it.
pub budget-reset_after_inprocess :
    (s : Restart)
    → (s.restart_interval == 0) ≡ false
    → s.conflict_count + s.restart_interval * luby_multiplier s.restart_sequence_index < 2 ^ 64
    → (current_restart_budget (reset_after_inprocess s)
        ≡ s.restart_interval * luby_multiplier s.restart_sequence_index)
      × ((reset_after_inprocess s).restart_sequence_index ≡ word (s.restart_sequence_index + 1))
      × ((reset_after_inprocess s).restart_count
          ≡ (if s.restart_pending then word (s.restart_count + 1) else s.restart_count))
unfolding reset_after_inprocess rebase_schedule next_restart_budget current_restart_budget
budget-reset_after_inprocess s on range =
    let budget = s.restart_interval * luby_multiplier s.restart_sequence_index in
    let fits : word budget ≡ budget = mod-eq_of_lt (omega arith) in
    let sum : word (s.conflict_count + budget) ≡ s.conflict_count + budget = mod-eq_of_lt range in
    elim (Bool-cases (s.decision_restart_interval == 0)) [
      | inl off ↦ rw (on, off, fits, sum) (ground (arith, range))
      | inr also ↦ rw (on, also, fits, sum) (ground (arith, range))
    ]

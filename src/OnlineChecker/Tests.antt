-- ===== src/OnlineChecker/Tests.antt =====
-- A short episode of the online checker.
use kmx_sat.Base.{refl, some, List, [], ◌∷◌}
use kmx_sat.OnlineChecker.{Online, on_add, on_delete, on_shrink, on_relocate}
use kmx_sat.OnlineChecker.Counting.{
  Event, added, deleted, shrunk, relocated, replay, Balanced, replay-Balanced,
}

abbrev idle : Online
idle = record {
  active = [];
  coverage = record {
    clauses_added = 0;
    clauses_deleted = 0;
    clauses_shrunk = 0;
    structural_errors = 0;
  };
}

-- The last deletion is an error.
abbrev episode : List Event
episode =
    added (some 4)
    ∷ added (some 9)
    ∷ relocated (some 4) (some 12)
    ∷ shrunk (some 12)
    ∷ deleted (some 4)
    ∷ []

replay-Balanced_example : Balanced (replay idle episode)
unfolding on_add on_delete on_shrink on_relocate
replay-Balanced_example =
    replay-Balanced idle episode (tt, (tt, (refl, (tt, (tt, tt)))))
      (record { live = tt; count = refl })

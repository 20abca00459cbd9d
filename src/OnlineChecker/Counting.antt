-- ===== src/OnlineChecker/Counting.antt =====
-- The counters and the live clauses
-- (source/library/src/kmx/sat/proof/checker/online.cpp).
use kmx_sat.Base.{
  ℕ, ◌+◌, ◌≡◌, refl, inl, inr, true, false, none, some, List, [], ◌∷◌, arith, ◌==◌, Bool-cases,
  Option-cases, length,
}
use kmx_sat.Dict.{find, insert, erase, IsMap, find-erase, insert-IsMap, erase-IsMap}
use kmx_sat.Assignment.{Ref}
use kmx_sat.OnlineChecker.{Online, is_active, on_add, on_delete, on_shrink, on_relocate}

length-insert_new :
    (k : ℕ) (d : List (ℕ × Unit {0})) → find k d ≡ none → length (insert k tt d) ≡ length d + 1
length-insert_new k [] h = refl
length-insert_new k ((j, u) ∷ d) h = ground (arith, length-insert_new k d)

length-erase_old :
    (k : ℕ) (u : Unit {0}) (d : List (ℕ × Unit {0}))
    → find k d ≡ some u
    → length (erase k d) + 1 ≡ length d
length-erase_old k u [] h = absurd cc
length-erase_old k u ((j, w) ∷ d) h = ground (arith, length-erase_old k u d)

none_of : (k : ℕ) (s : Online) → is_active k s ≡ false → find k s.active ≡ none
none_of k s h = elim (Option-cases (find k s.active)) [
  | inl e ↦ e
  | inr (u, e) ↦ absurd (ground arith)
]

some_of : (k : ℕ) (s : Online) → is_active k s ≡ true → find k s.active ≡ some tt
some_of k s h = elim (Option-cases (find k s.active)) [
  | inl e ↦ absurd (ground arith)
  | inr (u, e) ↦ e
]

-- The events that the checker is told of.
pub data Event : Type 0 where
  added : Ref → Event
  deleted : Ref → Event
  shrunk : Ref → Event
  relocated : Ref → Ref → Event

abbrev pub step : Online → Event → Online
step s (added ref) = on_add s ref
step s (deleted ref) = on_delete s ref
step s (shrunk ref) = on_shrink s ref
step s (relocated old_ref new_ref) = on_relocate s old_ref new_ref

abbrev pub replay : Online → List Event → Online
replay s [] = s
replay s (e ∷ events) = replay (step s e) events

-- A relocation goes to a reference that is not live; the other events are free.
abbrev pub Vacant : Online → Event → Type 0
Vacant s (relocated (some old_offset) (some new_offset)) = find new_offset s.active ≡ none
Vacant s _ = Unit

abbrev pub AllVacant : Online → List Event → Type 0
AllVacant s [] = Unit
AllVacant s (e ∷ events) = Vacant s e × AllVacant (step s e) events

-- Every clause added is live or has been deleted.
pub record Balanced (s : Online) : Type 0 where
  pub live : IsMap s.active
  pub count : s.coverage.clauses_added ≡ s.coverage.clauses_deleted + length s.active

on_add-Balanced : (s : Online) (ref : Ref) → Balanced s → Balanced (on_add s ref)
unfolding on_add
on_add-Balanced s none b = record { live = b.live; count = b.count }
on_add-Balanced s (some k) b = elim (Bool-cases (is_active k s)) [
  | inr new ↦
      rw (new, on_add)
        (record {
          live = insert-IsMap k tt s.active b.live;
          count = omega (arith, b.count, length-insert_new k s.active (none_of k s new));
        })
  | inl old ↦ rw (old, on_add) (record { live = b.live; count = b.count })
]

on_delete-Balanced : (s : Online) (ref : Ref) → Balanced s → Balanced (on_delete s ref)
unfolding on_delete
on_delete-Balanced s none b = record { live = b.live; count = b.count }
on_delete-Balanced s (some k) b = elim (Bool-cases (is_active k s)) [
  | inr unknown ↦ rw (unknown, on_delete) (record { live = b.live; count = b.count })
  | inl old ↦
      rw (old, on_delete)
        (record {
          live = erase-IsMap k s.active b.live;
          count = omega (arith, b.count, length-erase_old k tt s.active (some_of k s old));
        })
]

on_shrink-Balanced : (s : Online) (ref : Ref) → Balanced s → Balanced (on_shrink s ref)
unfolding on_shrink
on_shrink-Balanced s none b = record { live = b.live; count = b.count }
on_shrink-Balanced s (some k) b = elim (Bool-cases (is_active k s)) [
  | inr unknown ↦ rw (unknown, on_shrink) (record { live = b.live; count = b.count })
  | inl old ↦ rw (old, on_shrink) (record { live = b.live; count = b.count })
]

on_relocate-Balanced :
    (s : Online) (old_ref new_ref : Ref)
    → Vacant s (relocated old_ref new_ref)
    → Balanced s
    → Balanced (on_relocate s old_ref new_ref)
unfolding on_relocate
on_relocate-Balanced s none new_ref v b = b
on_relocate-Balanced s (some k) none v b = b
on_relocate-Balanced s (some k) (some j) v b = elim (Bool-cases (k == j)) [
  | inl same ↦ rw same b
  | inr differ ↦ elim (Bool-cases (is_active k s)) [
    | inr unknown ↦ rw (differ, unknown, on_relocate) b
    | inl old ↦
        let vacant : find j (erase k s.active) ≡ none =
          ground (arith, find-erase k j s.active b.live) in
        rw (differ, old, on_relocate)
          (record {
            live = insert-IsMap j tt (erase k s.active) (erase-IsMap k s.active b.live);
            count = omega (
              arith,
              b.count,
              length-erase_old k tt s.active (some_of k s old),
              length-insert_new j (erase k s.active) vacant,
            );
          })
  ]
]

step-Balanced : (s : Online) (e : Event) → Vacant s e → Balanced s → Balanced (step s e)
step-Balanced s (added ref) v b = on_add-Balanced s ref b
step-Balanced s (deleted ref) v b = on_delete-Balanced s ref b
step-Balanced s (shrunk ref) v b = on_shrink-Balanced s ref b
step-Balanced s (relocated old_ref new_ref) v b = on_relocate-Balanced s old_ref new_ref v b

-- From a balanced state, over every sequence of events whose relocations go to references that are
-- not live, the clauses counted as added stay those counted as deleted and those live, errors or not.
pub replay-Balanced :
    (s : Online) (events : List Event)
    → AllVacant s events
    → Balanced s
    → Balanced (replay s events)
replay-Balanced s [] v b = b
replay-Balanced s (e ∷ events) v b = replay-Balanced (step s e) events v.1 (step-Balanced s e v.0 b)

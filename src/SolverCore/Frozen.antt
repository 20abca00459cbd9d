-- ===== src/SolverCore/Frozen.antt =====
-- What propagation leaves alone: the level, its frames, the number of variables and, while a list
-- is read, the place on the trail (source/library/src/kmx/sat/cdcl/solver_core.cpp).
use kmx_sat.Base.{
  ℕ, ◌+◌, ◌≡◌, refl, ◌∙◌, inl, inr, Option, some, List, [], ◌∷◌, ◌++◌, Bool-cases, Option-cases,
}
use kmx_sat.Literal.{Literal, negated}
use kmx_sat.SolverCore.{
  is_falsified, is_satisfied, Watch, SolverCore, value_of, assign, Visit, kept, moved, conflicting,
  visit_binary, visit_rest, visit_long, visit_watch, find_replacement, scan_watches,
  propagate_literal,
}

abbrev pub Frozen : {H : Type 0} → SolverCore H → SolverCore H → Type 0
Frozen s t =
    (t.propagated ≡ s.propagated)
    × (t.variable_count ≡ s.variable_count)
    × (t.level ≡ s.level)
    × (t.control ≡ s.control)

abbrev pub FrozenVisit : {H : Type 0} → SolverCore H → Visit H → Type 0
FrozenVisit s (kept t w) = Frozen s t
FrozenVisit s (moved t) = Frozen s t
FrozenVisit s (conflicting t w ref) = Frozen s t

abbrev FrozenScan : {H : Type 0} → SolverCore H → (SolverCore H × List Watch) × Option ℕ → Type 0
FrozenScan s r = Frozen s r.0.0

module _ {H : Type 0} where
  Frozen-trans : (s t u : SolverCore H) → Frozen s t → Frozen t u → Frozen s u
  Frozen-trans s t u (a, b, c, d) (e, f, g, h) = (e ∙ a, f ∙ b, g ∙ c, h ∙ d)

  visit_binary-Frozen : (s : SolverCore H) (w : Watch) → FrozenVisit s (visit_binary s w)
  unfolding visit_binary assign
  visit_binary-Frozen s w = elim (Bool-cases (is_falsified (value_of s w.blocking_literal))) [
    | inl e ↦ rw (e, visit_binary) (refl, refl, refl, refl)
    | inr e ↦ rw (e, visit_binary) (refl, refl, refl, refl)
  ]

  visit_rest-Frozen :
      (k : Literal) (s : SolverCore H) (ref : ℕ) (o : Literal) (cs : List Literal)
      → FrozenVisit s (visit_rest k s ref o cs)
  unfolding visit_rest assign
  visit_rest-Frozen k s ref o cs = elim (Bool-cases (is_satisfied (value_of s o))) [
    | inl e ↦ rw (e, visit_rest) (refl, refl, refl, refl)
    | inr e ↦ elim (Option-cases (find_replacement s.values k cs)) [
      | inr (r, f) ↦ rw (e, f, visit_rest) (refl, refl, refl, refl)
      | inl f ↦ elim (Bool-cases (is_falsified (value_of s o))) [
        | inl g ↦ rw (e, f, g, visit_rest) (refl, refl, refl, refl)
        | inr g ↦ rw (e, f, g, visit_rest) (refl, refl, refl, refl)
      ]
    ]
  ]

  visit_long-Frozen :
      (k : Literal) (s : SolverCore H) (w : Watch) (c : List Literal)
      → FrozenVisit s (visit_long k s w c)
  unfolding visit_long
  visit_long-Frozen k s w [] = (refl, refl, refl, refl)
  visit_long-Frozen k s w (a ∷ []) = (refl, refl, refl, refl)
  visit_long-Frozen k s w (a ∷ b ∷ cs) = visit_rest-Frozen k s w.clause_ref _ cs

  visit_watch-Frozen :
      (k : Literal) (s : SolverCore H) (w : Watch) → FrozenVisit s (visit_watch k s w)
  unfolding visit_watch
  visit_watch-Frozen k s w = elim (Bool-cases (is_satisfied (value_of s w.blocking_literal))) [
    | inl e ↦ rw (e, visit_watch) (refl, refl, refl, refl)
    | inr e ↦ elim (Bool-cases w.is_binary) [
      | inl b ↦ rw (e, b, visit_watch) (visit_binary-Frozen s w)
      | inr b ↦ rw (e, b, visit_watch) (visit_long-Frozen k s w (s.clauses w.clause_ref))
    ]
  ]

  scan_watches-Frozen :
      (k : Literal) (s : SolverCore H) (written rest : List Watch)
      → FrozenScan s (scan_watches k s written rest)
  unfolding scan_watches
  scan_watches-Frozen k s written [] = (refl, refl, refl, refl)
  scan_watches-Frozen k s written (w ∷ rest) =
      let read : SolverCore H = record s {
        watch_entry_scan_count = s.watch_entry_scan_count + 1;
      } in
      elim (visit_watch k read w)
          as (λ v.
            FrozenVisit read v
            → FrozenScan {H = H} s (elim v [
              | kept t w ↦ scan_watches k t (written ++ w ∷ []) rest
              | moved t ↦ scan_watches k t written rest
              | conflicting t w ref ↦ ((t, written ++ w ∷ rest), some ref)
            ])) [
              | kept t v ↦ λ h.
                  Frozen-trans s t (scan_watches k t (written ++ v ∷ []) rest).0.0 h
                    (scan_watches-Frozen k t (written ++ v ∷ []) rest)
              | moved t ↦ λ h.
                  Frozen-trans s t (scan_watches k t written rest).0.0 h
                    (scan_watches-Frozen k t written rest)
              | conflicting t v ref ↦ λ h. h
            ]
        (visit_watch-Frozen k read w)

  -- A turn moves one place on.
  pub propagate_literal-place :
      (s : SolverCore H) (lit : Literal)
      → ((propagate_literal s lit).0.propagated ≡ s.propagated + 1)
        × ((propagate_literal s lit).0.variable_count ≡ s.variable_count)
        × ((propagate_literal s lit).0.level ≡ s.level)
        × ((propagate_literal s lit).0.control ≡ s.control)
  unfolding propagate_literal
  propagate_literal-place s lit =
      let ready : SolverCore H = record s {
        propagated = s.propagated + 1;
        iterate_count = s.iterate_count + 1;
      } in
      let f = scan_watches-Frozen (negated lit) ready [] (s.watches (negated lit).raw) in f

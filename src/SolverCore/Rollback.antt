-- ===== src/SolverCore/Rollback.antt =====
-- Backtracking keeps trail, tables, watch lists and reasons in agreement
-- (source/library/src/kmx/sat/cdcl/solver_core.cpp, `backtrack`).
use kmx_sat.Base.{
  ℕ, ◌+◌, ◌≤◌, ◌<◌, ◌≡◌, ◌⊎◌, refl, sym, ap, subst, ◌∙◌, inl, inr, some, List, [], ◌∷◌, ◌++◌,
  append-nil, reverse, arith, ltb, leb, if◌then◌else◌, Bool-cases, length, length-append, get_elem?,
  take, drop, Entry, here,
}
use kmx_sat.Literal.{Variable, Literal, variable_of, negated}
use kmx_sat.Literal.Encoding.{variable_of-negated}
use kmx_sat.SolverCore.{
  falsified, Value, unassigned, satisfied, opposite, SolverCore, trail_begin_of, no_frame,
}
use kmx_sat.SolverCore.Trail.{IsTrail, IsCut, view, get_elem?-lt}
use kmx_sat.SolverCore.Assigned.{Entry-of_false}
use kmx_sat.SolverCore.Scan.{IsPropagating}
use kmx_sat.SolverCore.Propagated.{Settled, Within, IsReasoned}
use kmx_sat.SolverCore.Cut.{
  take-Entry, drop-Entry, take-or_drop, length-take, take-append, Distinct-take, Distinct-drop,
  cut_apart, reverse_aux-Entry, Entry-reverse_aux, reverse_aux-Distinct, reverse_aux-length,
  get_elem?-take, take-get_elem?, take-drop, get_elem?-middle, get_elem?-lt_some, drop-get_elem?,
  get_or-take, take-take, drop-take, variable_cases,
}
use kmx_sat.SolverCore.Restore.{unassign_keeps, unassign_clears, unassigned_below-undo}
use kmx_sat.SolverCore.Backjump.{BranchingHeap, unassign_values, requeue}

module _ {H : Type 0} (heap : BranchingHeap H) (original : ℕ → List Literal)
    {done queue : List Literal} (s : SolverCore H) (target begin : ℕ)
    (h : IsPropagating original done queue s) (cut : IsCut (view s) target begin)
    (under : target < s.level) where
  -- What is still to be propagated is on the current level, hence undone.
  begin_le : begin ≤ length done
  begin_le =
      begin_in queue (IsTrail.splits (IsPropagating.trail h))
        (IsTrail.recent (IsPropagating.trail h))
    where
      begin_in :
          (q : List Literal)
          → s.trail ≡ done ++ q
          → ((l : Literal) → Entry l q → s.levels (variable_of l) ≡ s.level)
          → begin ≤ length done
      begin_in [] e recent = omega (arith, IsCut.inside cut, ap length e, length-append done [])
      begin_in (x ∷ q) e recent = elim (Bool-cases (ltb (length done) begin)) [
        | inr n ↦ ground arith
        | inl y ↦
            let place =
              subst (λ (t : List Literal). get_elem? t (length done) ≡ some x) (sym e)
                (get_elem?-middle done x q) in
            let inside = take-get_elem? begin s.trail (length done) x place (ground arith) in
            absurd (omega (arith, IsCut.low cut x inside, recent x here, under))
      ]

  abbrev undone : List Literal
  undone = reverse (drop begin s.trail)

  abbrev after : ℕ → Value
  after = unassign_values s.values undone

  pub keeps :
      (l : Literal)
      → Entry l (take begin s.trail)
      → (k : Literal) → variable_of k ≡ variable_of l
      → after k.raw ≡ s.values k.raw
  keeps l e k same = unassign_keeps undone k s.values (λ x m.
      elim (reverse_aux-Entry (drop begin s.trail) [] x m) [
        | inr m ↦ elim m [ ]
        | inl m ↦
            rw (same) (cut_apart begin s.trail l x (IsTrail.distinct (IsPropagating.trail h)) e m)
      ])

  -- A value is kept or cleared, together with the opposite one.
  kept_or_cleared :
      (k : Literal)
      → ((after k.raw ≡ s.values k.raw) × (after (negated k).raw ≡ s.values (negated k).raw))
        ⊎ ((after k.raw ≡ unassigned) × (after (negated k).raw ≡ unassigned))
  kept_or_cleared k = elim (variable_cases (variable_of k) undone) [
    | inl (l, e, same) ↦ inr (
      unassign_clears undone k l s.values e same,
      unassign_clears undone (negated k) l s.values e (variable_of-negated k ∙ same),
    )
    | inr n ↦ inl (
      unassign_keeps undone k s.values n,
      unassign_keeps undone (negated k) s.values (λ l e. rw (variable_of-negated k) (n l e)),
    )
  ]

  pub left_trail : take begin s.trail ≡ take begin done
  left_trail =
      ap (λ (t : List Literal). take begin t) (IsTrail.splits (IsPropagating.trail h))
      ∙ take-append begin done queue begin_le

  abbrev back : SolverCore H
  back = record s {
    values = after;
    heap = requeue heap s.heap undone;
    trail = take begin s.trail;
    propagated = if ltb begin s.propagated then begin else s.propagated;
    control = take (target + 1) s.control;
    level = target;
  }

  -- A lower frame starts before.
  lower_le : (lower : ℕ) → lower < target → trail_begin_of s.control lower ≤ begin
  lower_le lower less =
      let t = IsPropagating.trail h in
      let c = IsTrail.cuts t lower (omega (arith, less, under)) in
      elim (Bool-cases (leb (trail_begin_of s.control lower) begin)) [
        | inl y ↦ ground arith
        | inr n ↦
            let more : begin < trail_begin_of s.control lower = ground arith in
            let (x, e) = get_elem?-lt_some s.trail begin (omega (arith, more, IsCut.inside c)) in
            let under_lower = take-get_elem? _ s.trail begin x e more in
            let above = drop-get_elem? begin s.trail x e in
            absurd (omega (arith, IsCut.low c x under_lower, IsCut.high cut x above, less))
      ]

  back_cuts :
      (lower : ℕ)
      → lower < target
      → IsCut (view back) lower (trail_begin_of (take (target + 1) s.control) lower)
  back_cuts lower less =
      let c = IsTrail.cuts (IsPropagating.trail h) lower (omega (arith, less, under)) in
      let le = lower_le lower less in
      let same = get_or-take (target + 1) s.control (lower + 1) no_frame (omega (arith, less)) in
      let long = length-take begin s.trail (IsCut.inside cut) in
      rw (same) (record {
        inside = omega (arith, le, long);
        low = λ k e. IsCut.low c k (take-take _ begin s.trail le k e);
        high = λ k e. IsCut.high c k (drop-take _ begin s.trail k e);
      })

  back-IsTrail : IsTrail (take begin done) [] (view back)
  back-IsTrail =
      let t = IsPropagating.trail h in
      record {
        splits = left_trail ∙ sym (append-nil (take begin done));
        opposites = λ k. elim (kept_or_cleared k) [
          | inl (a, b) ↦ rw (a, b) (IsTrail.opposites t k)
          | inr (a, b) ↦ rw (a, b) refl
        ];
        listed = λ k up. elim (kept_or_cleared k) [
          | inr (a, b) ↦ absurd (cc (a, up))
          | inl (a, b) ↦ elim (take-or_drop begin s.trail k (IsTrail.listed t k (sym a ∙ up))) [
            | inl e ↦ e
            | inr e ↦
                let gone =
                  unassign_clears undone k k s.values
                    (Entry-reverse_aux (drop begin s.trail) [] k (inl e)) refl in
                absurd (cc (gone, up))
          ]
        ];
        holds = λ k e. keeps k e k refl ∙ IsTrail.holds t k (take-Entry begin s.trail k e);
        bounded = λ k e. IsCut.low cut k e;
        recent = λ k e. elim e [ ];
        placed = λ k e.
            get_elem?-take begin s.trail _ k (IsTrail.distinct t)
              (IsTrail.placed t k (take-Entry begin s.trail k e)) e;
        distinct = Distinct-take begin s.trail (IsTrail.distinct t);
        frames =
            omega
              (arith, length-take (target + 1) s.control (omega (arith, under, IsTrail.frames t)));
        cuts = back_cuts;
      }

  -- A literal that was true on a low level still is.
  back-true :
      (t : Literal)
      → s.values t.raw ≡ satisfied
      → s.levels (variable_of t) ≤ target
      → after t.raw ≡ satisfied
  back-true t up low =
      elim (take-or_drop begin s.trail t (IsTrail.listed (IsPropagating.trail h) t up)) [
        | inl e ↦ keeps t e t refl ∙ up
        | inr e ↦ absurd (omega (arith, IsCut.high cut t e, low))
      ]

  back-Settled : Settled (take begin done) s.clauses s.watches (view back)
  back-Settled k w m d =
      let (t, inside, up, low) =
        IsPropagating.settled h k w m (take-Entry begin done (negated k) d) in
      let kept_key = subst (Entry (negated k)) (sym left_trail) d in
      let key_low : s.levels (variable_of k) ≤ target =
        rw (sym (variable_of-negated k)) (IsCut.low cut (negated k) kept_key) in
      (t, inside, back-true t up (omega (arith, low, key_low)), low)

  back-IsReasoned : IsReasoned s.clauses s.reasons (view back)
  back-IsReasoned l ref e r =
      let t = IsPropagating.trail h in
      let (inside, others) = IsPropagating.reasoned h l ref (take-Entry begin s.trail l e) r in
      let place = get_elem?-lt (take begin s.trail) (s.trail_positions (variable_of l)) (
        get_elem?-take begin s.trail _ l (IsTrail.distinct t)
          (IsTrail.placed t l (take-Entry begin s.trail l e)) e) in
      (
        inside,
        λ x m. elim (others x m) [
          | inl same ↦ inl same
          | inr (down, before) ↦
              let twin = IsTrail.placed t (negated x) (Entry-of_false s t x down) in
              let where_x : get_elem? s.trail (s.trail_positions (variable_of x))
                  ≡ some (negated x) =
                rw (sym (variable_of-negated x)) twin in
              let kept_x =
                take-get_elem? begin s.trail _ (negated x) where_x
                  (omega (arith, before, place, length-take begin s.trail (IsCut.inside cut))) in
              inr (keeps (negated x) kept_x x (sym (variable_of-negated x)) ∙ down, before)
        ],
      )

  back-Within : Within original s.clauses (s.variable_count + 1) (view back)
  back-Within =
      let t = IsPropagating.trail h in
      let w = IsPropagating.within h in
      let inside : (l : Literal) → Entry l undone → Entry l s.trail = λ l e.
        elim (reverse_aux-Entry (drop begin s.trail) [] l e) [
          | inl e ↦ drop-Entry begin s.trail l e
          | inr e ↦ elim e [ ]
        ] in
      let more =
        unassigned_below-undo undone s.values (s.variable_count + 1)
          (reverse_aux-Distinct (drop begin s.trail) []
            (Distinct-drop begin s.trail (IsTrail.distinct t)) tt (λ k l e m. elim m [ ]))
          (λ l e. w.3 l (inside l e)) (λ l e. IsTrail.holds t l (inside l e))
          (λ l e. IsTrail.opposites t l ∙ ap opposite (IsTrail.holds t l (inside l e))) in
      let parts =
        sym (length-append (take begin s.trail) (drop begin s.trail))
        ∙ ap length (take-drop begin s.trail) in
      (
        w.0,
        omega (arith, w.1, more, parts, reverse_aux-length (drop begin s.trail) []),
        w.2,
        λ l e. w.3 l (take-Entry begin s.trail l e),
      )

  pub back-IsPropagating : IsPropagating original (take begin done) [] back
  back-IsPropagating = record {
    trail = back-IsTrail;
    watched = IsPropagating.watched h;
    settled = back-Settled;
    reasoned = back-IsReasoned;
    within = back-Within;
  }

  pub back-place : length done ≤ s.propagated → back.propagated ≡ length (take begin done)
  back-place at =
      let long = length-take begin done begin_le in
      let less = begin_le in
      elim (Bool-cases (ltb begin s.propagated)) [
        | inl e ↦ rw (e) (sym long)
        | inr e ↦
            rw (e) (let n : s.propagated ≤ begin = ground arith in omega (arith, n, long, less, at))
      ]

  -- A literal that was false still is on a low level, and is open on a high one.
  pub back-low :
      (x : Literal)
      → s.values x.raw ≡ falsified
      → s.levels (variable_of x) ≤ target
      → after x.raw ≡ falsified
  back-low x down low =
      let t = IsPropagating.trail h in
      elim (take-or_drop begin s.trail (negated x) (Entry-of_false s t x down)) [
        | inl e ↦ keeps (negated x) e x (sym (variable_of-negated x)) ∙ down
        | inr e ↦
            let high =
              subst (λ (v : Variable). target < s.levels v) (variable_of-negated x)
                (IsCut.high cut (negated x) e) in
            absurd (omega (arith, high, low))
      ]

  pub back-high :
      (x : Literal)
      → s.values x.raw ≡ falsified
      → target < s.levels (variable_of x)
      → after x.raw ≡ unassigned
  back-high x down high =
      let t = IsPropagating.trail h in
      elim (take-or_drop begin s.trail (negated x) (Entry-of_false s t x down)) [
        | inr e ↦
            unassign_clears undone x (negated x) s.values
              (Entry-reverse_aux (drop begin s.trail) [] (negated x) (inl e))
              (sym (variable_of-negated x))
        | inl e ↦
            let low =
              subst (λ (v : Variable). s.levels v ≤ target) (variable_of-negated x)
                (IsCut.low cut (negated x) e) in
            absurd (omega (arith, high, low))
      ]

-- ===== src/SolverCore/Assigned.antt =====
-- An assignment keeps the tables and the trail in agreement
-- (source/library/inc/kmx/sat/cdcl/solver_core.hpp, `assign`).
use kmx_sat.Base.{
  ℕ, ◌<◌, ◌≡◌, refl, sym, ap, subst, ◌∙◌, inl, inr, false, Option, List, [], ◌∷◌, ◌++◌,
  append_assoc, arith, ◌==◌, Bool-cases, length, length-append, drop, put, Entry, here,
  Entry-single, Entry-append, Entry-append_left, Entry-append_right,
}
use kmx_sat.Literal.{Literal, variable_of, negated}
use kmx_sat.Literal.Encoding.{variable_of-negated, negated-negated}
use kmx_sat.SolverCore.Cut.{flipped, take-append, drop-append, take-Entry, drop-Entry}
use kmx_sat.SolverCore.{falsified, unassigned, satisfied, SolverCore, value_of, opposite, assign}
use kmx_sat.Analyzer.Marking.{Distinct-push}
use kmx_sat.SolverCore.Trail.{
  view, IsCut, IsTrail, opposite-satisfied, same_variable, put_self, put_other,
  value_of-assign_self, value_of-assign-negated, value_of-assign_other, assign-value,
  get_elem?-append, get_elem?-length,
}

module _ {H : Type 0} {done queue : List Literal} (s : SolverCore H)
    (ok : IsTrail done queue (view s)) where
  -- An assigned literal has another variable than an open one.
  pub assigned_other :
      (l k : Literal)
      → value_of s l ≡ unassigned
      → value_of s k ≡ satisfied
      → (variable_of k == variable_of l) ≡ false
  assigned_other l k free h = elim (Bool-cases (variable_of k == variable_of l)) [
    | inr n ↦ n
    | inl e ↦ elim (same_variable k l (ground arith)) [
      | inl same ↦ absurd (cc (ap (value_of s) same, free, h))
      | inr flip ↦
          let twin : value_of s k ≡ opposite (value_of s l) = rw flip (IsTrail.opposites ok l) in
          let none_yet : opposite (value_of s l) ≡ unassigned = rw free refl in
          absurd (cc (twin, none_yet, h))
    ]
  ]

  pub false_of_Entry : (k : Literal) → Entry (negated k) s.trail → value_of s k ≡ falsified
  false_of_Entry k e =
      opposite-satisfied (value_of s k)
        (sym (IsTrail.opposites ok k) ∙ IsTrail.holds ok (negated k) e)

  pub Entry-of_false : (k : Literal) → value_of s k ≡ falsified → Entry (negated k) s.trail
  Entry-of_false k h = IsTrail.listed ok (negated k) (IsTrail.opposites ok k ∙ ap opposite h)

  assign-opposites :
      (l : Literal) (reason : Option ℕ) (k : Literal)
      → value_of (assign s l reason) (negated k) ≡ opposite (value_of (assign s l reason) k)
  assign-opposites l reason k = elim (Bool-cases (variable_of k == variable_of l)) [
    | inr n ↦
        let m : (variable_of (negated k) == variable_of l) ≡ false = rw (variable_of-negated k) n in
        rw (value_of-assign_other s l reason k n, value_of-assign_other s l reason (negated k) m)
          (IsTrail.opposites ok k)
    | inl e ↦ elim (same_variable k l (ground arith)) [
      | inl same ↦
          rw (same, value_of-assign_self s l reason, value_of-assign-negated s l reason) refl
      | inr flip ↦
          rw
            (
              flip,
              negated-negated l,
              value_of-assign_self s l reason,
              value_of-assign-negated s l reason,
            )
            refl
    ]
  ]

  -- An assignment on the current level keeps the cuts below it.
  assign-IsCut :
      (l : Literal) (reason : Option ℕ) (target begin : ℕ)
      → value_of s l ≡ unassigned
      → target < s.level
      → IsCut (view s) target begin
      → IsCut (view (assign s l reason)) target begin
  unfolding assign
  assign-IsCut l reason target begin free under c =
      let others : (k : Literal)
          → Entry k s.trail
          → put s.levels (variable_of l) s.level (variable_of k) ≡ s.levels (variable_of k) =
        λ k e. put_other s.levels (variable_of l) (variable_of k) s.level (
          flipped (variable_of k) (variable_of l)
            (assigned_other l k free (IsTrail.holds ok k e))) in
      record {
        inside = omega (arith, IsCut.inside c, length-append s.trail (l ∷ []));
        low = λ k e.
            let old = subst (Entry k) (take-append begin s.trail (l ∷ []) (IsCut.inside c)) e in
            rw (others k (take-Entry begin s.trail k old)) (IsCut.low c k old);
        high = λ k e.
            elim (Entry-append (drop begin s.trail) (l ∷ [])
              (subst (Entry k) (drop-append begin s.trail (l ∷ []) (IsCut.inside c)) e)) [
                | inl old ↦ rw (others k (drop-Entry begin s.trail k old)) (IsCut.high c k old)
                | inr new ↦ rw (Entry-single new, put_self s.levels (variable_of l) s.level) under
              ];
      }

  pub assign-IsTrail :
      (l : Literal) (reason : Option ℕ)
      → value_of s l ≡ unassigned
      → IsTrail done (queue ++ l ∷ []) (view (assign s l reason))
  unfolding assign
  assign-IsTrail l reason free = record {
    splits =
        ap (λ (x : List Literal). x ++ l ∷ []) (IsTrail.splits ok)
        ∙ append_assoc done queue (l ∷ []);
    opposites = assign-opposites l reason;
    listed = λ k h. elim (assign-value s l reason k h) [
      | inl e ↦ rw e (Entry-append_right s.trail here)
      | inr old ↦ Entry-append_left _ (IsTrail.listed ok k old)
    ];
    holds = λ k e. elim (Entry-append s.trail (l ∷ []) e) [
      | inl old ↦
          let h = IsTrail.holds ok k old in
          value_of-assign_other s l reason k (assigned_other l k free h) ∙ h
      | inr new ↦ rw (Entry-single new) (value_of-assign_self s l reason)
    ];
    bounded = λ k e. elim (Entry-append s.trail (l ∷ []) e) [
      | inl old ↦
          let n = assigned_other l k free (IsTrail.holds ok k old) in
          let b = IsTrail.bounded ok k old in ground arith
      | inr new ↦ rw (Entry-single new) (ground arith)
    ];
    recent = λ k e. elim (Entry-append queue (l ∷ []) e) [
      | inl old ↦
          let inside : Entry k s.trail =
            subst (Entry k) (sym (IsTrail.splits ok)) (Entry-append_right done old) in
          let n = assigned_other l k free (IsTrail.holds ok k inside) in
          let b = IsTrail.recent ok k old in ground arith
      | inr new ↦ rw (Entry-single new) (ground arith)
    ];
    placed = λ k e. elim (Entry-append s.trail (l ∷ []) e) [
      | inl old ↦
          let n = assigned_other l k free (IsTrail.holds ok k old) in
          let b = get_elem?-append s.trail (l ∷ []) _ (IsTrail.placed ok k old) in ground (arith, b)
      | inr new ↦
          rw (Entry-single new, put_self s.trail_positions (variable_of l) (length s.trail))
            (get_elem?-length l s.trail)
    ];
    distinct =
        Distinct-push l s.trail (IsTrail.distinct ok)
          (λ k e. assigned_other l k free (IsTrail.holds ok k e));
    frames = IsTrail.frames ok;
    cuts = λ target under. assign-IsCut l reason target _ free under (IsTrail.cuts ok target under);
  }

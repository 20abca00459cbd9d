-- ===== src/SolverCore/Propagated.antt =====
-- What propagation keeps besides the trail and the watch lists: a clause that a propagated literal
-- watches falsely is satisfied, not later than that literal's level; and the reason of a literal on
-- the trail was unit when it was assigned (source/library/src/kmx/sat/cdcl/solver_core.cpp).
use kmx_sat.Base.{
  ℕ, zero, suc, ◌+◌, ◌≤◌, ◌<◌, ◌≡◌, ◌⊎◌, ◌↔◌, sym, ap, subst, ◌∙◌, inl, inr, true, false, Option,
  some, List, [], ◌∷◌, arith, ◌==◌, if◌then◌else◌, ltb, length, length-append, put, Entry,
  Entry-append, Entry-single,
}
use kmx_sat.Literal.{Variable, Literal, variable_of, negated}
use kmx_sat.Literal.Encoding.{variable_of-negated}
use kmx_sat.SolverCore.{
  Value, unassigned_below, opposite, falsified, unassigned, satisfied, Watch, SolverCore, value_of,
  assign,
}
use kmx_sat.SolverCore.Trail.{
  TrailView, IsTrail, view, value_of-assign_other, put_self, get_elem?-lt,
}
use kmx_sat.SolverCore.Assigned.{assigned_other, Entry-of_false}
use kmx_sat.SolverCore.Rewatch.{put-cases}

-- A literal of the clause is true, on a level not above that of the watched literal.
abbrev pub Below : (ℕ → List Literal) → TrailView → Literal → ℕ → Type 0
Below clauses s k ref =
    (t : Literal) × Entry t (clauses ref)
    × (s.values t.raw ≡ satisfied)
    × (s.levels (variable_of t) ≤ s.levels (variable_of k))

abbrev pub Settled : List Literal → (ℕ → List Literal) → (ℕ → List Watch) → TrailView → Type 0
Settled done clauses watches s =
    (k : Literal) (w : Watch)
    → Entry w (watches k.raw)
    → Entry (negated k) done
    → Below clauses s k w.clause_ref

-- The clause holds the literal, and its other literals were false before.
abbrev pub Forces : (ℕ → List Literal) → TrailView → Literal → ℕ → Type 0
Forces clauses s l ref =
    Entry l (clauses ref)
    × ((x : Literal)
        → Entry x (clauses ref)
        → (x ≡ l)
          ⊎ ((s.values x.raw ≡ falsified)
              × (s.trail_positions (variable_of x) < s.trail_positions (variable_of l))))

abbrev pub IsReasoned : (ℕ → List Literal) → (Variable → Option ℕ) → TrailView → Type 0
IsReasoned clauses reasons s =
    (l : Literal) (ref : ℕ)
    → Entry l s.trail
    → reasons (variable_of l) ≡ some ref
    → Forces clauses s l ref

-- The clauses have the literals that they had originally, whose variables and those of the trail are
-- below a bound, and of the variables below it as many are assigned as the trail is long.
abbrev pub Within : (ℕ → List Literal) → (ℕ → List Literal) → ℕ → TrailView → Type 0
Within original clauses n s =
    ((ref : ℕ) (x : Literal) → Entry x (clauses ref) → variable_of x < n)
    × (length s.trail + unassigned_below s.values n ≡ n)
    × ((ref : ℕ) (x : Literal) → Entry x (clauses ref) ↔ Entry x (original ref))
    × ((l : Literal) → Entry l s.trail → variable_of l < n)

-- A clause written with the same literals keeps all three.
module _ (clauses : ℕ → List Literal) (ref : ℕ) (c : List Literal)
    (into : (x : Literal) → Entry x (clauses ref) → Entry x c) where
  pub put-Entry : (j : ℕ) (x : Literal) → Entry x (clauses j) → Entry x (put clauses ref c j)
  put-Entry j x e =
      put-cases (λ j d. Entry x (clauses j) → Entry x d) clauses ref c (into x) j (λ n e. e) e

  pub put-Below :
      (s : TrailView) (k : Literal) (j : ℕ) → Below clauses s k j → Below (put clauses ref c) s k j
  put-Below s k j (t, e, h, l) = (t, put-Entry j t e, h, l)

  module _ (back : (x : Literal) → Entry x c → Entry x (clauses ref)) where
    put-Entry_back : (j : ℕ) (x : Literal) → Entry x (put clauses ref c j) → Entry x (clauses j)
    put-Entry_back j x e =
        put-cases (λ j d. Entry x d → Entry x (clauses j)) clauses ref c (back x) j (λ n e. e) e

    pub put-IsReasoned :
        (reasons : Variable → Option ℕ) (s : TrailView)
        → IsReasoned clauses reasons s
        → IsReasoned (put clauses ref c) reasons s
    put-IsReasoned reasons s h l j e r =
        let (inside, others) = h l j e r in
        (put-Entry j l inside, λ x e. others x (put-Entry_back j x e))

    pub put-Within :
        (original : ℕ → List Literal) (n : ℕ) (s : TrailView)
        → Within original clauses n s
        → Within original (put clauses ref c) n s
    put-Within original n s h = (
      λ j x e. h.0 j x (put-Entry_back j x e),
      h.1,
      λ j x. (λ e. (h.2 j x).0 (put-Entry_back j x e), λ e. put-Entry j x ((h.2 j x).1 e)),
      h.3,
    )

-- An assignment closes one variable.
unassigned_below-write :
    (values : ℕ → Value) (l : Literal) (n : ℕ)
    → values l.raw ≡ unassigned
    → values (negated l).raw ≡ unassigned
    → unassigned_below values n
      ≡ unassigned_below (put (put values l.raw satisfied) (negated l).raw falsified) n
        + (if ltb (variable_of l) n then 1 else 0)
unfolding unassigned_below variable_of negated
unassigned_below-write values l zero h g = ground arith
unassigned_below-write values l (suc n) h g = ground (arith, unassigned_below-write values l n h g)

module _ {H : Type 0} {done queue : List Literal} (s : SolverCore H)
    (ok : IsTrail done queue (view s)) (l : Literal) (free : value_of s l ≡ unassigned)
    (reason : Option ℕ) where
  false_other : (k : Literal) → value_of s k ≡ falsified → (variable_of k == variable_of l) ≡ false
  false_other k h =
      let up = IsTrail.holds ok (negated k) (Entry-of_false s ok k h) in
      rw (sym (variable_of-negated k)) (assigned_other s ok l (negated k) free up)

  -- An assignment changes nothing of an assigned variable.
  kept_apart :
      (k : Literal)
      → (variable_of k == variable_of l) ≡ false
      → (value_of (assign s l reason) k ≡ value_of s k)
        × ((assign s l reason).levels (variable_of k) ≡ s.levels (variable_of k))
        × ((assign s l reason).trail_positions (variable_of k) ≡ s.trail_positions (variable_of k))
        × ((assign s l reason).reasons (variable_of k) ≡ s.reasons (variable_of k))
  unfolding assign
  kept_apart k n = (value_of-assign_other s l reason k n, ground arith, ground arith, ground arith)

  pub assign-Below :
      (clauses : ℕ → List Literal) (k : Literal) (ref : ℕ)
      → value_of s k ≡ falsified
      → Below clauses (view s) k ref
      → Below clauses (view (assign s l reason)) k ref
  assign-Below clauses k ref h (t, e, up, low) =
      let at_t = kept_apart t (assigned_other s ok l t free up) in
      let at_k = kept_apart k (false_other k h) in (t, e, at_t.0 ∙ up, rw (at_t.1, at_k.1) low)

  pub assign-false :
      (k : Literal) → value_of s k ≡ falsified → value_of (assign s l reason) k ≡ falsified
  assign-false k h = (kept_apart k (false_other k h)).0 ∙ h

  -- A literal that was false stands before the one that is assigned.
  earlier :
      (k : Literal) → value_of s k ≡ falsified → s.trail_positions (variable_of k) < length s.trail
  earlier k h =
      let place = IsTrail.placed ok (negated k) (Entry-of_false s ok k h) in
      rw (sym (variable_of-negated k)) (get_elem?-lt s.trail _ place)

  pub assign-IsReasoned :
      (clauses : ℕ → List Literal)
      → IsReasoned clauses s.reasons (view s)
      → ((ref : ℕ)
          → reason ≡ some ref
          → Entry l (clauses ref)
            × ((x : Literal) → Entry x (clauses ref) → (x ≡ l) ⊎ (value_of s x ≡ falsified)))
      → IsReasoned clauses (assign s l reason).reasons (view (assign s l reason))
  unfolding assign
  assign-IsReasoned clauses h unit k ref e r = elim (Entry-append s.trail (l ∷ []) e) [
    | inl old ↦
        let n = assigned_other s ok l k free (IsTrail.holds ok k old) in
        let at_k = kept_apart k n in
        let (inside, others) = h k ref old (sym at_k.3 ∙ r) in
        (
          inside,
          λ x m. elim (others x m) [
            | inl same ↦ inl same
            | inr (f, before) ↦
                let at_x = kept_apart x (false_other x f) in
                inr (assign-false x f, rw (at_x.2, at_k.2) before)
          ],
        )
    | inr new ↦
        let same = Entry-single new in
        let written : reason ≡ some ref =
          sym (put_self s.reasons (variable_of l) reason)
          ∙ ap (λ (x : Literal). put s.reasons (variable_of l) reason (variable_of x)) (sym same)
          ∙ r in
        let (inside, others) = unit ref written in
        (
          subst (λ (x : Literal). Entry x (clauses ref)) (sym same) inside,
          λ x m. elim (others x m) [
            | inl at ↦ inl (at ∙ sym same)
            | inr f ↦
                let at_x = kept_apart x (false_other x f) in
                let here_now = put_self s.trail_positions (variable_of l) (length s.trail) in
                inr (assign-false x f, rw (at_x.2, same, here_now) (earlier x f))
          ],
        )
  ]

  pub assign-Within :
      (original clauses : ℕ → List Literal) (n : ℕ)
      → variable_of l < n
      → Within original clauses n (view s)
      → Within original clauses n (view (assign s l reason))
  unfolding assign
  assign-Within original clauses n low h =
      let twin : value_of s (negated l) ≡ unassigned = IsTrail.opposites ok l ∙ ap opposite free in
      let step = unassigned_below-write s.values l n free twin in
      let test : ltb (variable_of l) n ≡ true = ground arith in
      (
        h.0,
        ground (arith, step, test, h.1, length-append s.trail (l ∷ [])),
        h.2,
        λ k e. elim (Entry-append s.trail (l ∷ []) e) [
          | inl old ↦ h.3 k old
          | inr new ↦ rw (Entry-single new) low
        ],
      )

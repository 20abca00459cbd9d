-- ===== src/SolverCore/Fixpoint.antt =====
-- What a state in which propagation came to an end says of the clauses
-- (source/library/src/kmx/sat/cdcl/solver_core.cpp, `propagate`).
use kmx_sat.Base.{
  ℕ, zero, suc, ◌<◌, ◌≡◌, ◌⊎◌, refl, subst, inl, inr, true, false, Option, none, some, List, [],
  ◌∷◌, arith, Bool-cases, Option-cases, length, Entry,
}
use kmx_sat.Literal.{Literal, variable_of, negated}
use kmx_sat.Literal.Encoding.{variable_of-negated}
use kmx_sat.Literal.Meaning.{
  Assignment, literal_true, clause_true, literal_true-negated, Entry-of_clause_true,
}
use kmx_sat.SolverCore.{satisfied, is_falsified, Watch, SolverCore, value_of, propagate}
use kmx_sat.SolverCore.Assigned.{Entry-of_false}
use kmx_sat.SolverCore.Watching.{IsWatched}
use kmx_sat.SolverCore.Visiting.{value-false}
use kmx_sat.SolverCore.Scan.{IsPropagating}
use kmx_sat.SolverCore.Propagation.{Propagated, propagate-Propagated}

-- A literal of the clause is true, or neither of its first two is false.
abbrev pub Attended : {H : Type 0} → SolverCore H → ℕ → Literal → Literal → Type 0
Attended s ref a b =
    ((t : Literal) × Entry t (s.clauses ref) × (value_of s t ≡ satisfied))
    ⊎ ((is_falsified (value_of s a) ≡ false) × (is_falsified (value_of s b) ≡ false))

module _ {H : Type 0} (original : ℕ → List Literal) where
  settled_clause :
      (s : SolverCore H)
      → IsPropagating original s.trail [] s
      → (ref : ℕ) (a b : Literal) (cs : List Literal) → s.clauses ref ≡ a ∷ b ∷ cs
      → Attended s ref a b
  settled_clause s h ref a b cs e =
      let watched = IsPropagating.watched h in
      let from_watch : (k : Literal)
          → is_falsified (value_of s k) ≡ true
          → (w : Watch) × Entry w (s.watches k.raw) × (w.clause_ref ≡ ref)
          → Attended s ref a b =
        λ k low (w, m, at).
          let gone = Entry-of_false s (IsPropagating.trail h) k (value-false (value_of s k) low) in
          let (t, inside, up, below) = IsPropagating.settled h k w m gone in
          inl (t, subst (λ (r : ℕ). Entry t (s.clauses r)) at inside, up) in
      elim (Bool-cases (is_falsified (value_of s a))) [
        | inl low ↦ from_watch a low (IsWatched.first watched ref a b cs e)
        | inr high_a ↦ elim (Bool-cases (is_falsified (value_of s b))) [
          | inl low ↦ from_watch b low (IsWatched.second watched ref a b cs e)
          | inr high_b ↦ inr (high_a, high_b)
        ]
      ]

  Attended-of_quiet :
      (r : SolverCore H × Option ℕ)
      → Propagated original r
      → r.1 ≡ none
      → (ref : ℕ) (a b : Literal) (cs : List Literal) → r.0.clauses ref ≡ a ∷ b ∷ cs
      → Attended r.0 ref a b
  Attended-of_quiet (s, none) (at, h) e = settled_clause s h
  Attended-of_quiet (s, some c) h e = cc

  -- When propagation reports no conflict, from a state in which trail, tables, watch lists, reasons
  -- and clauses agree, no clause with two literals or more is unit or falsified: one of its literals
  -- is true, or neither of its first two literals is false.
  pub propagate-Attended :
      (done queue : List Literal) (s : SolverCore H)
      → IsPropagating original done queue s
      → s.propagated ≡ length done
      → (propagate s).1 ≡ none
      → (ref : ℕ) (a b : Literal) (cs : List Literal) → (propagate s).0.clauses ref ≡ a ∷ b ∷ cs
      → Attended (propagate s).0 ref a b
  propagate-Attended done queue s h at e =
      Attended-of_quiet (propagate s) (propagate-Propagated original done queue s h at) e

-- An assignment that satisfies the clauses.
abbrev pub Satisfies : Assignment → (ℕ → List Literal) → Type 0
Satisfies m clauses =
    (ref : ℕ) (x : Literal) → Entry x (clauses ref) → clause_true m (clauses ref) ≡ true

-- The literals of the trail without a reason, the decisions and the assumptions.
abbrev pub Decided : {H : Type 0} → Assignment → SolverCore H → Type 0
Decided m s =
    (l : Literal) → Entry l s.trail → s.reasons (variable_of l) ≡ none → literal_true m l ≡ true

module _ {H : Type 0} (original : ℕ → List Literal) (m : Assignment)
    (model : Satisfies m original) where
  -- Of a clause, a literal is true.
  true_entry :
      {done queue : List Literal} (s : SolverCore H)
      → IsPropagating original done queue s
      → (ref : ℕ) (x : Literal) → Entry x (s.clauses ref)
      → (t : Literal) × Entry t (s.clauses ref) × (literal_true m t ≡ true)
  true_entry s h ref x e =
      let same = (IsPropagating.within h).2 ref in
      let (t, inside, up) = Entry-of_clause_true m (original ref) (model ref x ((same x).0 e)) in
      (t, (same t).1 inside, up)

  entailed_below :
      {done queue : List Literal} (s : SolverCore H)
      → IsPropagating original done queue s
      → Decided m s
      → (n : ℕ) (l : Literal) → Entry l s.trail
      → s.trail_positions (variable_of l) < n
      → literal_true m l ≡ true
  entailed_below s h decided zero l e low = absurd (omega (arith, low))
  entailed_below s h decided (suc n) l e low = elim (Option-cases (s.reasons (variable_of l))) [
    | inl r ↦ decided l e r
    | inr (ref, r) ↦
        let (inside, others) = IsPropagating.reasoned h l ref e r in
        let (t, at, up) = true_entry s h ref l inside in
        elim (others t at) [
          | inl same ↦ subst (λ (x : Literal). literal_true m x ≡ true) same up
          | inr (down, before) ↦
              let twin = Entry-of_false s (IsPropagating.trail h) t down in
              let earlier : s.trail_positions (variable_of (negated t)) < n =
                rw (variable_of-negated t) (omega (arith, before, low)) in
              let flipped = entailed_below s h decided n (negated t) twin earlier in
              absurd (cc (literal_true-negated m t, flipped, up))
        ]
  ]

  entailed :
      {done queue : List Literal} (s : SolverCore H)
      → IsPropagating original done queue s
      → Decided m s
      → (l : Literal) → Entry l s.trail
      → literal_true m l ≡ true
  entailed s h decided l e =
      entailed_below s h decided (suc (s.trail_positions (variable_of l))) l e (omega arith)

  entailed_of :
      (r : SolverCore H × Option ℕ)
      → Propagated original r
      → Decided m r.0
      → (r.1 ≡ none) × ((l : Literal) → Entry l r.0.trail → literal_true m l ≡ true)
  entailed_of (s, none) (at, h) decided = (refl, entailed s h decided)
  entailed_of (s, some ref) (done, queue, h, at, ((x, inside), low)) decided =
      let (t, e, up) = true_entry s h ref x inside in
      let twin = Entry-of_false s (IsPropagating.trail h) t (low t e) in
      let flipped = entailed s h decided (negated t) twin in
      absurd (cc (literal_true-negated m t, flipped, up))

  -- From a state in which trail, tables, watch lists, reasons and clauses agree, an assignment that
  -- satisfies all the clauses and makes true all literals of the resulting trail without a reason
  -- makes true the whole of that trail, and propagation reports no conflict: what it derives follows
  -- from the clauses and the decisions, and so does a conflict that it reports.
  pub propagate-Entailed :
      (done queue : List Literal) (s : SolverCore H)
      → IsPropagating original done queue s
      → s.propagated ≡ length done
      → Decided m (propagate s).0
      → ((propagate s).1 ≡ none)
        × ((l : Literal) → Entry l (propagate s).0.trail → literal_true m l ≡ true)
  propagate-Entailed done queue s h at decided =
      entailed_of (propagate s) (propagate-Propagated original done queue s h at) decided

-- ===== src/SolverCore/Propagation.antt =====
-- Unit propagation: `propagate` (source/library/src/kmx/sat/cdcl/solver_core.cpp).
use kmx_sat.Base.{
  ℕ, zero, suc, ◌+◌, ◌≤◌, ◌≡◌, refl, sym, ap, subst, ◌∙◌, inl, inr, Option, none, some, List, [],
  ◌∷◌, ◌++◌, append-nil, arith, Option-cases, length, length-append, get_elem?,
}
use kmx_sat.Literal.{Literal}
use kmx_sat.SolverCore.{SolverCore, propagate_literal, propagate_loop, propagate, turns_of}
use kmx_sat.Propagator
use kmx_sat.SolverCore.Trail.{IsTrail}
use kmx_sat.SolverCore.Scan.{IsPropagating}
use kmx_sat.SolverCore.Turn.{Turn, propagate_literal-Turn}
use kmx_sat.SolverCore.Visiting.{AllFalse}
use kmx_sat.SolverCore.Frozen.{propagate_literal-place}

-- All of the trail is propagated, or a clause is falsified and the list of one literal was left.
abbrev pub Propagated : {H : Type 0} → (ℕ → List Literal) → SolverCore H × Option ℕ → Type 0
Propagated original (t, none) =
    (t.propagated ≡ length t.trail) × IsPropagating original t.trail [] t
Propagated original (t, some ref) =
    (done queue : List Literal) × IsPropagating original done queue t
    × (t.propagated ≡ suc (length done))
    × AllFalse t ref

get_elem?-none :
    (done queue : List Literal) → get_elem? (done ++ queue) (length done) ≡ none → queue ≡ []
get_elem?-none [] [] h = refl
get_elem?-none [] (x ∷ queue) h = cc
get_elem?-none (x ∷ done) queue h = get_elem?-none done queue h

get_elem?-some :
    (done queue : List Literal) (l : Literal)
    → get_elem? (done ++ queue) (length done) ≡ some l
    → (tail : List Literal) × (queue ≡ l ∷ tail)
get_elem?-some [] [] l h = cc
get_elem?-some [] (x ∷ queue) l h = (queue, cc h)
get_elem?-some (x ∷ done) queue l h = get_elem?-some done queue l h

finished :
    {H : Type 0} (original : ℕ → List Literal) (done queue : List Literal) (s : SolverCore H)
    → queue ≡ []
    → IsPropagating original done queue s
    → s.propagated ≡ length done
    → Propagated original (s, none)
finished original done queue s e h at =
    let all : s.trail ≡ done =
      IsTrail.splits (IsPropagating.trail h)
      ∙ ap (λ (q : List Literal). done ++ q) e
      ∙ append-nil done in
    (
      at ∙ ap length (sym all),
      subst (λ (d : List Literal). IsPropagating original d [] s) (sym all)
          (subst (λ (q : List Literal). IsPropagating original done q s) e h),
    )

nil_of_length : (q : List Literal) → length q ≡ 0 → q ≡ []
nil_of_length [] h = refl
nil_of_length (x ∷ q) h = absurd (omega (arith, h))

module _ {H : Type 0} (original : ℕ → List Literal) (done tail : List Literal) (lit : Literal)
    (turns n : ℕ) where
  -- The rest of the loop, after a turn.
  next-Propagated :
      (r : SolverCore H × Option ℕ)
      → Turn original done tail lit r
      → r.0.propagated ≡ suc (length done)
      → r.0.variable_count ≡ n
      → ((queue : List Literal)
          → IsPropagating original (done ++ lit ∷ []) queue r.0
          → r.0.propagated ≡ length (done ++ lit ∷ [])
          → r.0.variable_count + 1 ≤ turns + length (done ++ lit ∷ [])
          → Propagated original (propagate_loop turns r.0))
      → n + 1 ≤ suc turns + length done
      → Propagated {H = H} original
          (elim r.1 [ some ref ↦ (r.0, some ref) | none ↦ propagate_loop turns r.0 ])
  next-Propagated (t, some ref) (more, h, f) at same rest enough =
      (done, (lit ∷ tail ++ more), h, at, f)
  next-Propagated (t, none) (more, h) at same rest enough =
      let longer = length-append done (lit ∷ []) in
      rest (tail ++ more) h (omega (arith, at, longer)) (omega (arith, enough, same, longer))

-- The counters and the propagator's bookkeeping are no part of it.
counted :
    {H : Type 0} (original : ℕ → List Literal) (r : SolverCore H × Option ℕ) (n : ℕ)
    → Propagated original r
    → Propagated original (record r.0 { propagation_assignment_count = n }, r.1)
counted original (t, none) n (at, h) = (
  at,
  record {
    trail = IsPropagating.trail h;
    watched = IsPropagating.watched h;
    settled = IsPropagating.settled h;
    reasoned = IsPropagating.reasoned h;
    within = IsPropagating.within h;
  },
)
counted original (t, some ref) n (done, queue, h, at, f) = (
  done,
  queue,
  record {
    trail = IsPropagating.trail h;
    watched = IsPropagating.watched h;
    settled = IsPropagating.settled h;
    reasoned = IsPropagating.reasoned h;
    within = IsPropagating.within h;
  },
  at,
  f,
)

module _ {H : Type 0} (original : ℕ → List Literal) where
  pub propagate_loop-Propagated :
      (turns : ℕ) (done queue : List Literal) (s : SolverCore H)
      → IsPropagating original done queue s
      → s.propagated ≡ length done
      → s.variable_count + 1 ≤ turns + length done
      → Propagated original (propagate_loop turns s)
  unfolding propagate_loop
  propagate_loop-Propagated zero done queue s h at enough =
      let long = ap length (IsTrail.splits (IsPropagating.trail h)) in
      let short : length queue ≡ 0 =
        omega (arith, enough, long, length-append done queue, (IsPropagating.within h).1) in
      finished original done queue s (nil_of_length queue short) h at
  propagate_loop-Propagated (suc turns) done queue s h at enough =
      let split = IsTrail.splits (IsPropagating.trail h) in
      elim (Option-cases (get_elem? s.trail s.propagated)) [
        | inl e ↦
            let gone = get_elem?-none done queue (
              subst (λ (q : List Literal). get_elem? q (length done) ≡ none) split
                (subst (λ (i : ℕ). get_elem? s.trail i ≡ none) at e)) in
            rw (e, propagate_loop) (finished original done queue s gone h at)
        | inr (lit, e) ↦
            let (tail, front) = get_elem?-some done queue lit (
              subst (λ (q : List Literal). get_elem? q (length done) ≡ some lit) split
                (subst (λ (i : ℕ). get_elem? s.trail i ≡ some lit) at e)) in
            let place = propagate_literal-place s lit in
            let turn =
              propagate_literal-Turn original done tail lit s
                (subst (λ (q : List Literal). IsPropagating original done q s) front h) in
            let moved_on : (propagate_literal s lit).0.propagated ≡ suc (length done) =
              omega (arith, place.0, at) in
            rw (e, propagate_loop)
              (next-Propagated original done tail lit turns s.variable_count
                (propagate_literal s lit) turn moved_on place.1
                (λ q g at enough.
                  propagate_loop-Propagated turns (done ++ lit ∷ []) q _ g at enough)
                enough)
      ]

  -- Unit propagation comes to an end within its turns, from every state in which trail, tables, watch
  -- lists, reasons and clauses agree (`IsPropagating`) and `propagated` is the length of the propagated
  -- part: either all of the trail is propagated, or a clause is reported and all its literals are
  -- false. Trail, tables, watch lists, reasons and clauses agree again, and each clause has the
  -- literals that it had.
  pub propagate-Propagated :
      (done queue : List Literal) (s : SolverCore H)
      → IsPropagating original done queue s
      → s.propagated ≡ length done
      → Propagated original (propagate s)
  unfolding propagate
  propagate-Propagated done queue s h at =
      let ready : SolverCore H = record s { propagator = (Propagator.propagate s.propagator).1 } in
      let ready_ok : IsPropagating original done queue ready = record {
        trail = IsPropagating.trail h;
        watched = IsPropagating.watched h;
        settled = IsPropagating.settled h;
        reasoned = IsPropagating.reasoned h;
        within = IsPropagating.within h;
      } in
      let long = ap length (IsTrail.splits (IsPropagating.trail h)) in
      counted original _ _ (
        propagate_loop-Propagated (turns_of ready) done queue ready ready_ok at
          (omega (arith, at, long, length-append done queue, (IsPropagating.within h).1)))

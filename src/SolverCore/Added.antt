-- ===== src/SolverCore/Added.antt =====
-- A clause that is added under a fresh reference, attached, and whose first literal is asserted
-- (source/library/src/kmx/sat/cdcl/solver_core.cpp, `learn_clause`).
use kmx_sat.Base.{
  ℕ, ◌+◌, ◌<◌, ◌≡◌, ◌⊎◌, ◌↔◌, sym, ap, subst, ◌∙◌, inl, inr, false, some, List, [], ◌∷◌, arith,
  ◌==◌, Bool-cases, put, Entry, here, Entry-inv, Entry-append_left,
}
use kmx_sat.Literal.{Literal, variable_of, negated}
use kmx_sat.SolverCore.{falsified, unassigned, Watch, SolverCore, value_of, assign}
use kmx_sat.SolverCore.Trail.{IsTrail, view, put_self, put_other, value_of-assign_self}
use kmx_sat.SolverCore.Assigned.{false_of_Entry, assign-IsTrail}
use kmx_sat.SolverCore.Watching.{IsWatch, IsWatched, Watches}
use kmx_sat.SolverCore.Rewatch.{put-cases}
use kmx_sat.SolverCore.Propagated.{
  Below, Settled, IsReasoned, Within, assign-Below, assign-IsReasoned, assign-Within,
}
use kmx_sat.SolverCore.Scan.{IsPropagating}
use kmx_sat.SolverCore.Attach.{IsAttached}

module _ (clauses : ℕ → List Literal) (ref : ℕ) (c : List Literal) (fresh : clauses ref ≡ []) where
  -- A clause with an entry is not the new one.
  pub old_apart : (j : ℕ) (x : Literal) → Entry x (clauses j) → (ref == j) ≡ false
  old_apart j x e = elim (Bool-cases (ref == j)) [
    | inr n ↦ n
    | inl y ↦
        let at : ref ≡ j = ground arith in
        elim (subst (Entry x) (ap clauses (sym at) ∙ fresh) e) [ ]
  ]

  pub old_same : (j : ℕ) (x : Literal) → Entry x (clauses j) → put clauses ref c j ≡ clauses j
  old_same j x e = put_other clauses ref j c (old_apart j x e)

  pub put-IsAttached :
      (watches : ℕ → List Watch)
      → IsWatched clauses watches
      → IsAttached (put clauses ref c) watches (ref ∷ [])
  put-IsAttached watches h = record {
    watch = λ k w e.
        let f = IsWatched.watch h k w e in
        subst (λ (d : List Literal). IsWatch d k w)
          (sym (old_same w.clause_ref _ (IsWatch.blocks f))) f;
    once = IsWatched.once h;
    apart = λ k w e. (old_apart w.clause_ref _ (IsWatch.blocks (IsWatched.watch h k w e)), tt);
    first = λ j a b cs e.
        put-cases (λ j d. d ≡ a ∷ b ∷ cs → Watches (watches a.raw) j ⊎ Entry j (ref ∷ [])) clauses
          ref c (λ e. inr here) j (λ n e. inl (IsWatched.first h j a b cs e)) e;
    second = λ j a b cs e.
        put-cases (λ j d. d ≡ a ∷ b ∷ cs → Watches (watches b.raw) j ⊎ Entry j (ref ∷ [])) clauses
          ref c (λ e. inr here) j (λ n e. inl (IsWatched.second h j a b cs e)) e;
  }

-- The state with the clause added and its lists and units written, before its first literal is
-- asserted.
abbrev pub added :
    {H : Type 0} → SolverCore H → ℕ → List Literal → (ℕ → List Watch) → List ℕ → SolverCore H
added t ref c lists units = record t {
  clauses = put t.clauses ref c;
  watches = lists;
  unit_clause_refs = units;
}

module _ {H : Type 0} (original : ℕ → List Literal) (done : List Literal) (t : SolverCore H)
    (ref : ℕ) (u : Literal) (rest : List Literal) (lists : ℕ → List Watch) (units : List ℕ)
    (h : IsPropagating original done [] t) (fresh : t.clauses ref ≡ [])
    (free : value_of t u ≡ unassigned)
    (low : (x : Literal) → Entry x rest → value_of t x ≡ falsified)
    (inside : (x : Literal) → Entry x (u ∷ rest) → variable_of x < t.variable_count + 1)
    (watched : IsWatched (put t.clauses ref (u ∷ rest)) lists)
    (entries : (k : Literal) (w : Watch)
      → Entry w (lists k.raw)
      → Entry w (t.watches k.raw)
        ⊎ ((w.clause_ref ≡ ref) × ((k ≡ u) ⊎ (t.levels (variable_of k) ≡ t.level)))) where
  at_ref : put t.clauses ref (u ∷ rest) ref ≡ u ∷ rest
  at_ref = put_self t.clauses ref (u ∷ rest)

  new-Below :
      (k : Literal)
      → t.levels (variable_of k) ≡ t.level
      → Below (put t.clauses ref (u ∷ rest)) (view (assign t u (some ref))) k ref
  unfolding assign
  new-Below k same =
      (u, subst (Entry u) (sym at_ref) here, value_of-assign_self t u (some ref), ground arith)

  added-Settled : Settled done (put t.clauses ref (u ∷ rest)) lists (view (assign t u (some ref)))
  added-Settled k w e d =
      let listed =
        subst (Entry (negated k)) (sym (IsTrail.splits (IsPropagating.trail h)))
          (Entry-append_left [] d) in
      let down = false_of_Entry t (IsPropagating.trail h) k listed in
      elim (entries k w e) [
        | inl old ↦
            let (x, m, up, le) = IsPropagating.settled h k w old d in
            let same = old_same t.clauses ref (u ∷ rest) fresh w.clause_ref x m in
            assign-Below t (IsPropagating.trail h) u free (some ref) (put t.clauses ref (u ∷ rest))
              k w.clause_ref down (x, subst (Entry x) (sym same) m, up, le)
        | inr (at, which) ↦ elim which [
          | inl same ↦
              absurd (cc (subst (λ (x : Literal). value_of t x ≡ falsified) same down, free))
          | inr same ↦
              subst
                (λ (j : ℕ). Below (put t.clauses ref (u ∷ rest)) (view (assign t u (some ref))) k j)
                (sym at) (new-Below k same)
        ]
      ]

  added-IsReasoned : IsReasoned (put t.clauses ref (u ∷ rest)) t.reasons (view t)
  added-IsReasoned l j e r =
      let (m, others) = IsPropagating.reasoned h l j e r in
      let same = old_same t.clauses ref (u ∷ rest) fresh j l m in
      (subst (Entry l) (sym same) m, λ x n. others x (subst (Entry x) same n))

  added-Within :
      Within
        (put original ref (u ∷ rest))
        (put t.clauses ref (u ∷ rest))
        (t.variable_count + 1)
        (view t)
  added-Within =
      let w = IsPropagating.within h in
      (
        λ j x e.
            put-cases (λ j d. Entry x d → variable_of x < t.variable_count + 1) t.clauses ref
              (u ∷ rest) (inside x) j (λ n e. w.0 j x e) e,
        w.1,
        λ j x. elim (Bool-cases (ref == j)) [
          | inl y ↦
              let at : ref ≡ j = ground arith in
              subst
                (λ (i : ℕ).
                  Entry x (put t.clauses ref (u ∷ rest) i)
                  ↔ Entry x (put original ref (u ∷ rest) i))
                at
                (
                  λ e.
                      subst (Entry x) (sym (put_self original ref (u ∷ rest)))
                        (subst (Entry x) at_ref e),
                  λ e.
                      subst (Entry x) (sym at_ref)
                        (subst (Entry x) (put_self original ref (u ∷ rest)) e),
                )
          | inr n ↦
              let a = put_other t.clauses ref j (u ∷ rest) n in
              let b = put_other original ref j (u ∷ rest) n in
              (
                λ e. subst (Entry x) (sym b) ((w.2 j x).0 (subst (Entry x) a e)),
                λ e. subst (Entry x) (sym a) ((w.2 j x).1 (subst (Entry x) b e)),
              )
        ],
        w.3,
      )

  pub added-IsPropagating :
      IsPropagating
        (put original ref (u ∷ rest))
        done
        (u ∷ [])
        (assign (added t ref (u ∷ rest) lists units) u (some ref))
  unfolding assign
  added-IsPropagating = record {
    trail = assign-IsTrail t (IsPropagating.trail h) u (some ref) free;
    watched = watched;
    settled = added-Settled;
    reasoned =
        assign-IsReasoned t (IsPropagating.trail h) u free (some ref) (put t.clauses ref (u ∷ rest))
          added-IsReasoned
          (λ j e.
            let same : ref ≡ j = cc e in
            let here_now = ap (put t.clauses ref (u ∷ rest)) (sym same) ∙ at_ref in
            (
              subst (Entry u) (sym here_now) here,
              λ x m. elim (Entry-inv (subst (Entry x) here_now m)) [
                | inl first ↦ inl (sym first)
                | inr later ↦ inr (low x later)
              ],
            ));
    within =
        assign-Within t (IsPropagating.trail h) u free (some ref) (put original ref (u ∷ rest))
          (put t.clauses ref (u ∷ rest)) _ (inside u here) added-Within;
  }

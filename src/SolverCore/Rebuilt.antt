-- ===== src/SolverCore/Rebuilt.antt =====
-- The rebuild of the watch lists (source/library/src/kmx/sat/cdcl/solver_core.cpp,
-- `rebuild_propagation_state`).
use kmx_sat.Base.{ℕ, ◌≡◌, ◌≢◌, refl, sym, ap, subst, ◌∙◌, inl, inr, List, [], ◌∷◌, Entry, Entry-inv}
use kmx_sat.Literal.{Literal}
use kmx_sat.Analyzer.Marking.{Distinct}
use kmx_sat.SolverCore.{Watch, SolverCore}
use kmx_sat.SolverCore.Watching.{IsWatched}
use kmx_sat.SolverCore.Setup.{
  push_watch, attach_literals, attach_clause_for_propagation, attach_all, rebuild_propagation_state,
}
use kmx_sat.SolverCore.Attach.{Apart, AllApart, IsAttached, attach_two}

-- A shorter clause is not watched.
attach_none :
    {clauses : ℕ → List Literal} {watches : ℕ → List Watch} {rest : List ℕ} (ref : ℕ)
    → ((a b : Literal) (cs : List Literal) → clauses ref ≢ a ∷ b ∷ cs)
    → IsAttached clauses watches (ref ∷ rest)
    → IsAttached clauses watches rest
attach_none {clauses} ref short h = record {
  watch = IsAttached.watch h;
  once = IsAttached.once h;
  apart = λ k u e. (IsAttached.apart h k u e).1;
  first = λ j a b cs e. elim (IsAttached.first h j a b cs e) [
    | inl w ↦ inl w
    | inr m ↦ elim (Entry-inv m) [
      | inl at ↦ absurd (short a b cs (ap clauses at ∙ e))
      | inr m ↦ inr m
    ]
  ];
  second = λ j a b cs e. elim (IsAttached.second h j a b cs e) [
    | inl w ↦ inl w
    | inr m ↦ elim (Entry-inv m) [
      | inl at ↦ absurd (short a b cs (ap clauses at ∙ e))
      | inr m ↦ inr m
    ]
  ];
}

pub IsWatched-of_IsAttached :
    {clauses : ℕ → List Literal} {watches : ℕ → List Watch}
    → ((ref : ℕ) → Distinct (clauses ref))
    → IsAttached clauses watches []
    → IsWatched clauses watches
IsWatched-of_IsAttached d h = record {
  watch = IsAttached.watch h;
  once = IsAttached.once h;
  first = λ ref a b cs e. elim (IsAttached.first h ref a b cs e) [ inl w ↦ w | inr m ↦ elim m [ ] ];
  second =
      λ ref a b cs e. elim (IsAttached.second h ref a b cs e) [ inl w ↦ w | inr m ↦ elim m [ ] ];
  distinct = d;
}

module _ {H : Type 0} where
  attach_literals-clauses :
      (s : SolverCore H) (ref : ℕ) (c : List Literal)
      → (attach_literals s ref c).clauses ≡ s.clauses
  unfolding attach_literals push_watch
  attach_literals-clauses s ref [] = refl
  attach_literals-clauses s ref (a ∷ []) = refl
  attach_literals-clauses s ref (a ∷ b ∷ cs) = refl

  pub attach_literals-IsAttached :
      (s : SolverCore H) (ref : ℕ) (rest : List ℕ) (c : List Literal)
      → s.clauses ref ≡ c
      → Distinct (s.clauses ref)
      → Apart ref rest
      → IsAttached s.clauses s.watches (ref ∷ rest)
      → IsAttached s.clauses (attach_literals s ref c).watches rest
  unfolding attach_literals push_watch
  attach_literals-IsAttached s ref rest [] e d n h = attach_none ref (λ a b cs f. cc (e, f)) h
  attach_literals-IsAttached s ref rest (a ∷ []) e d n h = attach_none ref (λ x b cs f. cc (e, f)) h
  attach_literals-IsAttached s ref rest (a ∷ b ∷ cs) e d n h = attach_two ref a b cs e d n h

  attach_all-IsAttached :
      (s : SolverCore H) (refs : List ℕ)
      → ((ref : ℕ) → Distinct (s.clauses ref))
      → AllApart refs
      → IsAttached s.clauses s.watches refs
      → IsAttached s.clauses (attach_all s refs).watches []
  unfolding attach_all attach_clause_for_propagation
  attach_all-IsAttached s [] d n h = h
  attach_all-IsAttached s (ref ∷ refs) d n h =
      let c = s.clauses ref in
      let t = attach_literals s ref c in
      let same = attach_literals-clauses s ref c in
      let step = attach_literals-IsAttached s ref refs c refl (d ref) n.0 h in
      let after =
        attach_all-IsAttached t refs
          (λ j. subst (λ (cl : ℕ → List Literal). Distinct (cl j)) (sym same) (d j)) n.1
          (subst (λ (cl : ℕ → List Literal). IsAttached cl t.watches refs) (sym same) step) in
      subst (λ (cl : ℕ → List Literal). IsAttached cl (attach_all t refs).watches []) same after

  -- After the rebuild, every clause of two literals or more is watched by its first two, each watch
  -- list has one watch per clause and each watch is one of a clause, provided that no clause has two
  -- literals over one variable, no reference occurs twice and every clause of two literals or more is
  -- among them.
  pub rebuild_propagation_state-IsWatched :
      (s : SolverCore H) (refs : List ℕ)
      → ((ref : ℕ) → Distinct (s.clauses ref))
      → AllApart refs
      → ((ref : ℕ) (a b : Literal) (cs : List Literal)
          → s.clauses ref ≡ a ∷ b ∷ cs
          → Entry ref refs)
      → IsWatched s.clauses (rebuild_propagation_state s refs).watches
  unfolding rebuild_propagation_state
  rebuild_propagation_state-IsWatched s refs d n all =
      let empty : SolverCore H = record s { watches = λ _. []; unit_clause_refs = [] } in
      let start : IsAttached s.clauses (λ _. []) refs = record {
        watch = λ k w e. elim e [ ];
        once = λ k. tt;
        apart = λ k w e. elim e [ ];
        first = λ ref a b cs e. inr (all ref a b cs e);
        second = λ ref a b cs e. inr (all ref a b cs e);
      } in
      IsWatched-of_IsAttached d (attach_all-IsAttached empty refs d n start)

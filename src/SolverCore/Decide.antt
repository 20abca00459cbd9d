-- ===== src/SolverCore/Decide.antt =====
-- Where propagation starts, decisions, and the model at the end of the search
-- (source/library/src/kmx/sat/cdcl/solver_core.cpp, `run_search` and `build_internal_model`).
use kmx_sat.Base.{
  ℕ, zero, suc, ◌+◌, ◌-◌, ◌*◌, ◌^◌, ◌<◌, ◌≡◌, refl, sym, subst, inl, inr, false, Option, none, some,
  List, [], ◌∷◌, ◌++◌, arith, ◌==◌, Bool-cases, length, length-append, Entry, here,
  Entry-append_left, Entry-append_right,
}
use kmx_sat.Literal.{Literal, literal, variable_of, negated}
use kmx_sat.Analyzer.Marking.{Distinct}
use kmx_sat.SolverCore.{
  Value, falsified, unassigned, satisfied, is_falsified, is_open, opposite, SolverCore, value_of,
  assign, new_level, ControlFrame, trail_begin_of, no_frame, propagate, unassigned_below,
}
use kmx_sat.SolverCore.Trail.{IsTrail, IsCut, view}
use kmx_sat.SolverCore.Assigned.{assign-IsTrail}
use kmx_sat.SolverCore.Cut.{get_or-append, get_or-last, take-Entry, drop-length}
use kmx_sat.SolverCore.Watching.{IsWatched}
use kmx_sat.SolverCore.Propagated.{assign-Below, assign-IsReasoned, assign-Within}
use kmx_sat.SolverCore.Assigned.{false_of_Entry}
use kmx_sat.SolverCore.Scan.{IsPropagating}
use kmx_sat.SolverCore.Propagation.{Propagated, propagate-Propagated}
use kmx_sat.SolverCore.Fixpoint.{Attended, propagate-Attended}
use kmx_sat.SolverCore.Setup.{decide, internal_model, model_below}

unassigned_below-all :
    (values : ℕ → Value) (n : ℕ) → ((i : ℕ) → values i ≡ unassigned) → unassigned_below values n ≡ n
unfolding unassigned_below
unassigned_below-all values zero h = refl
unassigned_below-all values (suc n) h = ground (arith, h (n * 2), unassigned_below-all values n h)

module _ {H : Type 0} where
  -- Before the first assignment.
  pub start-IsPropagating :
      (s : SolverCore H)
      → s.trail ≡ []
      → s.level ≡ 0
      → length s.control ≡ 1
      → ((i : ℕ) → s.values i ≡ unassigned)
      → IsWatched s.clauses s.watches
      → ((ref : ℕ) (x : Literal) → Entry x (s.clauses ref) → variable_of x < s.variable_count + 1)
      → IsPropagating s.clauses [] [] s
  start-IsPropagating s e root one open_all watched low =
      let nothing : (l : Literal) → Entry l s.trail → ⊥ = λ l m. elim (subst (Entry l) e m) [ ] in
      record {
        trail = record {
          splits = e;
          opposites = λ l. rw (open_all l.raw, open_all (negated l).raw) refl;
          listed = λ l h. absurd (cc (open_all l.raw, h));
          holds = λ l m. absurd (nothing l m);
          bounded = λ l m. absurd (nothing l m);
          recent = λ l m. elim m [ ];
          placed = λ l m. absurd (nothing l m);
          distinct = subst Distinct (sym e) tt;
          frames = omega (arith, root, one);
          cuts = λ target under. absurd (omega (arith, root, under));
        };
        watched = watched;
        settled = λ k w m d. elim d [ ];
        reasoned = λ l ref m r. absurd (nothing l m);
        within = (
          low,
          rw (e) (omega (arith, unassigned_below-all s.values (s.variable_count + 1) open_all)),
          λ ref x. (λ m. m, λ m. m),
          λ l m. absurd (nothing l m),
        );
      }

  abbrev frame_of : SolverCore H → Literal → ControlFrame
  frame_of s l = record {
    trail_begin = length s.trail;
    decision = l;
    seen_count = 0;
    seen_min_trail = 0;
  }

  -- The cuts once a level is opened: the frames below, and the new one at the end of the trail.
  raised_cuts :
      (original : ℕ → List Literal) (done : List Literal) (s : SolverCore H) (l : Literal)
      → IsPropagating original done [] s
      → (target : ℕ) → target < s.level + 1
      → IsCut (view (new_level s l)) target (trail_begin_of (s.control ++ frame_of s l ∷ []) target)
  unfolding new_level
  raised_cuts original done s l h target under =
      let t = IsPropagating.trail h in
      elim (Bool-cases (target == s.level)) [
        | inr n ↦
            let below : target < s.level = ground arith in
            let old = IsTrail.cuts t target below in
            let same =
              get_or-append s.control (frame_of s l ∷ []) (target + 1) no_frame
                (omega (arith, IsTrail.frames t, below)) in
            rw (same)
              (record { inside = IsCut.inside old; low = IsCut.low old; high = IsCut.high old })
        | inl e ↦
            let at : target + 1 ≡ length s.control = (let f = IsTrail.frames t in ground arith) in
            let top : target ≡ s.level = ground arith in
            rw (at, get_or-last s.control (frame_of s l) no_frame)
              (record {
                inside = omega arith;
                low =
                    λ k e. rw (top) (IsTrail.bounded t k (take-Entry (length s.trail) s.trail k e));
                high = λ k e. elim (subst (Entry k) (drop-length s.trail) e) [ ];
              })
      ]

  -- A level is opened once the trail is propagated.
  pub new_level-IsPropagating :
      (original : ℕ → List Literal) (done : List Literal) (s : SolverCore H) (l : Literal)
      → IsPropagating original done [] s
      → IsPropagating original done [] (new_level s l)
  unfolding new_level
  new_level-IsPropagating original done s l h =
      let t = IsPropagating.trail h in
      record {
        trail = record {
          splits = IsTrail.splits t;
          opposites = IsTrail.opposites t;
          listed = IsTrail.listed t;
          holds = IsTrail.holds t;
          bounded = λ k e. omega (arith, IsTrail.bounded t k e);
          recent = λ k e. elim e [ ];
          placed = IsTrail.placed t;
          distinct = IsTrail.distinct t;
          frames = omega (arith, IsTrail.frames t, length-append s.control (frame_of s l ∷ []));
          cuts = raised_cuts original done s l h;
        };
        watched = IsPropagating.watched h;
        settled = IsPropagating.settled h;
        reasoned = IsPropagating.reasoned h;
        within = IsPropagating.within h;
      }

  -- A decision over an open variable, once the trail is propagated.
  pub decide-IsPropagating :
      (original : ℕ → List Literal) (done : List Literal) (s : SolverCore H) (l : Literal)
      → IsPropagating original done [] s
      → value_of s l ≡ unassigned
      → variable_of l < s.variable_count + 1
      → IsPropagating original done (l ∷ []) (decide s l)
  unfolding decide new_level assign
  decide-IsPropagating original done s l h free low =
      let raised = new_level-IsPropagating original done s l h in
      let t = IsPropagating.trail raised in
      record {
        trail = assign-IsTrail (new_level s l) t l none free;
        watched = IsPropagating.watched h;
        settled = λ k w m d.
            let gone : Entry (negated k) s.trail =
              subst (Entry (negated k)) (sym (IsTrail.splits t)) (Entry-append_left [] d) in
            assign-Below (new_level s l) t l free none s.clauses k w.clause_ref
              (false_of_Entry (new_level s l) t k gone) (IsPropagating.settled h k w m d);
        reasoned =
            assign-IsReasoned (new_level s l) t l free none s.clauses (IsPropagating.reasoned h)
              (λ ref e. cc e);
        within =
            assign-Within (new_level s l) t l free none original s.clauses _ low
              (IsPropagating.within h);
      }

-- The literal of the model over a variable is the true one.
module _ {H : Type 0} (s : SolverCore H) where
  model_literal :
      (t : Literal)
      → value_of s (negated t) ≡ opposite (value_of s t)
      → value_of s t ≡ satisfied
      → variable_of t < 2 ^ 31
      → literal (variable_of t) (is_falsified (s.values (variable_of t * 2))) ≡ t
  unfolding variable_of negated literal
  model_literal t twin up low = ground arith

  model_below-Entry :
      (v n : ℕ)
      → 0 < v
      → v < n + 1
      → Entry (literal v (is_falsified (s.values (v * 2)))) (model_below s n)
  unfolding model_below
  model_below-Entry v zero p q = absurd (omega arith)
  model_below-Entry v (suc n) p q = elim (Bool-cases (v == suc n)) [
    | inl e ↦
        let at : v ≡ suc n = ground arith in rw (at) (Entry-append_right (model_below s n) here)
    | inr e ↦ Entry-append_left _ (model_below-Entry v n p (ground arith))
  ]

-- Every variable of the clauses is numbered from 1 and assigned.
abbrev pub Complete : {H : Type 0} → SolverCore H → Type 0
Complete t =
    (ref : ℕ) (x : Literal)
    → Entry x (t.clauses ref)
    → (0 < variable_of x) × (is_open (value_of t x) ≡ false)

pub value-closed : (v : Value) → is_falsified v ≡ false → is_open v ≡ false → v ≡ satisfied
value-closed falsified h g = cc
value-closed unassigned h g = cc
value-closed satisfied h g = refl

module _ {H : Type 0} (original : ℕ → List Literal) where
  modelled :
      {done queue : List Literal} (t : SolverCore H)
      → IsPropagating original done queue t
      → Complete t
      → t.variable_count < 2 ^ 31 - 1
      → (ref : ℕ) (a b : Literal) (cs : List Literal) → t.clauses ref ≡ a ∷ b ∷ cs
      → Attended t ref a b
      → (x : Literal) × Entry x (t.clauses ref) × Entry x (internal_model t)
  unfolding internal_model
  modelled t h complete short ref a b cs e attended =
      let hit : (x : Literal)
          → Entry x (t.clauses ref)
          → value_of t x ≡ satisfied
          → (x : Literal) × Entry x (t.clauses ref) × Entry x (internal_model t) =
        λ x inside up.
          let low = (IsPropagating.within h).0 ref x inside in
          let twin = IsTrail.opposites (IsPropagating.trail h) x in
          let same = model_literal t x twin up (omega (arith, low, short)) in
          let member =
            model_below-Entry t (variable_of x) t.variable_count (complete ref x inside).0 low in
          (x, inside, subst (λ (y : Literal). Entry y (internal_model t)) same member) in
      elim attended [
        | inl (x, inside, up) ↦ hit x inside up
        | inr (high, _) ↦
            let inside = subst (Entry a) (sym e) here in
            hit a inside (value-closed (value_of t a) high (complete ref a inside).1)
      ]

  IsPropagating-of :
      (r : SolverCore H × Option ℕ)
      → Propagated original r
      → (done queue : List Literal) × IsPropagating original done queue r.0
  IsPropagating-of (t, none) (at, h) = (t.trail, [], h)
  IsPropagating-of (t, some ref) (done, queue, h, at, f) = (done, queue, h)

  -- When propagation reports no conflict and every variable of the clauses is assigned, the model that
  -- is read off the values has a literal of every clause with two literals or more, provided that
  -- trail, tables, watch lists, reasons and clauses agreed before, the variables of the clauses are
  -- numbered from 1 and their number is below 2 ^ 31 - 1.
  pub internal_model-propagate :
      (done queue : List Literal) (s : SolverCore H)
      → IsPropagating original done queue s
      → s.propagated ≡ length done
      → (propagate s).1 ≡ none
      → Complete (propagate s).0
      → (propagate s).0.variable_count < 2 ^ 31 - 1
      → (ref : ℕ) (a b : Literal) (cs : List Literal) → (propagate s).0.clauses ref ≡ a ∷ b ∷ cs
      → (x : Literal) × Entry x ((propagate s).0.clauses ref)
        × Entry x (internal_model (propagate s).0)
  internal_model-propagate done queue s h at e complete short ref a b cs f =
      let (d, q, g) =
        IsPropagating-of (propagate s) (propagate-Propagated original done queue s h at) in
      modelled (propagate s).0 g complete short ref a b cs f
        (propagate-Attended original done queue s h at e ref a b cs f)

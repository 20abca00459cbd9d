-- ===== src/SolverCore/Visiting.antt =====
-- What becomes of one watch of a falsified literal, branch by branch
-- (source/library/src/kmx/sat/cdcl/solver_core.cpp, `propagate`).
use kmx_sat.Base.{
  ℕ, ◌+◌, ◌≡◌, ◌⊎◌, refl, sym, subst, ◌∙◌, inl, inr, true, false, some, List, [], ◌∷◌, ◌++◌,
  append-nil, Bool-cases, put, Entry, here, Entry-inv, Entry-append_right,
}
use kmx_sat.Literal.{Literal}
use kmx_sat.SolverCore.{
  Value, falsified, unassigned, satisfied, is_falsified, is_satisfied, Watch, SolverCore, value_of,
  assign, Visit, kept, moved, conflicting, visit_binary,
}
use kmx_sat.SolverCore.Trail.{IsTrail, view, put_self}
use kmx_sat.SolverCore.Watching.{IsWatch, IsWatched}
use kmx_sat.SolverCore.Replacement.{found, Swapped-Entry}
use kmx_sat.SolverCore.Rewatch.{Heads, Heads-Entry}
use kmx_sat.SolverCore.Propagated.{Below}
use kmx_sat.SolverCore.Scanning.{Scanning, key_false, key_level, advance, reorder}
use kmx_sat.SolverCore.Writes.{force, force-Below}

abbrev pub AllFalse : {H : Type 0} → SolverCore H → ℕ → Type 0
AllFalse s ref =
    ((x : Literal) × Entry x (s.clauses ref))
    × ((x : Literal) → Entry x (s.clauses ref) → value_of s x ≡ falsified)

abbrev pub Outcome :
    {H : Type 0}
    → (ℕ → List Literal)
    → List Literal
    → List Literal
    → Literal
    → List Watch
    → List Watch
    → Visit H
    → Type 0
Outcome original done tail k written rest (kept t v) =
    (more : List Literal) × Scanning original done (tail ++ more) k (written ++ v ∷ []) rest t
Outcome original done tail k written rest (moved t) = Scanning original done tail k written rest t
Outcome original done tail k written rest (conflicting t v ref) =
    Scanning original done tail k written (v ∷ rest) t × AllFalse t ref

pub value-open : (v : Value) → is_satisfied v ≡ false → is_falsified v ≡ false → v ≡ unassigned
value-open falsified h g = cc
value-open unassigned h g = refl
value-open satisfied h g = cc

pub value-false : (v : Value) → is_falsified v ≡ true → v ≡ falsified
value-false falsified h = refl
value-false unassigned h = cc
value-false satisfied h = cc

pub value-true : (v : Value) → is_satisfied v ≡ true → v ≡ satisfied
value-true falsified h = cc
value-true unassigned h = cc
value-true satisfied h = refl

-- The literals of a clause, from those of its first two and the rest.
pub others_of :
    {H : Type 0} (s : SolverCore H) (k o x : Literal) (cs : List Literal)
    → value_of s k ≡ falsified
    → ((x : Literal) → Entry x cs → value_of s x ≡ falsified)
    → Entry x (k ∷ o ∷ cs)
    → (x ≡ o) ⊎ (value_of s x ≡ falsified)
others_of s k o x cs low rest_low e = elim (Entry-inv e) [
  | inl h ↦ inr (subst (λ (y : Literal). value_of s y ≡ falsified) h low)
  | inr e ↦ elim (Entry-inv e) [ inl h ↦ inl (sym h) | inr e ↦ inr (rest_low x e) ]
]

-- Nothing more is on the trail.
pub no_more :
    (P : List Literal → Type 0) (queue : List Literal)
    → P queue
    → (more : List Literal) × P (queue ++ more)
no_more P queue h = ([], subst P (sym (append-nil queue)) h)

module _ {H : Type 0} {original : ℕ → List Literal} {done tail : List Literal} {k : Literal}
    {written rest : List Watch} (s : SolverCore H) where
  pub counting :
      (a b c : ℕ)
      → Scanning original done tail k written rest s
      → Scanning original done tail k written rest (record s {
        watch_entry_scan_count = a;
        binary_watch_scan_count = b;
        binary_watch_conflict_count = c;
      })
  counting a b c h = record {
    trail = Scanning.trail h;
    watched = Scanning.watched h;
    settled = Scanning.settled h;
    reasoned = Scanning.reasoned h;
    within = Scanning.within h;
  }

  -- A true literal of the clause is on a level not above the watched literal's.
  pub Below-of_true :
      (l : Literal) (ref : ℕ)
      → Entry l (s.clauses ref)
      → value_of s l ≡ satisfied
      → Scanning original done tail k written rest s
      → Below s.clauses (view s) k ref
  Below-of_true l ref inside up h =
      let low = IsTrail.bounded (Scanning.trail h) l (IsTrail.listed (Scanning.trail h) l up) in
      (l, inside, up, rw (key_level written s h) low)

  pub read_watch :
      (w : Watch)
      → Scanning original done tail k written (w ∷ rest) s
      → IsWatch (s.clauses w.clause_ref) k w
  read_watch w h = IsWatched.watch (Scanning.watched h) k w (
      subst (Entry w) (sym (put_self s.watches k.raw (written ++ w ∷ rest)))
        (Entry-append_right written here))

module _ {H : Type 0} {k : Literal} (s : SolverCore H) (w : Watch) where
  binary_others :
      (f : IsWatch (s.clauses w.clause_ref) k w)
      → w.is_binary ≡ true
      → value_of s k ≡ falsified
      → (x : Literal) → Entry x (s.clauses w.clause_ref)
      → (x ≡ w.blocking_literal) ⊎ (value_of s x ≡ falsified)
  binary_others f two low x e =
      let (short, same) = IsWatch.binary f two in
      elim (others_of s k (IsWatch.other f) x (IsWatch.rest f) low
        (λ x e. elim (subst (Entry x) short e) [ ]) (Heads-Entry (IsWatch.heads f) x e)) [
          | inl h ↦ inl (h ∙ sym same)
          | inr h ↦ inr h
        ]

module _ {H : Type 0} {original : ℕ → List Literal} {done tail : List Literal} {k : Literal}
    (written rest : List Watch) (s : SolverCore H) (w : Watch) where
  -- The clause of the watch is unit: its other watched literal is assigned.
  pub force_other :
      (o : Literal) (cs : List Literal)
      → Heads (s.clauses w.clause_ref) k o cs
      → value_of s o ≡ unassigned
      → ((x : Literal) → Entry x cs → value_of s x ≡ falsified)
      → Scanning original done tail k written (w ∷ rest) s
      → Scanning original done (tail ++ o ∷ []) k (written ++ w ∷ []) rest (
          assign
            (record s { clauses = put s.clauses w.clause_ref (o ∷ k ∷ cs) })
            o
            (some w.clause_ref))
  unfolding assign
  force_other o cs heads free all_low h =
      let ordered = reorder written s o w.clause_ref cs (w ∷ rest) heads h in
      let at = put_self s.clauses w.clause_ref (o ∷ k ∷ cs) in
      let inside = subst (Entry o) (sym at) here in
      let others : (x : Literal)
          → Entry x (put s.clauses w.clause_ref (o ∷ k ∷ cs) w.clause_ref)
          → (x ≡ o) ⊎ (value_of s x ≡ falsified) =
        λ x m.
          others_of s k o x cs (key_false written s h) all_low
            (Swapped-Entry found x (subst (Entry x) at m)) in
      advance written _ w rest
        (force-Below written _ o w.clause_ref w.clause_ref (w ∷ rest) free inside ordered)
        (force written _ o w.clause_ref (w ∷ rest) free inside others ordered)

module _ {H : Type 0} {original : ℕ → List Literal} {done tail : List Literal} {k : Literal}
    (written rest : List Watch) (s : SolverCore H) (w : Watch) where
  pub visit_binary-Outcome :
      w.is_binary ≡ true
      → is_satisfied (value_of s w.blocking_literal) ≡ false
      → Scanning original done tail k written (w ∷ rest) s
      → Outcome original done tail k written rest (visit_binary s w)
  unfolding visit_binary assign
  visit_binary-Outcome two up h =
      let f = read_watch s w h in
      let others = binary_others s w f two (key_false written s h) in
      let counted = counting s _ (s.binary_watch_scan_count + 1) _ h in
      elim (Bool-cases (is_falsified (value_of s w.blocking_literal))) [
        | inl low ↦
            let down = value-false (value_of s w.blocking_literal) low in
            rw (low, visit_binary)
              (
                counting s _ (s.binary_watch_scan_count + 1) (s.binary_watch_conflict_count + 1) h,
                (
                  (w.blocking_literal, IsWatch.blocks f),
                  λ x e. elim (others x e) [
                    | inl at ↦ subst (λ (y : Literal). value_of s y ≡ falsified) (sym at) down
                    | inr d ↦ d
                  ],
                ),
              )
        | inr low ↦
            let free = value-open (value_of s w.blocking_literal) up low in
            rw (low, visit_binary)
              (
                w.blocking_literal ∷ [],
                advance written _ w rest
                    (force-Below written _ w.blocking_literal w.clause_ref w.clause_ref (w ∷ rest)
                      free (IsWatch.blocks f) counted)
                    (force written _ w.blocking_literal w.clause_ref (w ∷ rest) free
                      (IsWatch.blocks f) others counted),
              )
      ]

-- ===== src/SolverCore/Scanning.antt =====
-- The pass over one watch list: what holds before each watch is read, and the four writes
-- (source/library/src/kmx/sat/cdcl/solver_core.cpp, `propagate`).
use kmx_sat.Base.{
  ℕ, ◌+◌, ◌≡◌, ◌≢◌, sym, ap, subst, ◌∙◌, inl, inr, false, List, [], ◌∷◌, ◌++◌, append_assoc, arith,
  ◌==◌, put, Entry, here, Entry-append, Entry-append_left, Entry-append_right, Entry-single,
}
use kmx_sat.Literal.{Literal, variable_of, negated}
use kmx_sat.Literal.Encoding.{variable_of-negated}
use kmx_sat.SolverCore.{Value, falsified, is_falsified, Watch, SolverCore, value_of}
use kmx_sat.SolverCore.Trail.{IsTrail, view, put_other, put_self}
use kmx_sat.SolverCore.Assigned.{false_of_Entry}
use kmx_sat.SolverCore.Watching.{IsWatch, IsWatched}
use kmx_sat.SolverCore.Replacement.{found, Swapped-Entry}
use kmx_sat.SolverCore.Rewatch.{
  Change, Change-cases, Heads, Heads-Entry, Entry-Heads, reblock-IsWatched, reorder-IsWatched,
}
use kmx_sat.SolverCore.MoveWatch.{Move}
use kmx_sat.SolverCore.Propagated.{
  Below, Settled, IsReasoned, Within, put-Below, put-IsReasoned, put-Within,
}

-- The literal `negated k` is being propagated; of the watches of `k`, some are written back and the
-- rest is still to be read.
pub record Scanning {H : Type 0} (original : ℕ → List Literal) (done tail : List Literal)
    (k : Literal) (written rest : List Watch) (s : SolverCore H) : Type 0 where
  pub trail : IsTrail done (negated k ∷ tail) (view s)
  pub watched : IsWatched s.clauses (put s.watches k.raw (written ++ rest))
  pub settled : Settled (done ++ negated k ∷ []) s.clauses (put s.watches k.raw written) (view s)
  pub reasoned : IsReasoned s.clauses s.reasons (view s)
  pub within : Within original s.clauses (s.variable_count + 1) (view s)

pub put-Change :
    (watches : ℕ → List Watch) (k : Literal) (xs ys : List Watch)
    → Change k (put watches k.raw xs) (put watches k.raw ys) xs ys
put-Change watches k xs ys = record {
  before = put_self watches k.raw xs;
  after = put_self watches k.raw ys;
  elsewhere = λ l n. put_other watches k.raw l.raw ys n ∙ sym (put_other watches k.raw l.raw xs n);
}

pub put_under :
    {A : Type 0} (f : ℕ → A) (i k j : ℕ) (v x : A)
    → (i == j) ≡ false
    → put (put f i v) k x j ≡ put f k x j
put_under f i k j v x n = ground arith

pub put-Move :
    (watches : ℕ → List Watch) (k r : Literal) (w v : Watch) (xs ys : List Watch)
    → (k.raw == r.raw) ≡ false
    → Move k r
        (put watches k.raw (xs ++ w ∷ ys))
        (put (put watches r.raw (watches r.raw ++ v ∷ [])) k.raw (xs ++ ys))
        xs
        ys
        w
        v
put-Move watches k r w v xs ys n = record {
  before = put_self watches k.raw (xs ++ w ∷ ys);
  left = put_self (put watches r.raw (watches r.raw ++ v ∷ [])) k.raw (xs ++ ys);
  entered =
      put_other (put watches r.raw (watches r.raw ++ v ∷ [])) k.raw r.raw (xs ++ ys) n
      ∙ put_self watches r.raw (watches r.raw ++ v ∷ [])
      ∙ ap (λ (ws : List Watch). ws ++ v ∷ [])
          (sym (put_other watches k.raw r.raw (xs ++ w ∷ ys) n));
  apart = n;
  elsewhere = λ l a b.
      put_other (put watches r.raw (watches r.raw ++ v ∷ [])) k.raw l.raw (xs ++ ys) a
      ∙ put_other watches r.raw l.raw (watches r.raw ++ v ∷ []) b
      ∙ sym (put_other watches k.raw l.raw (xs ++ w ∷ ys) a);
}

pub not_false : (v : Value) → v ≡ falsified → is_falsified v ≢ false
not_false v e h = cc (sym h ∙ ap is_falsified e)

module _ {H : Type 0} {original : ℕ → List Literal} {done tail : List Literal} {k : Literal}
    (written : List Watch) (s : SolverCore H) where
  pub key_listed :
      {rest : List Watch} → Scanning original done tail k written rest s → Entry (negated k) s.trail
  key_listed h =
      subst (Entry (negated k)) (sym (IsTrail.splits (Scanning.trail h)))
        (Entry-append_right done here)

  pub key_false :
      {rest : List Watch} → Scanning original done tail k written rest s → value_of s k ≡ falsified
  key_false h = false_of_Entry s (Scanning.trail h) k (key_listed h)

  pub key_level :
      {rest : List Watch}
      → Scanning original done tail k written rest s
      → s.levels (variable_of k) ≡ s.level
  key_level h =
      rw (sym (variable_of-negated k)) (IsTrail.recent (Scanning.trail h) (negated k) here)

  -- What has been propagated is on the trail.
  pub done_listed :
      {rest : List Watch}
      → Scanning original done tail k written rest s
      → (l : Literal) → Entry l (done ++ negated k ∷ [])
      → Entry l s.trail
  done_listed h l e = elim (Entry-append done (negated k ∷ []) e) [
    | inl d ↦ subst (Entry l) (sym (IsTrail.splits (Scanning.trail h))) (Entry-append_left _ d)
    | inr n ↦ subst (λ (x : Literal). Entry x s.trail) (sym (Entry-single n)) (key_listed h)
  ]

  -- Another blocking literal for the watch that is read.
  pub reblock :
      (w v : Watch) (rest : List Watch)
      → v.clause_ref ≡ w.clause_ref
      → IsWatch (s.clauses w.clause_ref) k v
      → Scanning original done tail k written (w ∷ rest) s
      → Scanning original done tail k written (v ∷ rest) s
  reblock w v rest same fits h = record {
    trail = Scanning.trail h;
    watched =
        reblock-IsWatched s.clauses (Scanning.watched h) written rest w v
          (put-Change s.watches k (written ++ w ∷ rest) (written ++ v ∷ rest)) same fits;
    settled = Scanning.settled h;
    reasoned = Scanning.reasoned h;
    within = Scanning.within h;
  }

  -- The watch that is read is written back.
  pub advance :
      (w : Watch) (rest : List Watch)
      → Below s.clauses (view s) k w.clause_ref
      → Scanning original done tail k written (w ∷ rest) s
      → Scanning original done tail k (written ++ w ∷ []) rest s
  advance w rest below h = record {
    trail = Scanning.trail h;
    watched =
        subst (λ (ws : List Watch). IsWatched s.clauses (put s.watches k.raw ws))
          (sym (append_assoc written (w ∷ []) rest)) (Scanning.watched h);
    settled = λ l u e.
        Change-cases
          (λ l ws.
            Entry u ws
            → Entry (negated l) (done ++ negated k ∷ [])
            → Below s.clauses (view s) l u.clause_ref)
          (put-Change s.watches k written (written ++ w ∷ []))
          (λ e d. elim (Entry-append written (w ∷ []) e) [
            | inl old ↦
                Scanning.settled h k u
                  (subst (Entry u) (sym (put_self s.watches k.raw written)) old) d
            | inr new ↦
                subst (λ (x : Watch). Below s.clauses (view s) k x.clause_ref)
                  (sym (Entry-single new)) below
          ])
          l (λ n e d. Scanning.settled h l u e d) e;
    reasoned = Scanning.reasoned h;
    within = Scanning.within h;
  }

  -- The first two literals of a clause of the list in a given order.
  pub reorder :
      (o : Literal) (ref : ℕ) (cs : List Literal) (rest : List Watch)
      → Heads (s.clauses ref) k o cs
      → Scanning original done tail k written rest s
      → Scanning original done tail k written rest
          (record s { clauses = put s.clauses ref (o ∷ k ∷ cs) })
  reorder o ref cs rest heads h =
      let into : (x : Literal) → Entry x (s.clauses ref) → Entry x (o ∷ k ∷ cs) =
        λ x e. Swapped-Entry found x (Heads-Entry heads x e) in
      let back : (x : Literal) → Entry x (o ∷ k ∷ cs) → Entry x (s.clauses ref) =
        λ x e. Entry-Heads heads x (Swapped-Entry found x e) in
      record {
        trail = Scanning.trail h;
        watched = reorder-IsWatched s.clauses _ (Scanning.watched h) k o ref cs heads;
        settled = λ l u e d.
            put-Below s.clauses ref (o ∷ k ∷ cs) into (view s) l u.clause_ref
              (Scanning.settled h l u e d);
        reasoned =
            put-IsReasoned s.clauses ref (o ∷ k ∷ cs) into back s.reasons (view s)
              (Scanning.reasoned h);
        within =
            put-Within s.clauses ref (o ∷ k ∷ cs) into back original _ (view s) (Scanning.within h);
      }

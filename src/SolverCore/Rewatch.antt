-- ===== src/SolverCore/Rewatch.antt =====
-- The three ways in which propagation writes to clauses and watch lists: another blocking literal,
-- the order of the first two literals, another literal to watch
-- (source/library/src/kmx/sat/cdcl/solver_core.cpp, `propagate`).
use kmx_sat.Base.{
  ℕ, ◌≡◌, ◌⊎◌, refl, sym, subst, inl, inr, true, false, List, ◌∷◌, ◌++◌, arith, ◌==◌, Bool-cases,
  put, Entry,
}
use kmx_sat.Literal.{Literal}
use kmx_sat.Analyzer.Marking.{Distinct}
use kmx_sat.SolverCore.{Watch}
use kmx_sat.SolverCore.Trail.{put_self, put_other}
use kmx_sat.SolverCore.Watching.{
  IsWatch, IsWatched, Watches, OncePerClause, OncePerClause-replace, Entry-replace, Watches-replace,
}
use kmx_sat.SolverCore.Replacement.{found, Swapped-Entry, Swapped-Distinct}

-- Two tables of lists that differ at one literal at most, with the lists they have there.
pub record Change (k : Literal) (old new : ℕ → List Watch) (xs ys : List Watch) : Type 0 where
  pub before : old k.raw ≡ xs
  pub after : new k.raw ≡ ys
  pub elsewhere : (l : Literal) → (k.raw == l.raw) ≡ false → new l.raw ≡ old l.raw

pub same_literal : (k l : Literal) → (k.raw == l.raw) ≡ true → k ≡ l
same_literal k l e = ground arith

-- To show a property of a list after the change.
pub Change-cases :
    {k : Literal} {old new : ℕ → List Watch} {xs ys : List Watch}
    (P : Literal → List Watch → Type 0)
    → Change k old new xs ys
    → P k ys
    → (l : Literal) → ((k.raw == l.raw) ≡ false → P l (old l.raw))
    → P l (new l.raw)
Change-cases {k} {old} {new} P c hit l miss = elim (Bool-cases (k.raw == l.raw)) [
  | inr n ↦ subst (P l) (sym (Change.elsewhere c l n)) (miss n)
  | inl e ↦
      subst (λ (x : Literal). P x (new x.raw)) (same_literal k l e)
        (subst (P k) (sym (Change.after c)) hit)
]

module _ {k : Literal} {old new : ℕ → List Watch} (clauses : ℕ → List Literal)
    (ok : IsWatched clauses old) where
  module _ (xs ys : List Watch) (w v : Watch) (c : Change k old new (xs ++ w ∷ ys) (xs ++ v ∷ ys))
      (same : v.clause_ref ≡ w.clause_ref) (fits : IsWatch (clauses w.clause_ref) k v) where
    still : (ref : ℕ) (l : Literal) → Watches (old l.raw) ref → Watches (new l.raw) ref
    still ref l h =
        Change-cases (λ l ws. Watches (old l.raw) ref → Watches ws ref) c
          (λ h.
            Watches-replace w v same xs ys ref
              (subst (λ (ws : List Watch). Watches ws ref) (Change.before c) h))
          l (λ n h. h) h

    -- Another blocking literal.
    pub reblock-IsWatched : IsWatched clauses new
    reblock-IsWatched = record {
      watch = λ l u e.
          Change-cases (λ l ws. Entry u ws → IsWatch (clauses u.clause_ref) l u) c
            (λ e. elim (Entry-replace w v same xs ys u e) [
              | inl h ↦
                  subst (λ (x : Watch). IsWatch (clauses x.clause_ref) k x) h
                    (subst (λ (r : ℕ). IsWatch (clauses r) k v) (sym same) fits)
              | inr m ↦ IsWatched.watch ok k u (subst (Entry u) (sym (Change.before c)) m)
            ])
            l (λ n e. IsWatched.watch ok l u e) e;
      once = λ l.
          Change-cases (λ l ws. OncePerClause ws) c
            (OncePerClause-replace w v same xs ys
              (subst OncePerClause (Change.before c) (IsWatched.once ok k)))
            l (λ n. IsWatched.once ok l);
      first = λ ref a b rest e. still ref a (IsWatched.first ok ref a b rest e);
      second = λ ref a b rest e. still ref b (IsWatched.second ok ref a b rest e);
      distinct = IsWatched.distinct ok;
    }

-- The first two literals of a clause, in the other order.
abbrev pub Heads : List Literal → Literal → Literal → List Literal → Type 0
Heads c k o rest = (c ≡ k ∷ o ∷ rest) ⊎ (c ≡ o ∷ k ∷ rest)

pub Heads-Entry :
    {c : List Literal} {k o : Literal} {rest : List Literal}
    → Heads c k o rest
    → (x : Literal) → Entry x c
    → Entry x (k ∷ o ∷ rest)
Heads-Entry (inl h) x e = subst (Entry x) h e
Heads-Entry (inr h) x e = Swapped-Entry found x (subst (Entry x) h e)

pub Entry-Heads :
    {c : List Literal} {k o : Literal} {rest : List Literal}
    → Heads c k o rest
    → (x : Literal) → Entry x (k ∷ o ∷ rest)
    → Entry x c
Entry-Heads (inl h) x e = subst (Entry x) (sym h) e
Entry-Heads (inr h) x e = subst (Entry x) (sym h) (Swapped-Entry found x e)

pub Heads-Distinct :
    {c : List Literal} {k o : Literal} {rest : List Literal}
    → Heads c k o rest
    → Distinct c
    → Distinct (k ∷ o ∷ rest)
Heads-Distinct (inl h) d = subst Distinct h d
Heads-Distinct (inr h) d = Swapped-Distinct found (subst Distinct h d)

-- A watched literal is one of the first two.
pub Heads-watched :
    {c : List Literal} {k o : Literal} {rest : List Literal} {l : Literal} {u : Watch}
    → Heads c k o rest
    → IsWatch c l u
    → (k ≡ l) ⊎ (o ≡ l)
Heads-watched {c} {k} {o} {rest} {l} (inl h) f = elim (IsWatch.heads f) [
  | inl e ↦ inl (cc (h, e))
  | inr e ↦ inr (cc (h, e))
]
Heads-watched {c} {k} {o} {rest} {l} (inr h) f = elim (IsWatch.heads f) [
  | inl e ↦ inr (cc (h, e))
  | inr e ↦ inl (cc (h, e))
]

IsWatch-swap :
    {a b l : Literal} {rest : List Literal} {u : Watch}
    → IsWatch (a ∷ b ∷ rest) l u
    → IsWatch (b ∷ a ∷ rest) l u
IsWatch-swap f = record {
  other = IsWatch.other f;
  rest = IsWatch.rest f;
  heads = elim (IsWatch.heads f) [ inl e ↦ inr (cc e) | inr e ↦ inl (cc e) ];
  blocks = Swapped-Entry found _ (IsWatch.blocks f);
  binary = IsWatch.binary f;
}

pub IsWatch-reorder :
    {c : List Literal} {k o l : Literal} {rest : List Literal} {u : Watch}
    → Heads c k o rest
    → IsWatch c l u
    → IsWatch (o ∷ k ∷ rest) l u
IsWatch-reorder {l = l} {u = u} (inl h) f =
    IsWatch-swap (subst (λ (c : List Literal). IsWatch c l u) h f)
IsWatch-reorder {l = l} {u = u} (inr h) f = subst (λ (c : List Literal). IsWatch c l u) h f

-- A property of the clauses after one of them is written.
pub put-cases :
    {A : Type 0} (P : ℕ → A → Type 0) (f : ℕ → A) (i : ℕ) (v : A)
    → P i v
    → (j : ℕ) → ((i == j) ≡ false → P j (f j))
    → P j (put f i v j)
put-cases P f i v hit j miss = elim (Bool-cases (i == j)) [
  | inr n ↦ subst (P j) (sym (put_other f i j v n)) (miss n)
  | inl e ↦
      let at : i ≡ j = ground arith in
      subst (λ (n : ℕ). P n (put f i v n)) at (subst (P i) (sym (put_self f i v)) hit)
]

module _ (clauses : ℕ → List Literal) (watches : ℕ → List Watch) (ok : IsWatched clauses watches)
    (k o : Literal) (ref : ℕ) (rest : List Literal) (heads : Heads (clauses ref) k o rest) where
  pub Heads-watches : Watches (watches k.raw) ref × Watches (watches o.raw) ref
  Heads-watches = elim heads [
    | inl h ↦ (IsWatched.first ok ref k o rest h, IsWatched.second ok ref k o rest h)
    | inr h ↦ (IsWatched.second ok ref o k rest h, IsWatched.first ok ref o k rest h)
  ]

  -- The first two literals in a given order.
  pub reorder-IsWatched : IsWatched (put clauses ref (o ∷ k ∷ rest)) watches
  reorder-IsWatched = record {
    watch = λ l u e.
        put-cases (λ r c. (r ≡ u.clause_ref) → IsWatch c l u) clauses ref (o ∷ k ∷ rest)
          (λ at.
            IsWatch-reorder heads
              (subst (λ (r : ℕ). IsWatch (clauses r) l u) (sym at) (IsWatched.watch ok l u e)))
          u.clause_ref (λ n at. IsWatched.watch ok l u e) refl;
    once = IsWatched.once ok;
    first = λ r a b cs.
        put-cases (λ r c. c ≡ a ∷ b ∷ cs → Watches (watches a.raw) r) clauses ref (o ∷ k ∷ rest)
          (λ e.
            let same : o ≡ a = cc e in
            subst (λ (x : Literal). Watches (watches x.raw) ref) same Heads-watches.1)
          r (λ n. IsWatched.first ok r a b cs);
    second = λ r a b cs.
        put-cases (λ r c. c ≡ a ∷ b ∷ cs → Watches (watches b.raw) r) clauses ref (o ∷ k ∷ rest)
          (λ e.
            let same : k ≡ b = cc e in
            subst (λ (x : Literal). Watches (watches x.raw) ref) same Heads-watches.0)
          r (λ n. IsWatched.second ok r a b cs);
    distinct = λ r.
        put-cases (λ r c. Distinct c) clauses ref (o ∷ k ∷ rest)
          (Swapped-Distinct found (Heads-Distinct heads (IsWatched.distinct ok ref))) r
          (λ n. IsWatched.distinct ok r);
  }

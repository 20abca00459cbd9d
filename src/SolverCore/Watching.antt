-- ===== src/SolverCore/Watching.antt =====
-- The watch lists against the clauses: each clause of two literals or more is watched by its first
-- two (source/library/src/kmx/sat/cdcl/solver_core.cpp).
use kmx_sat.Base.{
  ℕ, ◌≡◌, ◌⊎◌, sym, ap, subst, ◌∙◌, inl, inr, true, false, List, [], ◌∷◌, ◌++◌, arith, ◌==◌, Entry,
  here, there, Entry-inv, Entry-append, Entry-append_left, Entry-append_right,
}
use kmx_sat.Literal.{Literal}
use kmx_sat.Analyzer.Marking.{Distinct}
use kmx_sat.SolverCore.{Watch}

-- The watched literal is one of the first two, the blocking literal is one of the clause, and a
-- binary clause has no third.
pub record IsWatch (c : List Literal) (k : Literal) (w : Watch) : Type 0 where
  pub other : Literal
  pub rest : List Literal
  pub heads : (c ≡ k ∷ other ∷ rest) ⊎ (c ≡ other ∷ k ∷ rest)
  pub blocks : Entry w.blocking_literal c
  pub binary : w.is_binary ≡ true → (rest ≡ []) × (w.blocking_literal ≡ other)

abbrev pub Absent : ℕ → List Watch → Type 0
Absent ref [] = Unit
Absent ref (w ∷ ws) = ((w.clause_ref == ref) ≡ false) × Absent ref ws

abbrev pub OncePerClause : List Watch → Type 0
OncePerClause [] = Unit
OncePerClause (w ∷ ws) = Absent w.clause_ref ws × OncePerClause ws

abbrev pub Watches : List Watch → ℕ → Type 0
Watches ws ref = (w : Watch) × Entry w ws × (w.clause_ref ≡ ref)

pub record IsWatched (clauses : ℕ → List Literal) (watches : ℕ → List Watch) : Type 0 where
  pub watch :
      (k : Literal) (w : Watch) → Entry w (watches k.raw) → IsWatch (clauses w.clause_ref) k w
  pub once : (k : Literal) → OncePerClause (watches k.raw)
  pub first :
      (ref : ℕ) (a b : Literal) (rest : List Literal)
      → clauses ref ≡ a ∷ b ∷ rest
      → Watches (watches a.raw) ref
  pub second :
      (ref : ℕ) (a b : Literal) (rest : List Literal)
      → clauses ref ≡ a ∷ b ∷ rest
      → Watches (watches b.raw) ref
  pub distinct : (ref : ℕ) → Distinct (clauses ref)

pub Absent-Entry :
    (ref : ℕ) (w : Watch) (ws : List Watch)
    → Absent ref ws
    → Entry w ws
    → (w.clause_ref == ref) ≡ false
Absent-Entry ref w [] h e = elim e [ ]
Absent-Entry ref w (v ∷ ws) h e = elim (Entry-inv e) [
  | inl first ↦ subst (λ (x : Watch). (x.clause_ref == ref) ≡ false) first h.0
  | inr later ↦ Absent-Entry ref w ws h.1 later
]

pub Absent-append :
    (ref : ℕ) (xs ys : List Watch) → Absent ref xs → Absent ref ys → Absent ref (xs ++ ys)
Absent-append ref [] ys hx hy = hy
Absent-append ref (x ∷ xs) ys hx hy = (hx.0, Absent-append ref xs ys hx.1 hy)

-- The watch in the middle of a list, replaced or taken out.
module _ (w v : Watch) (same : v.clause_ref ≡ w.clause_ref) where
  Absent-replace :
      (ref : ℕ) (xs ys : List Watch) → Absent ref (xs ++ w ∷ ys) → Absent ref (xs ++ v ∷ ys)
  Absent-replace ref [] ys h = (ground (arith, h.0), h.1)
  Absent-replace ref (x ∷ xs) ys h = (h.0, Absent-replace ref xs ys h.1)

  pub OncePerClause-replace :
      (xs ys : List Watch) → OncePerClause (xs ++ w ∷ ys) → OncePerClause (xs ++ v ∷ ys)
  OncePerClause-replace [] ys h = (subst (λ (r : ℕ). Absent r ys) (sym same) h.0, h.1)
  OncePerClause-replace (x ∷ xs) ys h =
      (Absent-replace x.clause_ref xs ys h.0, OncePerClause-replace xs ys h.1)

  pub Entry-replace :
      (xs ys : List Watch) (u : Watch) → Entry u (xs ++ v ∷ ys) → (v ≡ u) ⊎ Entry u (xs ++ w ∷ ys)
  Entry-replace xs ys u e = elim (Entry-append xs (v ∷ ys) e) [
    | inl l ↦ inr (Entry-append_left (w ∷ ys) l)
    | inr r ↦ elim (Entry-inv r) [ inl e ↦ inl e | inr t ↦ inr (Entry-append_right xs (there t)) ]
  ]

  pub Watches-replace :
      (xs ys : List Watch) (ref : ℕ) → Watches (xs ++ w ∷ ys) ref → Watches (xs ++ v ∷ ys) ref
  Watches-replace xs ys ref (u, e, r) = elim (Entry-append xs (w ∷ ys) e) [
    | inl l ↦ (u, Entry-append_left (v ∷ ys) l, r)
    | inr t ↦ elim (Entry-inv t) [
      | inl e ↦ (v, Entry-append_right xs here, same ∙ ap (λ (x : Watch). x.clause_ref) e ∙ r)
      | inr t ↦ (u, Entry-append_right xs (there t), r)
    ]
  ]

module _ (w : Watch) where
  Absent-remove : (ref : ℕ) (xs ys : List Watch) → Absent ref (xs ++ w ∷ ys) → Absent ref (xs ++ ys)
  Absent-remove ref [] ys h = h.1
  Absent-remove ref (x ∷ xs) ys h = (h.0, Absent-remove ref xs ys h.1)

  pub OncePerClause-remove :
      (xs ys : List Watch)
      → OncePerClause (xs ++ w ∷ ys)
      → Absent w.clause_ref (xs ++ ys) × OncePerClause (xs ++ ys)
  OncePerClause-remove [] ys h = h
  OncePerClause-remove (x ∷ xs) ys h =
      let (absent, once) = OncePerClause-remove xs ys h.1 in
      let n = Absent-Entry x.clause_ref w (xs ++ w ∷ ys) h.0 (Entry-append_right xs here) in
      ((ground (arith, n), absent), (Absent-remove x.clause_ref xs ys h.0, once))

  pub Entry-remove : (xs ys : List Watch) (u : Watch) → Entry u (xs ++ ys) → Entry u (xs ++ w ∷ ys)
  Entry-remove xs ys u e = elim (Entry-append xs ys e) [
    | inl l ↦ Entry-append_left (w ∷ ys) l
    | inr r ↦ Entry-append_right xs (there r)
  ]

  pub Watches-remove :
      (xs ys : List Watch) (ref : ℕ)
      → (w.clause_ref == ref) ≡ false
      → Watches (xs ++ w ∷ ys) ref
      → Watches (xs ++ ys) ref
  Watches-remove xs ys ref n (u, e, r) = elim (Entry-append xs (w ∷ ys) e) [
    | inl l ↦ (u, Entry-append_left ys l, r)
    | inr t ↦ elim (Entry-inv t) [
      | inl same ↦
          let hit : w.clause_ref ≡ ref = ap (λ (x : Watch). x.clause_ref) same ∙ r in
          absurd (ground arith)
      | inr t ↦ (u, Entry-append_right xs t, r)
    ]
  ]

pub OncePerClause-push :
    (xs : List Watch) (w : Watch)
    → OncePerClause xs
    → Absent w.clause_ref xs
    → OncePerClause (xs ++ w ∷ [])
OncePerClause-push [] w h a = (tt, tt)
OncePerClause-push (x ∷ xs) w h a =
    (Absent-append x.clause_ref xs (w ∷ []) h.0 (ground arith, tt), OncePerClause-push xs w h.1 a.1)

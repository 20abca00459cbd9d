-- ===== src/SolverCore/Attach.antt =====
-- The watch lists that are built from the clauses
-- (source/library/src/kmx/sat/cdcl/solver_core.cpp, `rebuild_propagation_state`).
use kmx_sat.Base.{
  ℕ, ◌≡◌, ◌⊎◌, refl, sym, subst, inl, inr, true, false, List, [], ◌∷◌, ◌++◌, arith, ◌==◌, length,
  put, Entry, here, there, Entry-inv, Entry-single, Entry-append, Entry-append_left,
  Entry-append_right,
}
use kmx_sat.Literal.{Literal}
use kmx_sat.Analyzer.Marking.{Distinct}
use kmx_sat.SolverCore.{Watch}
use kmx_sat.SolverCore.Trail.{put_self}
use kmx_sat.SolverCore.Watching.{IsWatch, Watches, Absent, OncePerClause, OncePerClause-push}
use kmx_sat.SolverCore.Rewatch.{put-cases}
use kmx_sat.SolverCore.MoveWatch.{raw_apart, Absent-of_entries}

abbrev pub Apart : ℕ → List ℕ → Type 0
Apart ref [] = Unit
Apart ref (j ∷ js) = ((j == ref) ≡ false) × Apart ref js

abbrev pub AllApart : List ℕ → Type 0
AllApart [] = Unit
AllApart (j ∷ js) = Apart j js × AllApart js

-- The clauses up to `rest` are watched, none of `rest` is.
pub record IsAttached (clauses : ℕ → List Literal) (watches : ℕ → List Watch) (rest : List ℕ)
    : Type 0 where
  pub watch :
      (k : Literal) (w : Watch) → Entry w (watches k.raw) → IsWatch (clauses w.clause_ref) k w
  pub once : (k : Literal) → OncePerClause (watches k.raw)
  pub apart : (k : Literal) (w : Watch) → Entry w (watches k.raw) → Apart w.clause_ref rest
  pub first :
      (ref : ℕ) (a b : Literal) (cs : List Literal)
      → clauses ref ≡ a ∷ b ∷ cs
      → Watches (watches a.raw) ref ⊎ Entry ref rest
  pub second :
      (ref : ℕ) (a b : Literal) (cs : List Literal)
      → clauses ref ≡ a ∷ b ∷ cs
      → Watches (watches b.raw) ref ⊎ Entry ref rest

abbrev pub pushed : (ℕ → List Watch) → Literal → Watch → ℕ → List Watch
pushed watches l w = put watches l.raw (watches l.raw ++ w ∷ [])

module _ (watches : ℕ → List Watch) (l : Literal) (w : Watch) where
  pushed-keeps :
      (k : Literal) (ref : ℕ) → Watches (watches k.raw) ref → Watches (pushed watches l w k.raw) ref
  pushed-keeps k ref h =
      put-cases (λ j ws. Watches (watches j) ref → Watches ws ref) watches l.raw
        (watches l.raw ++ w ∷ []) (λ (u, e, at). (u, Entry-append_left _ e, at)) k.raw (λ n h. h) h

  pushed-there : Watches (pushed watches l w l.raw) w.clause_ref
  pushed-there = (
    w,
    subst (Entry w) (sym (put_self watches l.raw (watches l.raw ++ w ∷ [])))
        (Entry-append_right (watches l.raw) here),
    refl,
  )

  -- An entry is the one that was pushed, or it was there.
  pub pushed-Entry :
      (k : Literal) (u : Watch)
      → Entry u (pushed watches l w k.raw)
      → ((l ≡ k) × (u ≡ w)) ⊎ Entry u (watches k.raw)
  pushed-Entry k u e =
      put-cases (λ j ws. (j ≡ k.raw) → Entry u ws → ((l ≡ k) × (u ≡ w)) ⊎ Entry u (watches j))
        watches l.raw (watches l.raw ++ w ∷ [])
        (λ at e. elim (Entry-append (watches l.raw) (w ∷ []) e) [
          | inl old ↦ inr old
          | inr new ↦ inl (ground arith, Entry-single new)
        ])
        k.raw (λ n at e. inr e) refl e

  pushed-once :
      ((k : Literal) → OncePerClause (watches k.raw))
      → Absent w.clause_ref (watches l.raw)
      → (k : Literal) → OncePerClause (pushed watches l w k.raw)
  pushed-once h absent k =
      put-cases (λ j ws. OncePerClause ws) watches l.raw (watches l.raw ++ w ∷ [])
        (OncePerClause-push (watches l.raw) w (h l) absent) k.raw (λ n. h k)

flipped : (a b : ℕ) → (a == b) ≡ false → (b == a) ≡ false
flipped a b h = ground arith

two_long : (a b : Literal) (cs : List Literal) → (length (a ∷ b ∷ cs) == 2) ≡ true → cs ≡ []
two_long a b [] h = refl
two_long a b (c ∷ cs) h = absurd (ground arith)

-- A clause of two literals or more is attached.
module _ {clauses : ℕ → List Literal} {watches : ℕ → List Watch} {rest : List ℕ} (ref : ℕ)
    (a b : Literal) (cs : List Literal) (here_now : clauses ref ≡ a ∷ b ∷ cs)
    (distinct : Distinct (clauses ref)) (later : Apart ref rest)
    (h : IsAttached clauses watches (ref ∷ rest)) where
  abbrev wa : Watch
  wa = record { blocking_literal = b; clause_ref = ref; is_binary = length (a ∷ b ∷ cs) == 2 }

  abbrev wb : Watch
  wb = record { blocking_literal = a; clause_ref = ref; is_binary = length (a ∷ b ∷ cs) == 2 }

  fits_a : IsWatch (clauses ref) a wa
  fits_a = record {
    other = b;
    rest = cs;
    heads = inl here_now;
    blocks = subst (Entry b) (sym here_now) (there here);
    binary = λ e. (two_long a b cs e, refl);
  }

  fits_b : IsWatch (clauses ref) b wb
  fits_b = record {
    other = a;
    rest = cs;
    heads = inr here_now;
    blocks = subst (Entry a) (sym here_now) here;
    binary = λ e. (two_long a b cs e, refl);
  }

  abbrev pub two : ℕ → List Watch
  two = pushed (pushed watches a wa) b wb

  Absent-before : (k : Literal) → Absent ref (watches k.raw)
  Absent-before k =
      Absent-of_entries ref (watches k.raw)
        (λ u e. flipped ref u.clause_ref (IsAttached.apart h k u e).0)

  Absent-between : Absent ref (pushed watches a wa b.raw)
  Absent-between = Absent-of_entries ref (pushed watches a wa b.raw) (λ u e.
      elim (pushed-Entry watches a wa b u e) [
        | inr old ↦ flipped ref u.clause_ref (IsAttached.apart h b u old).0
        | inl (same, at) ↦
            let n = raw_apart a b (subst Distinct here_now distinct).0.0 in absurd (ground arith)
      ])

  two-Entry :
      (k : Literal) (u : Watch)
      → Entry u (two k.raw)
      → ((b ≡ k) × (u ≡ wb)) ⊎ (((a ≡ k) × (u ≡ wa)) ⊎ Entry u (watches k.raw))
  two-Entry k u e = elim (pushed-Entry (pushed watches a wa) b wb k u e) [
    | inl new ↦ inl new
    | inr e ↦ inr (pushed-Entry watches a wa k u e)
  ]

  two-keeps : (k : Literal) (j : ℕ) → Watches (watches k.raw) j → Watches (two k.raw) j
  two-keeps k j w = pushed-keeps (pushed watches a wa) b wb k j (pushed-keeps watches a wa k j w)

  pub attach_two : IsAttached clauses two rest
  attach_two = record {
    watch = λ k u e. elim (two-Entry k u e) [
      | inl (at, same) ↦
          subst (λ (l : Literal). IsWatch (clauses u.clause_ref) l u) at
            (subst (λ (x : Watch). IsWatch (clauses x.clause_ref) b x) (sym same) fits_b)
      | inr e ↦ elim e [
        | inl (at, same) ↦
            subst (λ (l : Literal). IsWatch (clauses u.clause_ref) l u) at
              (subst (λ (x : Watch). IsWatch (clauses x.clause_ref) a x) (sym same) fits_a)
        | inr e ↦ IsAttached.watch h k u e
      ]
    ];
    once =
        pushed-once (pushed watches a wa) b wb
          (pushed-once watches a wa (IsAttached.once h) (Absent-before a)) Absent-between;
    apart = λ k u e. elim (two-Entry k u e) [
      | inl (at, same) ↦ subst (λ (x : Watch). Apart x.clause_ref rest) (sym same) later
      | inr e ↦ elim e [
        | inl (at, same) ↦ subst (λ (x : Watch). Apart x.clause_ref rest) (sym same) later
        | inr e ↦ (IsAttached.apart h k u e).1
      ]
    ];
    first = λ j c d ds e. elim (IsAttached.first h j c d ds e) [
      | inl w ↦ inl (two-keeps c j w)
      | inr m ↦ elim (Entry-inv m) [
        | inr m ↦ inr m
        | inl at ↦
            let same : a ≡ c = cc (here_now, at, e) in
            let w = pushed-keeps (pushed watches a wa) b wb a ref (pushed-there watches a wa) in
            inl (
              subst (λ (r : ℕ). Watches (two c.raw) r) at
                (subst (λ (x : Literal). Watches (two x.raw) ref) same w))
      ]
    ];
    second = λ j c d ds e. elim (IsAttached.second h j c d ds e) [
      | inl w ↦ inl (two-keeps d j w)
      | inr m ↦ elim (Entry-inv m) [
        | inr m ↦ inr m
        | inl at ↦
            let same : b ≡ d = cc (here_now, at, e) in
            let w = pushed-there (pushed watches a wa) b wb in
            inl (
              subst (λ (r : ℕ). Watches (two d.raw) r) at
                (subst (λ (x : Literal). Watches (two x.raw) ref) same w))
      ]
    ];
  }

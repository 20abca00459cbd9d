-- ===== src/SolverCore/Replacement.antt =====
-- The search for another literal to watch (source/library/src/kmx/sat/cdcl/solver_core.cpp,
-- `propagate`).
use kmx_sat.Base.{
  ℕ, ◌≡◌, sym, subst, inl, inr, true, false, Option, none, some, List, [], ◌∷◌, arith, ◌==◌,
  Bool-cases, Entry, here, there, Entry-inv, Option-cases,
}
use kmx_sat.Literal.{Variable, Literal, variable_of}
use kmx_sat.Analyzer.Marking.{Distinct, Fresh}
use kmx_sat.SolverCore.{Value, is_falsified, find_replacement}

-- One entry of a list is taken out and another literal stands in its place.
pub data Swapped (k : Literal) : List Literal → Literal → List Literal → Type 0 where
  found : {c : Literal} {cs : List Literal} → Swapped k (c ∷ cs) c (k ∷ cs)
  skipped :
      {x r : Literal} {cs ds : List Literal} → Swapped k cs r ds → Swapped k (x ∷ cs) r (x ∷ ds)

-- What the search gives back: a literal that is not false, in whose place the falsified one
-- stands, or none when all are false.
abbrev pub Replacement :
    (ℕ → Value) → Literal → List Literal → Option (Literal × List Literal) → Type 0
Replacement values k cs none = (x : Literal) → Entry x cs → is_falsified (values x.raw) ≡ true
Replacement values k cs (some (r, ds)) = Swapped k cs r ds × (is_falsified (values r.raw) ≡ false)

pub find_replacement-Replacement :
    (values : ℕ → Value) (k : Literal) (cs : List Literal)
    → Replacement values k cs (find_replacement values k cs)
unfolding find_replacement
find_replacement-Replacement values k [] = λ x e. elim e [ ]
find_replacement-Replacement values k (c ∷ cs) = elim (Bool-cases (is_falsified (values c.raw))) [
  | inr n ↦ rw (n, find_replacement) (found, n)
  | inl f ↦
      let later = find_replacement-Replacement values k cs in
      elim (Option-cases (find_replacement values k cs)) [
        | inl e ↦
            let all = subst (Replacement values k cs) e later in
            rw (f, e, find_replacement)
              (λ x m. elim (Entry-inv m) [
                | inl h ↦ subst (λ (y : Literal). is_falsified (values y.raw) ≡ true) h f
                | inr t ↦ all x t
              ])
        | inr ((r, ds), e) ↦
            let one = subst (Replacement values k cs) e later in
            rw (f, e, find_replacement) (skipped one.0, one.1)
      ]
]

pub Swapped-Entry :
    {k r : Literal} {cs ds : List Literal}
    → Swapped k cs r ds
    → (x : Literal) → Entry x (k ∷ cs)
    → Entry x (r ∷ ds)
Swapped-Entry found x e = elim (Entry-inv e) [
  | inl h ↦ rw (sym h) (there here)
  | inr t ↦ elim (Entry-inv t) [ inl h ↦ rw (sym h) here | inr u ↦ there (there u) ]
]
Swapped-Entry (skipped s) x e = elim (Entry-inv e) [
  | inl h ↦ elim (Entry-inv (Swapped-Entry s _ here)) [
    | inl j ↦ rw (sym h, sym j) here
    | inr u ↦ rw (sym h) (there (there u))
  ]
  | inr t ↦ elim (Entry-inv t) [
    | inl h ↦ rw (sym h) (there here)
    | inr u ↦ elim (Entry-inv (Swapped-Entry s x (there u))) [
      | inl j ↦ rw (sym j) here
      | inr v ↦ there (there v)
    ]
  ]
]

pub Swapped-sym : {k r : Literal} {cs ds : List Literal} → Swapped k cs r ds → Swapped r ds k cs
Swapped-sym found = found
Swapped-sym (skipped s) = skipped (Swapped-sym s)

Swapped-Fresh :
    {k r : Literal} {cs ds : List Literal}
    → Swapped k cs r ds
    → (v : Variable) → Fresh v (k ∷ cs)
    → Fresh v (r ∷ ds)
Swapped-Fresh found v (a, (b, c)) = (b, (a, c))
Swapped-Fresh (skipped s) v (a, (b, c)) = let (p, q) = Swapped-Fresh s v (a, c) in (p, (b, q))

flip_test : (a b : ℕ) → (a == b) ≡ false → (b == a) ≡ false
flip_test a b h = ground arith

pub Swapped-Distinct :
    {k r : Literal} {cs ds : List Literal}
    → Swapped k cs r ds
    → Distinct (k ∷ cs)
    → Distinct (r ∷ ds)
Swapped-Distinct {k} (found {c}) h =
    ((flip_test (variable_of k) (variable_of c) h.0.0, h.1.0), (h.0.1, h.1.1))
Swapped-Distinct {k} {r} (skipped {x} s) h =
    let (fresh, rest) = Swapped-Distinct s (h.0.1, h.1.1) in
    let both =
      Swapped-Fresh s (variable_of x) (flip_test (variable_of k) (variable_of x) h.0.0, h.1.0) in
    ((flip_test (variable_of x) (variable_of r) both.0, fresh), (both.1, rest))

-- The list after the swap is not empty.
pub Swapped-nil :
    {k r : Literal} {cs ds : List Literal} → Swapped k cs r ds → cs ≡ [] → Swapped k [] r ds
Swapped-nil {k} {r} {cs} {ds} s e = subst (λ (x : List Literal). Swapped k x r ds) e s

-- ===== src/Analyzer/Marking.antt =====
-- Marked variables, and how many of them the rest of the trail has on the current level
-- (source/library/src/kmx/sat/cdcl/conflict_analyzer.cpp).
use kmx_sat.Base.{
  ℕ, ◌+◌, ◌<◌, ◌≡◌, refl, ap, sym, subst, ◌∙◌, inl, inr, Bool, true, false, ◌&&◌, ◌||◌, List, [],
  ◌∷◌, ◌++◌, arith, leb, ◌==◌, if◌then◌else◌, Bool-cases, Entry, here, there, Entry-inv,
}
use kmx_sat.Literal.{Variable, Literal, variable_of, negated}
use kmx_sat.Analyzer.{contains}

pub contains-append :
    (v w : ℕ) (vs : List ℕ) → contains v (vs ++ w ∷ []) ≡ (contains v vs || w == v)
unfolding contains
contains-append v w [] = ground arith
contains-append v w (u ∷ vs) = ground (arith, contains-append v w vs)

-- The literals falsified by a trail: their negations stand on it.
abbrev pub Falsified : List Literal → Literal → Type 0
Falsified trail c = Entry (negated c) trail

-- The variables of a list differ.
abbrev pub Fresh : Variable → List Literal → Type 0
Fresh v [] = Unit
Fresh v (t ∷ rest) = ((v == variable_of t) ≡ false) × Fresh v rest

abbrev pub Distinct : List Literal → Type 0
Distinct [] = Unit
Distinct (t ∷ rest) = Fresh (variable_of t) rest × Distinct rest

Fresh-push :
    (v : Variable) (l : Literal) (xs : List Literal)
    → Fresh v xs
    → (v == variable_of l) ≡ false
    → Fresh v (xs ++ l ∷ [])
Fresh-push v l [] h n = (n, tt)
Fresh-push v l (x ∷ xs) h n = (h.0, Fresh-push v l xs h.1 n)

pub Distinct-push :
    (l : Literal) (xs : List Literal)
    → Distinct xs
    → ((k : Literal) → Entry k xs → (variable_of k == variable_of l) ≡ false)
    → Distinct (xs ++ l ∷ [])
Distinct-push l [] h n = (tt, tt)
Distinct-push l (x ∷ xs) h n =
    (Fresh-push (variable_of x) l xs h.0 (n x here), Distinct-push l xs h.1 (λ k e. n k (there e)))

pub Fresh-Entry :
    (v : Variable) (rest : List Literal) (t : Literal)
    → Fresh v rest
    → Entry t rest
    → (v == variable_of t) ≡ false
Fresh-Entry v [] t h e = elim e [ ]
Fresh-Entry v (u ∷ rest) t h e = elim (Entry-inv e) [
  | inl first ↦ subst (λ x. (v == variable_of x) ≡ false) first h.0
  | inr later ↦ Fresh-Entry v rest t h.1 later
]

pub Distinct-eq :
    (xs : List Literal) (a b : Literal)
    → Distinct xs
    → Entry a xs
    → Entry b xs
    → variable_of a ≡ variable_of b
    → a ≡ b
Distinct-eq [] a b h ea eb same = elim ea [ ]
Distinct-eq (t ∷ rest) a b h ea eb same = elim (Entry-inv ea) [
  | inl first ↦ elim (Entry-inv eb) [
    | inl also ↦ sym first ∙ also
    | inr later ↦
        let miss = Fresh-Entry (variable_of t) rest b h.0 later in
        let hit = ap variable_of first ∙ same in ground (arith, miss, hit)
  ]
  | inr later ↦ elim (Entry-inv eb) [
    | inl also ↦
        let miss = Fresh-Entry (variable_of t) rest a h.0 later in
        let hit = ap variable_of also ∙ sym same in ground (arith, miss, hit)
    | inr both ↦ Distinct-eq rest a b h.1 later both same
  ]
]

module _ (level_of : Variable → ℕ) (current_level : ℕ) where
  abbrev pub counts : List ℕ → Literal → Bool
  counts seen t = contains (variable_of t) seen && leb current_level (level_of (variable_of t))

  -- How many literals still to walk are marked on the current level.
  abbrev pub open_count : List ℕ → List Literal → ℕ
  open_count seen [] = 0
  open_count seen (t ∷ rest) = (if counts seen t then 1 else 0) + open_count seen rest

  open_count-Fresh :
      (v : Variable) (seen : List ℕ) (rest : List Literal)
      → Fresh v rest
      → open_count (seen ++ v ∷ []) rest ≡ open_count seen rest
  open_count-Fresh v seen [] h = refl
  open_count-Fresh v seen (t ∷ rest) h =
      ground (arith, open_count-Fresh v seen rest h.1, contains-append (variable_of t) v seen)

  pub open_count-low :
      (v : Variable) (seen : List ℕ) (rest : List Literal)
      → level_of v < current_level
      → open_count (seen ++ v ∷ []) rest ≡ open_count seen rest
  open_count-low v seen [] h = refl
  open_count-low v seen (t ∷ rest) h = elim (Bool-cases (v == variable_of t)) [
    | inl same ↦
        let e : v ≡ variable_of t = ground arith in
        let low : leb current_level (level_of (variable_of t)) ≡ false =
          rw (sym e) (ground arith) in
        ground (arith, open_count-low v seen rest h)
    | inr other ↦
        ground (arith, open_count-low v seen rest h, contains-append (variable_of t) v seen)
  ]

  pub open_count-open :
      (t : Literal) (seen : List ℕ) (rest : List Literal)
      → Distinct rest
      → Entry t rest
      → contains (variable_of t) seen ≡ false
      → leb current_level (level_of (variable_of t)) ≡ true
      → open_count (seen ++ variable_of t ∷ []) rest ≡ open_count seen rest + 1
  open_count-open t seen [] h e new high = elim e [ ]
  open_count-open t seen (u ∷ rest) h e new high = elim (Entry-inv e) [
    | inl first ↦
        let rest_same =
          open_count-Fresh (variable_of t) seen rest
            (subst (λ x. Fresh (variable_of x) rest) first h.0) in
        let now = contains-append (variable_of t) (variable_of t) seen in
        subst
          (λ x. open_count (seen ++ variable_of t ∷ []) (x ∷ rest) ≡ open_count seen (x ∷ rest) + 1)
          (sym first) (ground (arith, rest_same, now, new, high))
    | inr later ↦
        let miss = Fresh-Entry (variable_of u) rest t h.0 later in
        let next = open_count-open t seen rest h.1 later new high in
        ground (arith, miss, next, contains-append (variable_of u) (variable_of t) seen)
  ]

-- ===== src/Analyzer/Kept.antt =====
-- What `analyze` keeps of the conflict clause
-- (source/library/src/kmx/sat/cdcl/conflict_analyzer.cpp).
use kmx_sat.Base.{
  ℕ, ◌<◌, ◌≡◌, refl, ap, sym, subst, ◌∙◌, ◌⊎◌, inl, inr, false, List, [], ◌∷◌, ◌++◌, append-nil,
  append_assoc, arith, ltb, ◌==◌, Bool-cases, Entry, here, there, Entry-inv, Entry-append,
  Entry-append_left, Entry-append_right,
}
use kmx_sat.Literal.{Variable, Literal, variable_of}
use kmx_sat.Analyzer.{has_variable, unique_from}
use kmx_sat.Analyzer.Levels.{drop_root_literals, pick_asserting}
use kmx_sat.Analyzer.Marking.{Distinct, Fresh, Fresh-Entry, Distinct-push}
use kmx_sat.Analyzer.Canonical.{has_variable-Entry}

has_variable-absent :
    (v : Variable) (ls : List Literal)
    → has_variable v ls ≡ false
    → (k : Literal) → Entry k ls
    → (variable_of k == v) ≡ false
unfolding has_variable
has_variable-absent v [] h k e = elim e [ ]
has_variable-absent v (l ∷ ls) h k e = elim (Entry-inv e) [
  | inl first ↦ subst (λ x. (variable_of x == v) ≡ false) first (ground (arith, h))
  | inr later ↦ has_variable-absent v ls (ground (arith, h)) k later
]

-- Every variable keeps a literal.
pub unique_from-covers :
    (kept ls : List Literal) (c : Literal)
    → Entry c kept ⊎ Entry c ls
    → (k : Literal) × Entry k (unique_from kept ls) × (variable_of k ≡ variable_of c)
unfolding unique_from
unique_from-covers kept [] c e = elim e [
  | inl k ↦ (c, k, refl)
  | inr none_left ↦ elim none_left [ ]
]
unique_from-covers kept (l ∷ ls) c e = elim (Bool-cases (has_variable (variable_of l) kept)) [
  | inl hit ↦ rw hit (elim e [
    | inl k ↦ unique_from-covers kept ls c (inl k)
    | inr r ↦ elim (Entry-inv r) [
      | inl first ↦
          let (k, on, same) = has_variable-Entry (variable_of l) kept hit in
          let (x, at, is) = unique_from-covers kept ls k (inl on) in
          (x, at, is ∙ same ∙ ap variable_of first)
      | inr later ↦ unique_from-covers kept ls c (inr later)
    ]
  ])
  | inr new ↦ rw new (elim e [
    | inl k ↦ unique_from-covers (kept ++ l ∷ []) ls c (inl (Entry-append_left (l ∷ []) k))
    | inr r ↦ elim (Entry-inv r) [
      | inl first ↦
          unique_from-covers (kept ++ l ∷ []) ls c
            (inl (Entry-append_right kept (subst (λ x. Entry x (l ∷ [])) first here)))
      | inr later ↦ unique_from-covers (kept ++ l ∷ []) ls c (inr later)
    ]
  ])
]

-- Every variable has one literal at most.
pub unique_from-Distinct : (kept ls : List Literal) → Distinct kept → Distinct (unique_from kept ls)
unfolding unique_from
unique_from-Distinct kept [] h = h
unique_from-Distinct kept (l ∷ ls) h = elim (Bool-cases (has_variable (variable_of l) kept)) [
  | inl hit ↦ rw hit (unique_from-Distinct kept ls h)
  | inr new ↦ rw new (
      unique_from-Distinct (kept ++ l ∷ []) ls
        (Distinct-push l kept h (has_variable-absent (variable_of l) kept new)))
]

module _ (level_of : Variable → ℕ) where
  pub drop_root_literals-Entry :
      (ls : List Literal) (c : Literal)
      → Entry c (drop_root_literals level_of ls)
      → Entry c ls × (0 < level_of (variable_of c))
  unfolding drop_root_literals
  drop_root_literals-Entry [] c e = elim e [ ]
  drop_root_literals-Entry (l ∷ ls) c e = elim (Bool-cases (level_of (variable_of l) == 0)) [
    | inl root ↦ let (a, b) = drop_root_literals-Entry ls c (rw root at e) in (there a, b)
    | inr high ↦
        let kept : Entry c (l ∷ drop_root_literals level_of ls) = rw high at e in
        elim (Entry-inv kept) [
          | inl first ↦ (
            subst (λ x. Entry x (l ∷ ls)) first here,
            subst (λ x. 0 < level_of (variable_of x)) first (ground (arith, high)),
          )
          | inr later ↦ let (a, b) = drop_root_literals-Entry ls c later in (there a, b)
        ]
  ]

  pub drop_root_literals-covers :
      (ls : List Literal) (c : Literal)
      → Entry c ls
      → 0 < level_of (variable_of c)
      → Entry c (drop_root_literals level_of ls)
  unfolding drop_root_literals
  drop_root_literals-covers [] c e high = e
  drop_root_literals-covers (l ∷ ls) c e high = elim (Bool-cases (level_of (variable_of l) == 0)) [
    | inl root ↦ rw root (elim (Entry-inv e) [
      | inl first ↦
          let same = ap (λ x. level_of (variable_of x)) first in
          absurd (ground (arith, same, root, high))
      | inr later ↦ drop_root_literals-covers ls c later high
    ])
    | inr deep ↦ rw deep (elim (Entry-inv e) [
      | inl first ↦ subst (λ x. Entry x (l ∷ drop_root_literals level_of ls)) first here
      | inr later ↦ there (drop_root_literals-covers ls c later high)
    ])
  ]

  pub drop_root_literals-Fresh :
      (v : Variable) (ls : List Literal) → Fresh v ls → Fresh v (drop_root_literals level_of ls)
  unfolding drop_root_literals
  drop_root_literals-Fresh v [] h = tt
  drop_root_literals-Fresh v (l ∷ ls) h =
      let rest = drop_root_literals-Fresh v ls h.1 in
      elim (Bool-cases (level_of (variable_of l) == 0)) [
        | inl root ↦ rw root rest
        | inr high ↦ rw high (h.0, rest)
      ]

  pub drop_root_literals-Distinct :
      (ls : List Literal) → Distinct ls → Distinct (drop_root_literals level_of ls)
  unfolding drop_root_literals
  drop_root_literals-Distinct [] h = tt
  drop_root_literals-Distinct (l ∷ ls) h =
      let rest = drop_root_literals-Distinct ls h.1 in
      elim (Bool-cases (level_of (variable_of l) == 0)) [
        | inl root ↦ rw root rest
        | inr high ↦ rw high (drop_root_literals-Fresh (variable_of l) ls h.0, rest)
      ]

-- The list `ys` is `xs` with one entry moved to the front.
pub record IsFronted (xs ys : List Literal) : Type 0 where
  pub front : Literal
  pub before : List Literal
  pub after : List Literal
  pub was : xs ≡ before ++ (front ∷ after)
  pub is : ys ≡ front ∷ (before ++ after)

pub pick_asserting-IsFronted :
    (level_of : Variable → ℕ) (before : List Literal) (best : Literal) (after ls : List Literal)
    → IsFronted (before ++ (best ∷ (after ++ ls))) (pick_asserting level_of before best after ls)
unfolding pick_asserting
pick_asserting-IsFronted level_of before best after [] = record {
  front = best;
  before = before;
  after = after;
  was = ap (λ r. before ++ (best ∷ r)) (append-nil after);
  is = refl;
}
pick_asserting-IsFronted level_of before best after (l ∷ ls) =
    elim (Bool-cases (ltb (level_of (variable_of best)) (level_of (variable_of l)))) [
      | inl higher ↦ rw higher (
          subst (λ xs. IsFronted xs (pick_asserting level_of (before ++ best ∷ after) l [] ls))
            (append_assoc before (best ∷ after) (l ∷ ls))
            (pick_asserting-IsFronted level_of (before ++ best ∷ after) l [] ls))
      | inr not_higher ↦ rw not_higher (
          subst
            (λ r.
              IsFronted (before ++ (best ∷ r))
                (pick_asserting level_of before best (after ++ l ∷ []) ls))
            (append_assoc after (l ∷ []) ls)
            (pick_asserting-IsFronted level_of before best (after ++ l ∷ []) ls))
    ]

Fresh-without :
    (v : Variable) (before : List Literal) (x : Literal) (after : List Literal)
    → Fresh v (before ++ (x ∷ after))
    → Fresh v (before ++ after)
Fresh-without v [] x after h = h.1
Fresh-without v (b ∷ before) x after h = (h.0, Fresh-without v before x after h.1)

Distinct-fronted :
    (before : List Literal) (x : Literal) (after : List Literal)
    → Distinct (before ++ (x ∷ after))
    → Distinct (x ∷ (before ++ after))
Distinct-fronted [] x after h = h
Distinct-fronted (b ∷ before) x after h =
    let (first, rest) = Distinct-fronted before x after h.1 in
    let apart =
      Fresh-Entry (variable_of b) (before ++ (x ∷ after)) x h.0 (Entry-append_right before here) in
    ((ground (arith, apart), first), (Fresh-without (variable_of b) before x after h.0, rest))

module _ {xs ys : List Literal} (f : IsFronted xs ys) where
  pub fronted-Entry : (c : Literal) → Entry c ys → Entry c xs
  fronted-Entry c e = subst (Entry c) (sym f.was) (elim (Entry-inv (subst (Entry c) f.is e)) [
    | inl first ↦
        subst (λ x. Entry x (f.before ++ (f.front ∷ f.after))) first
          (Entry-append_right f.before here)
    | inr later ↦ elim (Entry-append f.before f.after later) [
      | inl b ↦ Entry-append_left (f.front ∷ f.after) b
      | inr a ↦ Entry-append_right f.before (there a)
    ]
  ])

  pub fronted-covers : (c : Literal) → Entry c xs → Entry c ys
  fronted-covers c e =
      subst (Entry c) (sym f.is)
        (elim (Entry-append f.before (f.front ∷ f.after) (subst (Entry c) f.was e)) [
          | inl b ↦ there (Entry-append_left f.after b)
          | inr r ↦ elim (Entry-inv r) [
            | inl first ↦ subst (λ x. Entry x (f.front ∷ (f.before ++ f.after))) first here
            | inr a ↦ there (Entry-append_right f.before a)
          ]
        ])

  pub fronted-Distinct : Distinct xs → Distinct ys
  fronted-Distinct h =
      subst Distinct (sym f.is) (Distinct-fronted f.before f.front f.after (subst Distinct f.was h))

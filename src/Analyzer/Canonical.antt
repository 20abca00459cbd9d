-- ===== src/Analyzer/Canonical.antt =====
-- The learned clause under the sorting of the tail and the removal of duplicates
-- (source/library/src/kmx/sat/cdcl/conflict_analyzer.cpp).
use kmx_sat.Base.{
  ℕ, ◌≤◌, ◌<◌, ◌≡◌, refl, ap, sym, subst, ◌∙◌, ◌⊎◌, inl, inr, true, ◌||◌, List, [], ◌∷◌, ◌++◌,
  arith, ◌==◌, Bool-cases, Entry, here, there, Entry-inv, Entry-append, Entry-append_left,
  Entry-append_right, Entry-single,
}
use kmx_sat.Literal.{Variable, Literal, variable_of}
use kmx_sat.Literal.Meaning.{Assignment, literal_true, clause_true, clause_true-of_Entry}
use kmx_sat.Analyzer.{
  has_variable, unique_from, highest_level, insert_sorted, sort_tail, sorts_before,
}

module _ (level_of : Variable → ℕ) where
  insert_sorted-true :
      (m : Assignment) (l : Literal) (ks : List Literal)
      → clause_true m (insert_sorted level_of l ks) ≡ (literal_true m l || clause_true m ks)
  unfolding insert_sorted
  insert_sorted-true m l [] = refl
  insert_sorted-true m l (k ∷ ks) = ground (arith, insert_sorted-true m l ks)

  pub sort_tail-true :
      (m : Assignment) (ls : List Literal)
      → clause_true m (sort_tail level_of ls) ≡ clause_true m ls
  unfolding sort_tail
  sort_tail-true m [] = refl
  sort_tail-true m (l ∷ ls) =
      insert_sorted-true m l (sort_tail level_of ls)
      ∙ ap (λ b. literal_true m l || b) (sort_tail-true m ls)

  insert_sorted-Entry :
      (l : Literal) (ks : List Literal) (c : Literal)
      → Entry c (insert_sorted level_of l ks)
      → Entry c (l ∷ ks)
  unfolding insert_sorted
  insert_sorted-Entry l [] c e = e
  insert_sorted-Entry l (k ∷ ks) c e = elim (Bool-cases (sorts_before level_of k l)) [
    | inl later ↦
        let e' : Entry c (k ∷ insert_sorted level_of l ks) = rw later at e in
        elim (Entry-inv e') [
          | inl first ↦ subst (λ x. Entry x (l ∷ k ∷ ks)) first (there here)
          | inr rest ↦ elim (Entry-inv (insert_sorted-Entry l ks c rest)) [
            | inl new ↦ subst (λ x. Entry x (l ∷ k ∷ ks)) new here
            | inr old ↦ there (there old)
          ]
        ]
    | inr before ↦ rw before at e
  ]

  pub sort_tail-Entry :
      (ls : List Literal) (c : Literal) → Entry c (sort_tail level_of ls) → Entry c ls
  unfolding sort_tail
  sort_tail-Entry [] c e = e
  sort_tail-Entry (l ∷ ls) c e =
      elim (Entry-inv (insert_sorted-Entry l (sort_tail level_of ls) c e)) [
        | inl first ↦ subst (λ x. Entry x (l ∷ ls)) first here
        | inr rest ↦ there (sort_tail-Entry ls c rest)
      ]

  pub highest_level-bounds :
      (ls : List Literal) (c : Literal)
      → Entry c ls
      → level_of (variable_of c) ≤ highest_level level_of ls
  unfolding highest_level
  highest_level-bounds [] c e = elim e [ ]
  highest_level-bounds (l ∷ ls) c e = elim (Entry-inv e) [
    | inl first ↦
        subst (λ x. level_of (variable_of x) ≤ highest_level level_of (l ∷ ls)) first (ground arith)
    | inr rest ↦ let below = highest_level-bounds ls c rest in ground (arith, below)
  ]

  pub highest_level-below :
      (ls : List Literal) (bound : ℕ)
      → 0 < bound
      → ((c : Literal) → Entry c ls → level_of (variable_of c) < bound)
      → highest_level level_of ls < bound
  unfolding highest_level
  highest_level-below [] bound positive h = positive
  highest_level-below (l ∷ ls) bound positive h =
      let rest = highest_level-below ls bound positive (λ c e. h c (there e)) in
      let first = h l here in ground (arith, rest, first)

pub has_variable-Entry :
    (v : Variable) (ls : List Literal)
    → has_variable v ls ≡ true
    → (k : Literal) × Entry k ls × (variable_of k ≡ v)
unfolding has_variable
has_variable-Entry v [] h = absurd cc
has_variable-Entry v (l ∷ ls) h = elim (Bool-cases (variable_of l == v)) [
  | inl hit ↦ (l, here, ground arith)
  | inr miss ↦ let (k, e, s) = has_variable-Entry v ls (rw miss at h) in (k, there e, s)
]

-- The literal kept first stays in front, and the others are kept or copied ones.
pub unique_from-front :
    (a : Literal) (kept ls : List Literal)
    → (rest : List Literal) × (unique_from (a ∷ kept) ls ≡ a ∷ rest)
      × ((c : Literal) → Entry c rest → Entry c kept ⊎ Entry c ls)
unfolding unique_from
unique_from-front a kept [] = (kept, refl, λ c e. inl e)
unique_from-front a kept (l ∷ ls) = elim (Bool-cases (has_variable (variable_of l) (a ∷ kept))) [
  | inl hit ↦
      let (rest, e, from) = unique_from-front a kept ls in
      (rest, rw hit e, λ c on. (elim (from c on) [ inl k ↦ inl k | inr r ↦ inr (there r) ]))
  | inr new ↦
      let (rest, e, from) = unique_from-front a (kept ++ l ∷ []) ls in
      (
        rest,
        rw new e,
        λ c on. (elim (from c on) [
          | inl k ↦ elim (Entry-append kept (l ∷ []) k) [
            | inl old ↦ inl old
            | inr last ↦ inr (subst (λ x. Entry x (l ∷ ls)) (sym (Entry-single last)) here)
          ]
          | inr r ↦ inr (there r)
        ]),
      )
]

-- No literal that makes the clause true is lost, where one variable has one literal.
pub unique_from-true :
    (m : Assignment) (kept ls : List Literal)
    → ((a b : Literal) → Entry a kept → Entry b ls → variable_of a ≡ variable_of b → a ≡ b)
    → ((a b : Literal) → Entry a ls → Entry b ls → variable_of a ≡ variable_of b → a ≡ b)
    → (c : Literal) → Entry c kept ⊎ Entry c ls
    → literal_true m c ≡ true
    → clause_true m (unique_from kept ls) ≡ true
unfolding unique_from
unique_from-true m kept [] same within c e h = elim e [
  | inl k ↦ clause_true-of_Entry m kept k h
  | inr none_left ↦ elim none_left [ ]
]
unique_from-true m kept (l ∷ ls) same within c e h =
    elim (Bool-cases (has_variable (variable_of l) kept)) [
      | inl hit ↦
          let (k, on, v) = has_variable-Entry (variable_of l) kept hit in
          rw hit (
            unique_from-true m kept ls (λ a b ea eb s. same a b ea (there eb) s)
              (λ a b ea eb s. within a b (there ea) (there eb) s) c
              (elim e [
                | inl old ↦ inl old
                | inr rest ↦ elim (Entry-inv rest) [
                  | inl first ↦ inl (subst (λ x. Entry x kept) (same k l on here v ∙ first) on)
                  | inr later ↦ inr later
                ]
              ])
              h)
      | inr new ↦ rw new (
          unique_from-true m (kept ++ l ∷ []) ls
            (λ a b ea eb s. (elim (Entry-append kept (l ∷ []) ea) [
              | inl old ↦ same a b old (there eb) s
              | inr last ↦
                  within a b (subst (λ x. Entry x (l ∷ ls)) (sym (Entry-single last)) here)
                    (there eb) s
            ]))
            (λ a b ea eb s. within a b (there ea) (there eb) s) c
            (elim e [
              | inl old ↦ inl (Entry-append_left (l ∷ []) old)
              | inr rest ↦ elim (Entry-inv rest) [
                | inl first ↦
                    inl (Entry-append_right kept (subst (λ x. Entry x (l ∷ [])) first here))
                | inr later ↦ inr later
              ]
            ])
            h)
    ]

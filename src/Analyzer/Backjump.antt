-- ===== src/Analyzer/Backjump.antt =====
-- The highest and the second highest of the levels that `analyze` is told
-- (source/library/src/kmx/sat/cdcl/conflict_analyzer.cpp).
use kmx_sat.Base.{
  ℕ, ◌≤◌, ◌<◌, ◌≡◌, refl, ap, sym, subst, inl, inr, false, ◌&&◌, List, [], ◌∷◌, ◌++◌, arith, ltb,
  if◌then◌else◌, Bool-cases, length, Entry, here, there, Entry-inv, Entry-append, Entry-append_left,
  Entry-append_right, Entry-single,
}
use kmx_sat.Literal.{Variable, Literal, variable_of}
use kmx_sat.Analyzer.Levels.{pick_asserting, second_highest}

module _ (level_of : Variable → ℕ) where
  -- The highest level comes first.
  pub record Leads (xs : List Literal) : Type 0 where
    pub first : Literal
    pub others : List Literal
    pub shape : xs ≡ first ∷ others
    pub highest :
        (c : Literal) → Entry c xs → level_of (variable_of c) ≤ level_of (variable_of first)

  pub pick_asserting-Leads :
      (before : List Literal) (best : Literal) (after ls : List Literal)
      → ((c : Literal)
          → Entry c (before ++ after)
          → level_of (variable_of c) ≤ level_of (variable_of best))
      → Leads (pick_asserting level_of before best after ls)
  unfolding pick_asserting
  pick_asserting-Leads before best after [] h = record {
    first = best;
    others = before ++ after;
    shape = refl;
    highest = λ c e. (elim (Entry-inv e) [
      | inl first ↦
          subst (λ x. level_of (variable_of x) ≤ level_of (variable_of best)) first (omega arith)
      | inr rest ↦ h c rest
    ]);
  }
  pick_asserting-Leads before best after (l ∷ ls) h =
      elim (Bool-cases (ltb (level_of (variable_of best)) (level_of (variable_of l)))) [
        | inl higher ↦ rw higher (
            pick_asserting-Leads (before ++ best ∷ after) l [] ls (λ c e.
              (elim (Entry-append (before ++ best ∷ after) [] e) [
                | inl passed ↦ elim (Entry-append before (best ∷ after) passed) [
                  | inl b ↦ let old = h c (Entry-append_left after b) in ground (arith, old, higher)
                  | inr r ↦ elim (Entry-inv r) [
                    | inl first ↦
                        subst (λ x. level_of (variable_of x) ≤ level_of (variable_of l)) first
                          (ground (arith, higher))
                    | inr a ↦
                        let old = h c (Entry-append_right before a) in ground (arith, old, higher)
                  ]
                ]
                | inr none_left ↦ elim none_left [ ]
              ])))
        | inr not_higher ↦ rw not_higher (
            pick_asserting-Leads before best (after ++ l ∷ []) ls (λ c e.
              (elim (Entry-append before (after ++ l ∷ []) e) [
                | inl b ↦ h c (Entry-append_left after b)
                | inr r ↦ elim (Entry-append after (l ∷ []) r) [
                  | inl a ↦ h c (Entry-append_right before a)
                  | inr last ↦
                      subst (λ x. level_of (variable_of x) ≤ level_of (variable_of best))
                        (sym (Entry-single last)) (ground (arith, not_higher))
                ]
              ])))
      ]

  -- The second highest level, of levels up to `top`.
  pub record Second (top second : ℕ) (ls : List Literal) (r : ℕ) : Type 0 where
    pub starts : second ≤ r
    pub covers :
        (c : Literal) → Entry c ls → level_of (variable_of c) < top → level_of (variable_of c) ≤ r
    pub below : second < top → r < top

  second_highest-Second :
      (top second : ℕ) (ls : List Literal)
      → ((c : Literal) → Entry c ls → level_of (variable_of c) ≤ top)
      → Second top second ls (second_highest level_of top second ls)
  unfolding second_highest
  second_highest-Second top second [] h = record {
    starts = omega arith;
    covers = λ c e b. (elim e [ ]);
    below = λ b. b;
  }
  second_highest-Second top second (l ∷ ls) h =
      let within = h l here in
      let level = level_of (variable_of l) in
      let not_above : ltb top level ≡ false = ground (arith, within) in
      elim (Bool-cases (ltb level top && ltb second level)) [
        | inl raised ↦
            let rest = second_highest-Second top level ls (λ c e. h c (there e)) in
            rw (not_above, raised)
              (record {
                starts = ground (arith, rest.starts, raised);
                covers = λ c e b. (elim (Entry-inv e) [
                  | inl first ↦
                      subst (λ x. level_of (variable_of x) ≤ second_highest level_of top level ls)
                        first rest.starts
                  | inr later ↦ rest.covers c later b
                ]);
                below = λ b. rest.below (ground (arith, raised));
              })
        | inr kept ↦
            let rest = second_highest-Second top second ls (λ c e. h c (there e)) in
            rw (not_above, kept)
              (record {
                starts = rest.starts;
                covers = λ c e b. (elim (Entry-inv e) [
                  | inl first ↦
                      let low : level < top =
                        subst (λ x. level_of (variable_of x) < top) (sym first) b in
                      subst (λ x. level_of (variable_of x) ≤ second_highest level_of top second ls)
                        first (ground (arith, low, kept, rest.starts))
                  | inr later ↦ rest.covers c later b
                ]);
                below = rest.below;
              })
      ]

  second_highest-first :
      (first : Literal) (others : List Literal)
      → second_highest level_of 0 0 (first ∷ others)
        ≡ second_highest level_of (level_of (variable_of first)) 0 others
  unfolding second_highest
  second_highest-first first others = elim (Bool-cases (ltb 0 (level_of (variable_of first)))) [
    | inl above ↦ rw above refl
    | inr root ↦ let e : level_of (variable_of first) ≡ 0 = ground (arith, root) in rw e refl
  ]

  -- From a list that its highest level leads.
  Leads-Second :
      (first : Literal) (others : List Literal)
      → ((c : Literal)
          → Entry c (first ∷ others)
          → level_of (variable_of c) ≤ level_of (variable_of first))
      → Second
          (level_of (variable_of first))
          0
          (first ∷ others)
          (second_highest level_of 0 0 (first ∷ others))
  Leads-Second first others h =
      let rest =
        second_highest-Second (level_of (variable_of first)) 0 others (λ c e. h c (there e)) in
      subst (Second (level_of (variable_of first)) 0 (first ∷ others))
        (sym (second_highest-first first others))
        (record {
          starts = rest.starts;
          covers = λ c e b. (elim (Entry-inv e) [
            | inl same ↦
                let level = ap (λ x. level_of (variable_of x)) same in
                absurd (omega (arith, level, b))
            | inr later ↦ rest.covers c later b
          ]);
          below = rest.below;
        })

-- What `second_highest_decision_level` computes of a learned clause.
abbrev pub level_after : (Variable → ℕ) → List Literal → ℕ
level_after level_of xs = if ltb (length xs) 2 then 0 else second_highest level_of 0 0 xs

pub level_after-Second :
    (level_of : Variable → ℕ) (first : Literal) (others : List Literal)
    → ((c : Literal)
        → Entry c (first ∷ others)
        → level_of (variable_of c) ≤ level_of (variable_of first))
    → Second level_of
        (level_of (variable_of first))
        0
        (first ∷ others)
        (level_after level_of (first ∷ others))
level_after-Second level_of first [] h = record {
  starts = omega arith;
  covers = λ c e b. (elim (Entry-inv e) [
    | inl same ↦
        let level = ap (λ x. level_of (variable_of x)) same in absurd (omega (arith, level, b))
    | inr later ↦ elim later [ ]
  ]);
  below = λ b. b;
}
level_after-Second level_of first (o ∷ os) h =
    let long : ltb (length (first ∷ o ∷ os)) 2 ≡ false = ground arith in
    rw long (Leads-Second level_of first (o ∷ os) h)

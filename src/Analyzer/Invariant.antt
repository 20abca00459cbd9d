-- ===== src/Analyzer/Invariant.antt =====
-- The state of the analysis while the literals of a clause are marked
-- (source/library/src/kmx/sat/cdcl/conflict_analyzer.cpp).
use kmx_sat.Base.{
  ℕ, ◌+◌, ◌<◌, ◌≡◌, ap, sym, subst, ◌∙◌, inl, inr, true, false, Option, List, [], ◌∷◌, ◌++◌, arith,
  leb, ◌==◌, Bool-cases, Entry, here, there, Entry-inv, Entry-append, Entry-append_left,
  Entry-append_right, Entry-single,
}
use kmx_sat.Literal.{Variable, Literal, variable_of, negated}
use kmx_sat.Literal.Encoding.{variable_of-negated, negated-negated}
use kmx_sat.Analyzer.{Marks, contains, is_pivot, mark_literal, mark_literals}
use kmx_sat.Analyzer.Marking.{
  contains-append, Falsified, open_count, Distinct, Distinct-eq, open_count-low, open_count-open,
}

module _ (level_of : Variable → ℕ) (current_level : ℕ) where
  -- What marking one literal does, by cases.
  data Outcome (pivot : Option Literal) (m : Marks) (c : Literal) : Marks → Type 0 where
    passed : is_pivot pivot c ≡ true → Outcome pivot m c m
    again : contains (variable_of c) m.seen ≡ true → Outcome pivot m c m
    root :
        contains (variable_of c) m.seen ≡ false
        → level_of (variable_of c) ≡ 0
        → Outcome pivot m c
            (record m { seen = m.seen ++ variable_of c ∷ []; bump = m.bump ++ variable_of c ∷ [] })
    opened :
        contains (variable_of c) m.seen ≡ false
        → leb current_level (level_of (variable_of c)) ≡ true
        → Outcome pivot m c (record m {
          seen = m.seen ++ variable_of c ∷ [];
          bump = m.bump ++ variable_of c ∷ [];
          unresolved = m.unresolved + 1;
        })
    kept :
        contains (variable_of c) m.seen ≡ false
        → 0 < level_of (variable_of c)
        → level_of (variable_of c) < current_level
        → Outcome pivot m c (record m {
          seen = m.seen ++ variable_of c ∷ [];
          bump = m.bump ++ variable_of c ∷ [];
          tail = m.tail ++ c ∷ [];
        })

  mark_literal-Outcome :
      (pivot : Option Literal) (m : Marks) (c : Literal)
      → Outcome pivot m c (mark_literal level_of current_level pivot m c)
  unfolding mark_literal
  mark_literal-Outcome pivot m c = elim (Bool-cases (is_pivot pivot c)) [
    | inl p ↦ rw p (passed p)
    | inr n ↦ elim (Bool-cases (contains (variable_of c) m.seen)) [
      | inl s ↦ rw (n, s) (again s)
      | inr new ↦ elim (Bool-cases (level_of (variable_of c) == 0)) [
        | inl zero_level ↦ rw (n, new, zero_level) (root new (ground arith))
        | inr above ↦ elim (Bool-cases (leb current_level (level_of (variable_of c)))) [
          | inl high ↦ rw (n, new, above, high) (opened new high)
          | inr low ↦ rw (n, new, above, low) (kept new (ground arith) (ground arith))
        ]
      ]
    ]
  ]

  -- The state of the analysis, with the whole trail and what is left of it to walk.
  pub record Marked (trail rest : List Literal) (m : Marks) : Type 0 where
    pub count : m.unresolved ≡ open_count level_of current_level m.seen rest
    pub keeps :
        (c : Literal)
        → Falsified trail c
        → contains (variable_of c) m.seen ≡ true
        → 0 < level_of (variable_of c)
        → level_of (variable_of c) < current_level
        → Entry c m.tail
    pub tail_low : (c : Literal) → Entry c m.tail → level_of (variable_of c) < current_level
    pub tail_falsified : (c : Literal) → Entry c m.tail → Falsified trail c

  -- What was marked or kept stays so.
  pub record Grows (m n : Marks) : Type 0 where
    pub seen : (v : ℕ) → contains v m.seen ≡ true → contains v n.seen ≡ true
    pub tail : (c : Literal) → Entry c m.tail → Entry c n.tail

  Outcome-Grows :
      {pivot : Option Literal} {m : Marks} {c : Literal} {n : Marks}
      → Outcome pivot m c n
      → Grows m n
  Outcome-Grows (passed p) = record { seen = λ v h. h; tail = λ c e. e }
  Outcome-Grows (again s) = record { seen = λ v h. h; tail = λ c e. e }
  Outcome-Grows {m} {c} (root new low) = record {
    seen = λ v h. (ground (arith, contains-append v (variable_of c) m.seen));
    tail = λ d e. e;
  }
  Outcome-Grows {m} {c} (opened new high) = record {
    seen = λ v h. (ground (arith, contains-append v (variable_of c) m.seen));
    tail = λ d e. e;
  }
  Outcome-Grows {m} {c} (kept new above low) = record {
    seen = λ v h. (ground (arith, contains-append v (variable_of c) m.seen));
    tail = λ d e. Entry-append_left (c ∷ []) e;
  }

  Outcome-seen :
      {pivot : Option Literal} {m : Marks} {c : Literal} {n : Marks}
      → Outcome pivot m c n
      → is_pivot pivot c ≡ false
      → contains (variable_of c) n.seen ≡ true
  Outcome-seen (passed p) h = absurd cc
  Outcome-seen (again s) h = s
  Outcome-seen {m} {c} (root new low) h =
      ground (arith, contains-append (variable_of c) (variable_of c) m.seen)
  Outcome-seen {m} {c} (opened new high) h =
      ground (arith, contains-append (variable_of c) (variable_of c) m.seen)
  Outcome-seen {m} {c} (kept new above low) h =
      ground (arith, contains-append (variable_of c) (variable_of c) m.seen)

  -- Only a literal that is not kept in the tail may join the marked variables without it.
  keeps_more :
      {trail rest : List Literal} {m : Marks} (c : Literal) (tail : List Literal)
      → Distinct trail
      → Falsified trail c
      → Marked trail rest m
      → ((d : Literal) → Entry d m.tail → Entry d tail)
      → (0 < level_of (variable_of c) → level_of (variable_of c) < current_level → Entry c tail)
      → (d : Literal) → Falsified trail d
      → contains (variable_of d) (m.seen ++ variable_of c ∷ []) ≡ true
      → 0 < level_of (variable_of d)
      → level_of (variable_of d) < current_level
      → Entry d tail
  keeps_more {trail} {rest} {m} c tail distinct on inv grow own d off seen above low =
      elim (Bool-cases (contains (variable_of d) m.seen)) [
        | inl before ↦ grow d (inv.keeps d off before above low)
        | inr now ↦
            let same : variable_of c ≡ variable_of d =
              ground (arith, contains-append (variable_of d) (variable_of c) m.seen) in
            let complements =
              Distinct-eq trail (negated c) (negated d) distinct on off
                (variable_of-negated c ∙ same ∙ sym (variable_of-negated d)) in
            let equal : c ≡ d =
              sym (negated-negated c) ∙ ap negated complements ∙ negated-negated d in
            subst (λ x. Entry x tail) equal
              (own (subst (λ v. 0 < level_of v) (sym same) above)
                (subst (λ v. level_of v < current_level) (sym same) low))
      ]

  Outcome-Marked :
      {pivot : Option Literal} {trail rest : List Literal} {m : Marks} {c : Literal} {n : Marks}
      → 0 < current_level
      → Distinct trail
      → Distinct rest
      → ((t : Literal) → Entry t rest → Entry t trail)
      → (is_pivot pivot c ≡ false → Falsified rest c)
      → is_pivot pivot c ≡ false
      → Marked trail rest m
      → Outcome pivot m c n
      → Marked trail rest n
  Outcome-Marked positive distinct distinct_rest sub off other inv (passed p) = inv
  Outcome-Marked positive distinct distinct_rest sub off other inv (again s) = inv
  Outcome-Marked {rest} {m} {c} positive distinct distinct_rest sub off other inv
        (root new zero_level) =
      let low : level_of (variable_of c) < current_level = omega arith in
      record {
        count =
            inv.count ∙ sym (open_count-low level_of current_level (variable_of c) m.seen rest low);
        keeps =
            keeps_more c m.tail distinct (sub (negated c) (off other)) inv (λ d e. e)
              (λ above below. absurd (omega arith));
        tail_low = inv.tail_low;
        tail_falsified = inv.tail_falsified;
      }
  Outcome-Marked {rest} {m} {c} positive distinct distinct_rest sub off other inv
        (opened new high) =
      let v = variable_of-negated c in
      let more =
        open_count-open level_of current_level (negated c) m.seen rest distinct_rest (off other)
          (subst (λ w. contains w m.seen ≡ false) (sym v) new)
          (subst (λ w. leb current_level (level_of w) ≡ true) (sym v) high) in
      let counted =
        subst
          (λ w.
            open_count level_of current_level (m.seen ++ w ∷ []) rest
            ≡ open_count level_of current_level m.seen rest + 1)
          v more in
      record {
        count = ap (λ n. n + 1) inv.count ∙ sym counted;
        keeps =
            keeps_more c m.tail distinct (sub (negated c) (off other)) inv (λ d e. e)
              (λ above below. absurd (ground arith));
        tail_low = inv.tail_low;
        tail_falsified = inv.tail_falsified;
      }
  Outcome-Marked {rest} {m} {c} positive distinct distinct_rest sub off other inv
        (kept new above low) =
      record {
        count =
            inv.count ∙ sym (open_count-low level_of current_level (variable_of c) m.seen rest low);
        keeps =
            keeps_more c (m.tail ++ c ∷ []) distinct (sub (negated c) (off other)) inv
              (λ d e. Entry-append_left (c ∷ []) e)
              (λ positive_level below. Entry-append_right m.tail here);
        tail_low = λ d e. (elim (Entry-append m.tail (c ∷ []) e) [
          | inl old ↦ inv.tail_low d old
          | inr last ↦
              subst (λ x. level_of (variable_of x) < current_level) (sym (Entry-single last)) low
        ]);
        tail_falsified = λ d e. (elim (Entry-append m.tail (c ∷ []) e) [
          | inl old ↦ inv.tail_falsified d old
          | inr last ↦ subst (Falsified _) (sym (Entry-single last)) (sub (negated c) (off other))
        ]);
      }

  mark_literal-Marked :
      {trail rest : List Literal} (pivot : Option Literal) (m : Marks) (c : Literal)
      → 0 < current_level
      → Distinct trail
      → Distinct rest
      → ((t : Literal) → Entry t rest → Entry t trail)
      → (is_pivot pivot c ≡ false → Falsified rest c)
      → Marked trail rest m
      → Marked trail rest (mark_literal level_of current_level pivot m c)
  unfolding mark_literal
  mark_literal-Marked pivot m c positive distinct distinct_rest sub off inv =
      elim (Bool-cases (is_pivot pivot c)) [
        | inl p ↦ rw p inv
        | inr other ↦
            Outcome-Marked positive distinct distinct_rest sub off other inv
              (mark_literal-Outcome pivot m c)
      ]

  -- Marking the literals of a clause keeps the state, and marks every one not passed over.
  pub mark_literals-Marked :
      {trail rest : List Literal} (pivot : Option Literal) (cs : List Literal) (m : Marks)
      → 0 < current_level
      → Distinct trail
      → Distinct rest
      → ((t : Literal) → Entry t rest → Entry t trail)
      → ((c : Literal) → Entry c cs → is_pivot pivot c ≡ false → Falsified rest c)
      → Marked trail rest m
      → Marked trail rest (mark_literals level_of current_level pivot m cs)
  unfolding mark_literals
  mark_literals-Marked pivot [] m positive distinct distinct_rest sub off inv = inv
  mark_literals-Marked pivot (c ∷ cs) m positive distinct distinct_rest sub off inv =
      mark_literals-Marked pivot cs (mark_literal level_of current_level pivot m c) positive
        distinct distinct_rest sub (λ d e. off d (there e))
        (mark_literal-Marked pivot m c positive distinct distinct_rest sub (off c here) inv)

  pub mark_literals-Grows :
      (pivot : Option Literal) (cs : List Literal) (m : Marks)
      → Grows m (mark_literals level_of current_level pivot m cs)
  unfolding mark_literals
  mark_literals-Grows pivot [] m = record { seen = λ v h. h; tail = λ c e. e }
  mark_literals-Grows pivot (c ∷ cs) m =
      let one = Outcome-Grows (mark_literal-Outcome pivot m c) in
      let more = mark_literals-Grows pivot cs (mark_literal level_of current_level pivot m c) in
      record { seen = λ v h. more.seen v (one.seen v h); tail = λ d e. more.tail d (one.tail d e) }

  pub mark_literals-seen :
      (pivot : Option Literal) (cs : List Literal) (m : Marks) (c : Literal)
      → Entry c cs
      → is_pivot pivot c ≡ false
      → contains (variable_of c) (mark_literals level_of current_level pivot m cs).seen ≡ true
  unfolding mark_literals
  mark_literals-seen pivot [] m c e h = elim e [ ]
  mark_literals-seen pivot (d ∷ cs) m c e h =
      let next = mark_literal level_of current_level pivot m d in
      elim (Entry-inv e) [
        | inl first ↦
            let other : is_pivot pivot d ≡ false =
              subst (λ x. is_pivot pivot x ≡ false) (sym first) h in
            let now = Outcome-seen (mark_literal-Outcome pivot m d) other in
            (mark_literals-Grows pivot cs next).seen (variable_of c)
              (subst (λ x. contains (variable_of x) next.seen ≡ true) first now)
        | inr later ↦ mark_literals-seen pivot cs next c later h
      ]

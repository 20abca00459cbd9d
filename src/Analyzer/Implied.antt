-- ===== src/Analyzer/Implied.antt =====
-- What `analyze_via_resolution` learns
-- (source/library/src/kmx/sat/cdcl/conflict_analyzer.cpp).
use kmx_sat.Base.{
  ℕ, suc, ◌+◌, ◌≤◌, ◌<◌, ◌≡◌, refl, ap, sym, subst, ◌∙◌, ◌⊎◌, inl, inr, true, ◌||◌, Option, none,
  some, List, [], ◌∷◌, reverse, arith, length, Entry, here, there, Entry-inv,
}
use mathlib.Core.List.{reverse_aux}
use kmx_sat.Literal.{Variable, Literal, variable_of, negated}
use kmx_sat.Literal.Encoding.{variable_of-negated, negated-negated}
use kmx_sat.Literal.Meaning.{Assignment, literal_true, clause_true, Entry-of_clause_true}
use kmx_sat.Analyzer.{
  ConflictAnalyzer, Marks, is_pivot, no_marks, resolve_conflict, unique, unique_from, sort_tail,
  highest_level, split_asserting, learn, analyze_via_resolution, contains, has_variable,
}
use kmx_sat.Analyzer.Marking.{Falsified, Distinct, Distinct-eq, open_count}
use kmx_sat.Analyzer.Invariant.{Marked}
use kmx_sat.Analyzer.Search.{Justified, Justified-Distinct}
use kmx_sat.Analyzer.Live.{Derived, RootTrue}
use kmx_sat.Analyzer.Learned.{resolve_loop-Derived}
use kmx_sat.Analyzer.Canonical.{
  sort_tail-true, sort_tail-Entry, highest_level-bounds, highest_level-below, unique_from-front,
  unique_from-true,
}

length-reverse_aux : (xs acc : List Literal) → length (reverse_aux xs acc) ≡ length xs + length acc
length-reverse_aux [] acc = omega arith
length-reverse_aux (x ∷ xs) acc = omega (arith, length-reverse_aux xs (x ∷ acc))

length-reversed : (xs : List Literal) → length (reverse xs) ≡ length xs
length-reversed xs = omega (arith, length-reverse_aux xs [])

list_cases {ℓ} : {A : Type ℓ} (xs : List A) → (xs ≡ []) ⊎ ((x : A) × (ys : List A) × (xs ≡ x ∷ ys))
list_cases [] = inl refl
list_cases (x ∷ ys) = inr (x, ys, refl)

learn-split :
    (level_of : Variable → ℕ) (s : ConflictAnalyzer) (r : Option Literal × Marks) (a : Literal)
    (tail : List Literal)
    → split_asserting r ≡ some (a, tail)
    → ((learn level_of s r).learned_literals ≡ unique (a ∷ sort_tail level_of tail))
      × ((learn level_of s r).backjump_level ≡ highest_level level_of tail)
unfolding learn
learn-split level_of s r a tail e = (rw (e, learn) refl, rw (e, learn) refl)

module _ (level_of : Variable → ℕ) (current_level : ℕ) (reason_of : Variable → List Literal)
    (m : Assignment) (trail : List Literal) where
  -- The asserting literal and the tail that the loop's result splits into.
  record Split (r : Option Literal × Marks) : Type 0 where
    asserting : Literal
    tail : List Literal
    splits : split_asserting r ≡ some (asserting, tail)
    holds : clause_true m (asserting ∷ tail) ≡ true
    falsified : (c : Literal) → Entry c (asserting ∷ tail) → Falsified trail c
    low : (c : Literal) → Entry c tail → level_of (variable_of c) < current_level

  Derived-Split :
      (r : Option Literal × Marks) → Derived level_of current_level reason_of m trail r → Split r
  unfolding split_asserting
  Derived-Split (some p, marks) d = record {
    asserting = negated p;
    tail = marks.tail;
    splits = refl;
    holds = d.holds;
    falsified = λ c e. (elim (Entry-inv e) [
      | inl first ↦
          subst (Falsified trail) first
            (subst (λ x. Entry x trail) (sym (negated-negated p)) d.pivot.0)
      | inr rest ↦ d.tail_falsified c rest
    ]);
    low = d.tail_low;
  }
  Derived-Split (none, marks) d = elim (list_cases marks.tail) [
    | inl e ↦ let h = d.holds in absurd (let g = rw e at h in cc)
    | inr (a, tail, e) ↦ record {
      asserting = a;
      tail = tail;
      splits = rw e refl;
      holds = subst (λ x. clause_true m x ≡ true) e d.holds;
      falsified = λ c on. d.tail_falsified c (subst (Entry c) (sym e) on);
      low = λ c on. d.tail_low c (subst (Entry c) (sym e) (there on));
    }
  ]

  learned-true :
      (s : ConflictAnalyzer) (r : Option Literal × Marks)
      → Distinct trail
      → Split r
      → clause_true m (learn level_of s r).learned_literals ≡ true
  unfolding unique
  learned-true s r distinct split =
      let clause = split.asserting ∷ sort_tail level_of split.tail in
      let back : (c : Literal) → Entry c clause → Entry c (split.asserting ∷ split.tail) = λ c e.
        (elim (Entry-inv e) [
          | inl first ↦ subst (λ x. Entry x (split.asserting ∷ split.tail)) first here
          | inr rest ↦ there (sort_tail-Entry level_of split.tail c rest)
        ]) in
      let sorted : clause_true m clause ≡ true =
        ap (λ b. literal_true m split.asserting || b) (sort_tail-true level_of m split.tail)
        ∙ split.holds in
      let (c, on, truth) = Entry-of_clause_true m clause sorted in
      let within : (a b : Literal)
          → Entry a clause
          → Entry b clause
          → variable_of a ≡ variable_of b
          → a ≡ b =
        λ a b ea eb s.
          (sym (negated-negated a)
            ∙ ap negated (
                Distinct-eq trail (negated a) (negated b) distinct (split.falsified a (back a ea))
                  (split.falsified b (back b eb))
                  (variable_of-negated a ∙ s ∙ sym (variable_of-negated b)))
            ∙ negated-negated b) in
      let result = (learn-split level_of s r split.asserting split.tail split.splits).0 in
      ap (clause_true m) result
      ∙ unique_from-true m [] clause (λ a b ea eb s. (elim ea [ ])) within c (inr on) truth

-- The clause learned: the first literal, then literals whose levels the backjump level bounds;
-- the backjump goes below the level of the conflict.
pub record Asserting (level_of : Variable → ℕ) (current_level : ℕ) (s : ConflictAnalyzer)
    : Type 0 where
  pub first : Literal
  pub others : List Literal
  pub learned : s.learned_literals ≡ first ∷ others
  pub bounded : (c : Literal) → Entry c others → level_of (variable_of c) ≤ s.backjump_level
  pub backjump : s.backjump_level < current_level

module _ (level_of : Variable → ℕ) (current_level : ℕ) (reason_of : Variable → List Literal)
    (m : Assignment) where
  -- What the analysis is given: a conflict above level 0, a trail whose implied literals have
  -- reasons, a conflict clause that the trail falsifies, and an assignment that satisfies the
  -- clause, the reasons and the literals of level 0.
  pub record Conflict (trail conflict : List Literal) : Type 0 where
    pub positive : 0 < current_level
    pub justified : Justified level_of current_level reason_of m (reverse trail)
    pub falsified : (c : Literal) → Entry c conflict → Falsified (reverse trail) c
    pub root : RootTrue level_of current_level reason_of m (reverse trail)
    pub holds : clause_true m conflict ≡ true

  none_counted : (rest : List Literal) → open_count level_of current_level [] rest ≡ 0
  unfolding contains
  none_counted [] = refl
  none_counted (t ∷ rest) = rw (none_counted rest) refl

  start-Marked : (trail : List Literal) → Marked level_of current_level trail trail no_marks
  unfolding contains
  start-Marked trail = record {
    count = sym (none_counted trail);
    keeps = λ c off seen above low. absurd cc;
    tail_low = λ c e. (elim e [ ]);
    tail_falsified = λ c e. (elim e [ ]);
  }

  resolved :
      (trail conflict : List Literal)
      → Conflict trail conflict
      → Derived level_of current_level reason_of m
          (reverse trail)
          (resolve_conflict level_of current_level reason_of trail conflict)
  unfolding resolve_conflict is_pivot
  resolved trail conflict k =
      let (c, on, truth) = Entry-of_clause_true m conflict k.holds in
      resolve_loop-Derived level_of current_level reason_of m (reverse trail) (suc (length trail))
        none conflict (reverse trail) no_marks (omega (arith, length-reversed trail)) k.positive
        k.root (Justified-Distinct level_of current_level reason_of m (reverse trail) k.justified)
        k.justified (λ t e. e) (λ d e o. k.falsified d e) tt (start-Marked (reverse trail))
        (inr (record { literal = c; holds = truth; on = on; other = refl }))

  -- A conflict is analyzed by what follows the loop.
  analysis :
      (s : ConflictAnalyzer) (trail : List Literal)
      → Conflict trail s.pending_conflict_literals
      → (cleared : ConflictAnalyzer) × (analyze_via_resolution s trail current_level
            (some level_of)
            (some reason_of)
          ≡ learn level_of cleared
              (resolve_conflict level_of current_level reason_of trail s.pending_conflict_literals))
  unfolding analyze_via_resolution learn
  analysis s trail k = elim (list_cases s.pending_conflict_literals) [
    | inl e ↦ let h = k.holds in absurd (let g = rw e at h in cc)
    | inr (l, ls, e) ↦ (
      record s {
        resolution_chain_literals = [];
        resolution_chain_step_count = 0;
        learned_literals = [];
        bump_candidates = [];
        backjump_level = 0;
        pending_conflict_literals = [];
      },
      rw (e, analyze_via_resolution) refl,
    )
  ]

  -- The learned clause follows from the conflict clause, the reasons of the literals of the
  -- trail and the literals of level 0: an assignment that satisfies those satisfies it. The trail
  -- has one literal of each variable, none above the level of the conflict, and falsifies the
  -- conflict clause and, before each literal, the rest of its reason.
  pub learned_clause-true :
      (s : ConflictAnalyzer) (trail : List Literal)
      → Conflict trail s.pending_conflict_literals
      → clause_true m
          (analyze_via_resolution s trail current_level
            (some level_of)
            (some reason_of)).learned_literals
        ≡ true
  learned_clause-true s trail k =
      let conflict = s.pending_conflict_literals in
      let (cleared, e) = analysis s trail k in
      let r = resolve_conflict level_of current_level reason_of trail conflict in
      let split =
        Derived-Split level_of current_level reason_of m (reverse trail) r
          (resolved trail conflict k) in
      ap (λ (t : ConflictAnalyzer). clause_true m t.learned_literals) e
      ∙ learned-true level_of current_level reason_of m (reverse trail) cleared r
          (Justified-Distinct level_of current_level reason_of m (reverse trail) k.justified) split

  -- For a conflict above level 0 and a trail as in a search (one literal of each variable, none
  -- above the level of the conflict, the conflict clause and before each literal the rest of its
  -- reason falsified, with an assignment that satisfies these clauses and the literals of level 0),
  -- the learned clause is not empty, the levels of all its literals but the first are at most the
  -- backjump level, and that is below the level of the conflict.
  pub analysis-Asserting :
      (s : ConflictAnalyzer) (trail : List Literal)
      → Conflict trail s.pending_conflict_literals
      → Asserting level_of current_level
          (analyze_via_resolution s trail current_level (some level_of) (some reason_of))
  unfolding unique unique_from has_variable
  analysis-Asserting s trail k =
      let conflict = s.pending_conflict_literals in
      let (cleared, e) = analysis s trail k in
      let r = resolve_conflict level_of current_level reason_of trail conflict in
      let split =
        Derived-Split level_of current_level reason_of m (reverse trail) r
          (resolved trail conflict k) in
      let sorted = sort_tail level_of split.tail in
      let learned = learn-split level_of cleared r split.asserting split.tail split.splits in
      let (others, front, from) = unique_from-front split.asserting [] sorted in
      let shape : unique (split.asserting ∷ sorted) ≡ split.asserting ∷ others = front in
      let target : Asserting level_of current_level (learn level_of cleared r) = record {
        first = split.asserting;
        others = others;
        learned = learned.0 ∙ shape;
        bounded = λ c on. (elim (from c on) [
          | inl none_kept ↦ elim none_kept [ ]
          | inr in_tail ↦
              subst (λ b. level_of (variable_of c) ≤ b) (sym learned.1)
                (highest_level-bounds level_of split.tail c
                  (sort_tail-Entry level_of split.tail c in_tail))
        ]);
        backjump =
            subst (λ b. b < current_level) (sym learned.1)
              (highest_level-below level_of split.tail current_level k.positive split.low);
      } in
      subst (Asserting level_of current_level) (sym e) target

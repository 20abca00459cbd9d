-- ===== src/Analyzer/Live.antt =====
-- The state of the resolution loop and the true literals of the clause being derived
-- (source/library/src/kmx/sat/cdcl/conflict_analyzer.cpp).
use kmx_sat.Base.{
  ℕ, ◌-◌, ◌<◌, ◌≡◌, ap, sym, subst, ◌∙◌, ◌⊎◌, inl, inr, true, false, not, ◌&&◌, Option, none, some,
  List, ◌∷◌, arith, leb, ◌==◌, Bool-cases, Entry, here, there,
}
use kmx_sat.Literal.{Variable, Literal, variable_of, negated}
use kmx_sat.Literal.Encoding.{variable_of-negated, negated-negated}
use kmx_sat.Literal.Meaning.{
  Assignment, literal_true, clause_true, literal_true-negated, clause_true-of_Entry,
  Entry-of_clause_true,
}
use kmx_sat.Analyzer.{Marks, contains, is_pivot, mark_literals}
use kmx_sat.Analyzer.Marking.{Falsified, counts, open_count, Fresh-Entry}
use kmx_sat.Analyzer.Invariant.{Marked, mark_literals-Grows, mark_literals-seen}
use kmx_sat.Analyzer.Search.{Step, Justified-within, open_count-pos, open_count-Entry, Found}

-- The literals of the clause that the loop's result stands for.
abbrev pub derived : Option Literal × Marks → List Literal
derived (none, m) = m.tail
derived (some p, m) = negated p ∷ m.tail

module _ (level_of : Variable → ℕ) (current_level : ℕ) (reason_of : Variable → List Literal)
    (m : Assignment) (trail : List Literal) where
  -- A pivot of the current level, on the trail.
  abbrev pub Pivot : Option Literal → Type 0
  Pivot none = Unit
  Pivot (some p) = Entry p trail × (level_of (variable_of p) ≡ current_level)

  -- What the loop's result promises.
  pub record Derived (r : Option Literal × Marks) : Type 0 where
    pub holds : clause_true m (derived r) ≡ true
    pub pivot : Pivot r.0
    pub tail_low : (c : Literal) → Entry c r.1.tail → level_of (variable_of c) < current_level
    pub tail_falsified : (c : Literal) → Entry c r.1.tail → Falsified trail c

  -- A true literal that the state has not lost.
  pub record Live (rest : List Literal) (marks : Marks) : Type 0 where
    pub literal : Literal
    pub holds : literal_true m literal ≡ true
    pub place :
        Entry literal marks.tail
        ⊎ ((counts level_of current_level marks.seen (negated literal) ≡ true)
            × Falsified rest literal)

  -- A true literal of a clause that is not passed over.
  pub record Fit (pivot : Option Literal) (rest literals : List Literal) : Type 0 where
    pub literal : Literal
    pub holds : literal_true m literal ≡ true
    pub on : Entry literal literals
    pub other : is_pivot pivot literal ≡ false

  -- The literals falsified on level 0 are false.
  abbrev pub RootTrue : Type 0
  RootTrue =
      (c : Literal) → level_of (variable_of c) ≡ 0 → Falsified trail c → literal_true m c ≡ false

  pub Fit-Live :
      {rest : List Literal} (pivot : Option Literal) (literals : List Literal) (marks : Marks)
      → RootTrue
      → ((t : Literal) → Entry t rest → Entry t trail)
      → ((c : Literal) → Entry c literals → is_pivot pivot c ≡ false → Falsified rest c)
      → Marked level_of current_level trail rest
          (mark_literals level_of current_level pivot marks literals)
      → Fit pivot rest literals
      → Live rest (mark_literals level_of current_level pivot marks literals)
  Fit-Live pivot literals marks root sub off inv fit =
      let c = fit.literal in
      let on = off c fit.on fit.other in
      let seen =
        mark_literals-seen level_of current_level pivot literals marks c fit.on fit.other in
      let v = variable_of-negated c in
      elim (Bool-cases (leb current_level (level_of (variable_of c)))) [
        | inl high ↦
            let counted =
              subst
                (λ w.
                  contains w (mark_literals level_of current_level pivot marks literals).seen
                    && leb current_level (level_of w)
                  ≡ true)
                (sym v) (ground arith) in
            record { literal = c; holds = fit.holds; place = inr (counted, on) }
        | inr low ↦ elim (Bool-cases (level_of (variable_of c) == 0)) [
          | inl zero_level ↦
              let never = root c (ground arith) (sub (negated c) on) in
              let truth = fit.holds in absurd (ground (arith, never, truth))
          | inr above ↦ record {
            literal = c;
            holds = fit.holds;
            place = inl (inv.keeps c (sub (negated c) on) seen (ground arith) (ground arith));
          }
        ]
      ]

  pub Live-grows :
      {rest : List Literal} (pivot : Option Literal) (literals : List Literal) (marks : Marks)
      → Live rest marks
      → Live rest (mark_literals level_of current_level pivot marks literals)
  Live-grows pivot literals marks live =
      let grown = mark_literals-Grows level_of current_level pivot literals marks in
      record {
        literal = live.literal;
        holds = live.holds;
        place = elim live.place [
          | inl kept ↦ inl (grown.tail live.literal kept)
          | inr (counted, on) ↦
              inr (ground (arith, grown.seen (variable_of (negated live.literal))), on)
        ];
      }

  -- Nothing is open: the true literal is in the tail.
  pub Live-closed :
      {rest : List Literal} (marks : Marks)
      → open_count level_of current_level marks.seen rest ≡ 0
      → Live rest marks
      → clause_true m marks.tail ≡ true
  Live-closed {rest} marks closed live = elim live.place [
    | inl kept ↦ clause_true-of_Entry m marks.tail kept live.holds
    | inr (counted, on) ↦
        let one =
          open_count-pos level_of current_level reason_of m marks.seen rest (negated live.literal)
            on counted in
        absurd (omega (arith, one, closed))
  ]

  abbrev pub taken_off : Marks → Marks
  taken_off marks = record marks { unresolved = marks.unresolved - 1 }

  pub Marked-taken :
      {cursor rest : List Literal} {p : Literal} (marks : Marks)
      → Found level_of current_level reason_of m marks.seen cursor p rest
      → Marked level_of current_level trail cursor marks
      → Marked level_of current_level trail rest (taken_off marks)
  Marked-taken marks found inv = record {
    count = omega (arith, inv.count, found.counted);
    keeps = inv.keeps;
    tail_low = inv.tail_low;
    tail_falsified = inv.tail_falsified;
  }

  -- The pivot is the last literal open: its negation and the tail make up the clause.
  pub Live-last :
      {cursor rest : List Literal} {p : Literal} (marks : Marks)
      → Found level_of current_level reason_of m marks.seen cursor p rest
      → open_count level_of current_level marks.seen rest ≡ 0
      → Live cursor marks
      → clause_true m (negated p ∷ marks.tail) ≡ true
  Live-last {rest} {p} marks found closed live = elim live.place [
    | inl kept ↦ clause_true-of_Entry m (negated p ∷ marks.tail) (there kept) live.holds
    | inr (counted, on) ↦ elim (found.covers (negated live.literal) on counted) [
      | inl same ↦
          let e : live.literal ≡ negated p = sym (negated-negated live.literal) ∙ ap negated same in
          let truth : literal_true m (negated p) ≡ true =
            subst (λ x. literal_true m x ≡ true) e live.holds in
          clause_true-of_Entry m (negated p ∷ marks.tail) here truth
      | inr later ↦
          let one =
            open_count-pos level_of current_level reason_of m marks.seen rest (negated live.literal)
              later counted in
          absurd (omega (arith, one, closed))
    ]
  ]

  -- A literal of a false pivot's reason that is true is over another variable.
  not_pivot :
      {rest : List Literal} (p c : Literal)
      → Step level_of current_level reason_of m p rest
      → literal_true m p ≡ false
      → literal_true m c ≡ true
      → Entry c (reason_of (variable_of p))
      → is_pivot (some p) c ≡ false
  unfolding is_pivot
  not_pivot {rest} p c step false_p true_c on = elim (step.reason c on) [
    | inl same ↦
        let truth : literal_true m p ≡ true = subst (λ x. literal_true m x ≡ true) same true_c in
        absurd cc
    | inr falsified ↦
        let miss = Fresh-Entry (variable_of p) rest (negated c) step.fresh falsified in
        let v = variable_of-negated c in ground (arith, miss, v)
  ]

  -- With another literal open, the state lives on or the pivot's reason has a true literal.
  pub Live-step :
      {cursor rest : List Literal} {p : Literal} (marks : Marks)
      → Found level_of current_level reason_of m marks.seen cursor p rest
      → 0 < open_count level_of current_level marks.seen rest
      → Live cursor marks
      → Live rest (taken_off marks) ⊎ Fit (some p) rest (reason_of (variable_of p))
  Live-step {rest} {p} marks found opened live = elim live.place [
    | inl kept ↦ inl (record { literal = live.literal; holds = live.holds; place = inl kept })
    | inr (counted, on) ↦ elim (found.covers (negated live.literal) on counted) [
      | inr later ↦
          inl (record { literal = live.literal; holds = live.holds; place = inr (counted, later) })
      | inl same ↦
          let false_p : literal_true m p ≡ false =
            subst (λ x. literal_true m x ≡ false) same
              (literal_true-negated m live.literal ∙ ap not live.holds) in
          let (u, in_rest, counted_u) =
            open_count-Entry level_of current_level reason_of m marks.seen rest opened in
          let within =
            Justified-within level_of current_level reason_of m rest u found.justified in_rest in
          let level_u : level_of (variable_of u) ≡ current_level =
            ground (arith, within, counted_u) in
          let reason = found.step.holds u in_rest found.level level_u in
          let (c, on_reason, true_c) = Entry-of_clause_true m (reason_of (variable_of p)) reason in
          inr (record {
            literal = c;
            holds = true_c;
            on = on_reason;
            other = not_pivot p c found.step false_p true_c on_reason;
          })
    ]
  ]

  pub off_pivot :
      {rest : List Literal} (p : Literal)
      → Step level_of current_level reason_of m p rest
      → (c : Literal) → Entry c (reason_of (variable_of p))
      → is_pivot (some p) c ≡ false
      → Falsified rest c
  unfolding is_pivot
  off_pivot p step c on other = elim (step.reason c on) [
    | inl same ↦ let v = ap variable_of same in absurd (ground (arith, v, other))
    | inr falsified ↦ falsified
  ]

  pub derived-tail :
      (pivot : Option Literal) (marks : Marks)
      → clause_true m marks.tail ≡ true
      → clause_true m (derived (pivot, marks)) ≡ true
  derived-tail none marks h = h
  derived-tail (some p) marks h = ground (arith, h)

-- ===== src/Analyzer/Tests.antt =====
-- An analysis with a decision on each of two levels: x is decided on level 1, y on level 2, and
-- z follows from both; the conflict clause is ¬z ∨ ¬y.
use kmx_sat.Base.{
  ℕ, ◌<◌, ◌≡◌, refl, ap, ◌∙◌, ◌⊎◌, inl, inr, true, false, some, List, [], ◌∷◌, reverse, arith, ltb,
  ◌==◌, if◌then◌else◌, here, there, Entry-inv, Entry-cons, All-entry,
}
use kmx_sat.Literal.{Variable, Literal, variable_of, is_negated, negated}
use kmx_sat.Literal.Encoding.{variable_of-negated}
use kmx_sat.Literal.Meaning.{Assignment, clause_true}
use kmx_sat.Analyzer.{
  ConflictAnalyzer, contains, has_variable, unique, unique_from, is_pivot, mark_literal,
  mark_literals, find_pivot, resolve_loop, resolve_conflict, highest_level, sorts_before,
  insert_sorted, sort_tail, split_asserting, learn, analyze_via_resolution,
}
use kmx_sat.Analyzer.Levels.{level_of_variable, analyze, drop_root_literals, pick_asserting}
use kmx_sat.Analyzer.Marking.{Falsified}
use kmx_sat.Analyzer.Search.{Step}
use kmx_sat.Analyzer.Implied.{Conflict, Asserting, learned_clause-true, analysis-Asserting}

abbrev lit : ℕ → Literal
lit raw = record { raw = raw }

abbrev two_levels : Variable → ℕ
two_levels v = if ltb v 2 then v else 2

-- Variable 3 has the reason z ∨ ¬x ∨ ¬y, the others are decisions.
abbrev one_reason : Variable → List Literal
one_reason v = if v == 3 then lit 6 ∷ lit 3 ∷ lit 5 ∷ [] else []

abbrev all_false : Assignment
all_false v = false

abbrev decided : List Literal
decided = lit 2 ∷ lit 4 ∷ lit 6 ∷ []

abbrev seeded : ConflictAnalyzer
seeded = record {
  pending_conflict_literals = lit 7 ∷ lit 5 ∷ [];
  learned_literals = [];
  resolution_chain_literals = [];
  resolution_chain_step_count = 0;
  bump_candidates = [];
  decision_levels = [];
  touched_variable_indices = [];
  backjump_level = 0;
}

-- The clause learned is ¬y ∨ ¬x, and the backjump goes to level 1.
analysis_runs :
    ((analyze_via_resolution seeded decided 2 (some two_levels) (some one_reason)).learned_literals
      ≡ lit 5 ∷ lit 3 ∷ [])
    × ((analyze_via_resolution seeded decided 2 (some two_levels) (some one_reason)).backjump_level
        ≡ 1)
unfolding analyze_via_resolution learn resolve_conflict resolve_loop mark_literals mark_literal
    is_pivot find_pivot contains unique unique_from has_variable sort_tail insert_sorted
    sorts_before highest_level split_asserting variable_of negated
analysis_runs = (refl, refl)

-- Without recorded levels, `analyze` keeps the first literal only.
analyze_runs : (analyze seeded).learned_literals ≡ lit 7 ∷ []
unfolding analyze unique unique_from has_variable drop_root_literals pick_asserting variable_of
    level_of_variable
analyze_runs = refl

abbrev Reasoned : Literal → Type 0
Reasoned c = (c ≡ lit 6) ⊎ Falsified (lit 4 ∷ lit 2 ∷ []) c

implied : Step two_levels 2 one_reason all_false (lit 6) (lit 4 ∷ lit 2 ∷ [])
unfolding variable_of negated is_negated
implied = record {
  fresh = (refl, (refl, tt));
  within = omega arith;
  reason = Entry-cons Reasoned (inl refl) (
      Entry-cons Reasoned (inr (there here))
        (Entry-cons Reasoned (inr here) (λ c e. (elim e [ ]))));
  holds = λ u e l k. refl;
}

second : Step two_levels 2 one_reason all_false (lit 4) (lit 2 ∷ [])
unfolding variable_of negated is_negated
second = record {
  fresh = (refl, tt);
  within = omega arith;
  reason = λ c e. (elim e [ ]);
  holds = λ u e l k. (elim (Entry-inv e) [
    | inl first ↦
        let v = ap (λ (x : Literal). two_levels (variable_of x)) first ∙ k in
        absurd (omega (arith, v))
    | inr later ↦ elim later [ ]
  ]);
}

first_decision : Step two_levels 2 one_reason all_false (lit 2) []
unfolding variable_of negated is_negated
first_decision = record {
  fresh = tt;
  within = omega arith;
  reason = λ c e. (elim e [ ]);
  holds = λ u e l k. (elim e [ ]);
}

two_decisions : Conflict two_levels 2 one_reason all_false decided seeded.pending_conflict_literals
unfolding variable_of negated is_negated
two_decisions = record {
  positive = omega arith;
  justified = (implied, (second, (first_decision, tt)));
  falsified =
      Entry-cons (Falsified (reverse decided)) here
        (Entry-cons (Falsified (reverse decided)) (there here) (λ c e. (elim e [ ])));
  root = λ c level on.
      let above : 0 < two_levels (variable_of (negated c)) =
        All-entry (λ (t : Literal). 0 < two_levels (variable_of t)) (reverse decided)
          (omega arith, (omega arith, (omega arith, tt))) on in
      let zero_level : two_levels (variable_of (negated c)) ≡ 0 =
        ap two_levels (variable_of-negated c) ∙ level in
      absurd (omega (arith, above, zero_level));
  holds = refl;
}

learned_clause-true_example :
    clause_true all_false
      (analyze_via_resolution seeded decided 2 (some two_levels) (some one_reason)).learned_literals
    ≡ true
learned_clause-true_example =
    learned_clause-true two_levels 2 one_reason all_false seeded decided two_decisions

analysis-Asserting_example :
    Asserting two_levels 2
      (analyze_via_resolution seeded decided 2 (some two_levels) (some one_reason))
analysis-Asserting_example =
    analysis-Asserting two_levels 2 one_reason all_false seeded decided two_decisions

abbrev told : ConflictAnalyzer
told = record seeded { decision_levels = (3, 2) ∷ (2, 1) ∷ [] }

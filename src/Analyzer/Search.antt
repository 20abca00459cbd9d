-- ===== src/Analyzer/Search.antt =====
-- The walk back along the trail (source/library/src/kmx/sat/cdcl/conflict_analyzer.cpp).
use kmx_sat.Base.{
  ℕ, ◌+◌, ◌≤◌, ◌<◌, ◌≡◌, refl, sym, subst, ◌⊎◌, inl, inr, true, false, ◌&&◌, Option, none, some,
  List, [], ◌∷◌, arith, ◌==◌, Bool-cases, length, Entry, here, there, Entry-inv,
}
use kmx_sat.Literal.{Variable, Literal, variable_of}
use kmx_sat.Literal.Meaning.{Assignment, clause_true}
use kmx_sat.Analyzer.{contains, find_pivot}
use kmx_sat.Analyzer.Marking.{Falsified, counts, open_count, Fresh, Distinct}

module _ (level_of : Variable → ℕ) (current_level : ℕ) (reason_of : Variable → List Literal)
    (m : Assignment) where
  -- A literal of the trail, with what came before it: no other literal is over its variable, its
  -- level is not above the current one, the other literals of its reason are false before it, and
  -- its reason holds under the assignment `m` where it is not the first of the current level.
  pub record Step (t : Literal) (rest : List Literal) : Type 0 where
    pub fresh : Fresh (variable_of t) rest
    pub within : level_of (variable_of t) ≤ current_level
    pub reason : (c : Literal) → Entry c (reason_of (variable_of t)) → (c ≡ t) ⊎ Falsified rest c
    pub holds :
        (u : Literal)
        → Entry u rest
        → level_of (variable_of t) ≡ current_level
        → level_of (variable_of u) ≡ current_level
        → clause_true m (reason_of (variable_of t)) ≡ true

  -- The trail, the latest literal first.
  abbrev pub Justified : List Literal → Type 0
  Justified [] = Unit
  Justified (t ∷ rest) = Step t rest × Justified rest

  pub Justified-Distinct : (xs : List Literal) → Justified xs → Distinct xs
  Justified-Distinct [] h = tt
  Justified-Distinct (t ∷ rest) h = (h.0.fresh, Justified-Distinct rest h.1)

  pub Justified-within :
      (xs : List Literal) (t : Literal)
      → Justified xs
      → Entry t xs
      → level_of (variable_of t) ≤ current_level
  Justified-within [] t h e = elim e [ ]
  Justified-within (u ∷ rest) t h e = elim (Entry-inv e) [
    | inl first ↦ subst (λ x. level_of (variable_of x) ≤ current_level) first h.0.within
    | inr later ↦ Justified-within rest t h.1 later
  ]

  pub open_count-pos :
      (seen : List ℕ) (rest : List Literal) (t : Literal)
      → Entry t rest
      → counts level_of current_level seen t ≡ true
      → 0 < open_count level_of current_level seen rest
  open_count-pos seen [] t e h = elim e [ ]
  open_count-pos seen (u ∷ rest) t e h = elim (Entry-inv e) [
    | inl first ↦
        let hit : counts level_of current_level seen u ≡ true =
          subst (λ x. counts level_of current_level seen x ≡ true) (sym first) h in
        rw hit (omega arith)
    | inr later ↦ omega (arith, open_count-pos seen rest t later h)
  ]

  pub open_count-Entry :
      (seen : List ℕ) (rest : List Literal)
      → 0 < open_count level_of current_level seen rest
      → (t : Literal) × Entry t rest × (counts level_of current_level seen t ≡ true)
  open_count-Entry seen [] h = absurd (omega arith)
  open_count-Entry seen (u ∷ rest) h = elim (Bool-cases (counts level_of current_level seen u)) [
    | inl hit ↦ (u, here, hit)
    | inr miss ↦
        let (t, e, c) =
          open_count-Entry seen rest (let below = rw miss at h in omega (arith, below)) in
        (t, there e, c)
  ]

  pub record Found (seen : List ℕ) (cursor : List Literal) (p : Literal) (rest : List Literal)
      : Type 0 where
    pub counted :
        open_count level_of current_level seen cursor
        ≡ 1 + open_count level_of current_level seen rest
    pub on : Entry p cursor
    pub level : level_of (variable_of p) ≡ current_level
    pub later : (t : Literal) → Entry t rest → Entry t cursor
    pub covers :
        (t : Literal)
        → Entry t cursor
        → counts level_of current_level seen t ≡ true
        → (t ≡ p) ⊎ Entry t rest
    pub shorter : length rest < length cursor
    pub step : Step p rest
    pub justified : Justified rest

  skipped :
      (seen : List ℕ) (t : Literal)
      → level_of (variable_of t) ≤ current_level
      → (contains (variable_of t) seen && level_of (variable_of t) == current_level) ≡ false
      → counts level_of current_level seen t ≡ false
  skipped seen t within h = elim (Bool-cases (contains (variable_of t) seen)) [
    | inl s ↦ ground arith
    | inr n ↦ rw n refl
  ]

  -- What the walk finds: a pivot, or that nothing is marked on the current level.
  abbrev pub Walked : List ℕ → List Literal → Option (Literal × List Literal) → Type 0
  Walked seen cursor none = open_count level_of current_level seen cursor ≡ 0
  Walked seen cursor (some (p, rest)) = Found seen cursor p rest

  Walked-skip :
      (seen : List ℕ) (t : Literal) (cursor : List Literal) (o : Option (Literal × List Literal))
      → counts level_of current_level seen t ≡ false
      → Walked seen cursor o
      → Walked seen (t ∷ cursor) o
  Walked-skip seen t cursor none miss w = rw miss (omega (arith, w))
  Walked-skip seen t cursor (some (p, rest)) miss w = record {
    counted = rw miss (omega (arith, w.counted));
    on = there w.on;
    level = w.level;
    later = λ u e. there (w.later u e);
    covers = λ u e h. (elim (Entry-inv e) [
      | inl first ↦
          let hit = subst (λ x. counts level_of current_level seen x ≡ true) (sym first) h in
          absurd cc
      | inr in_rest ↦ w.covers u in_rest h
    ]);
    shorter = omega (arith, w.shorter);
    step = w.step;
    justified = w.justified;
  }

  pub find_pivot-Walked :
      (seen : List ℕ) (cursor : List Literal)
      → Justified cursor
      → Walked seen cursor (find_pivot level_of current_level seen cursor)
  unfolding find_pivot
  find_pivot-Walked seen [] h = refl
  find_pivot-Walked seen (t ∷ rest) h =
      elim (Bool-cases
        (contains (variable_of t) seen && level_of (variable_of t) == current_level)) [
          | inl hit ↦
              let at : level_of (variable_of t) ≡ current_level = ground arith in
              let counted : counts level_of current_level seen t ≡ true = ground arith in
              rw hit (record {
                counted = rw counted refl;
                on = here;
                level = at;
                later = λ u e. there e;
                covers = λ u e c. (elim (Entry-inv e) [
                  | inl first ↦ inl (sym first)
                  | inr in_rest ↦ inr in_rest
                ]);
                shorter = omega arith;
                step = h.0;
                justified = h.1;
              })
          | inr miss ↦ rw miss (
              Walked-skip seen t rest (find_pivot level_of current_level seen rest)
                (skipped seen t h.0.within miss) (find_pivot-Walked seen rest h.1))
        ]

-- ===== src/SolverCore/Trail.antt =====
-- What ties the tables of the search core to its trail, of which `done` is the propagated part and
-- `queue` the rest (source/library/src/kmx/sat/cdcl/solver_core.cpp).
use kmx_sat.Base.{
  ℕ, zero, suc, ◌≤◌, ◌<◌, ◌≡◌, ◌⊎◌, refl, sym, ◌∙◌, inl, inr, false, Option, some, List, [], ◌∷◌,
  ◌++◌, arith, ◌==◌, Bool-cases, length, get_elem?, take, drop, put, Entry,
}
use kmx_sat.Literal.{Variable, Literal, variable_of, negated}
use kmx_sat.Analyzer.Marking.{Distinct}
use kmx_sat.SolverCore.{
  Value, ControlFrame, trail_begin_of, falsified, unassigned, satisfied, SolverCore, value_of,
  opposite, assign,
}

-- The part of the state that assignments write.
pub record TrailView : Type 0 where
  pub values : ℕ → Value
  pub levels : Variable → ℕ
  pub trail_positions : Variable → ℕ
  pub trail : List Literal
  pub level : ℕ
  pub control : List ControlFrame

abbrev pub view : {H : Type 0} → SolverCore H → TrailView
view s = record {
  values = s.values;
  levels = s.levels;
  trail_positions = s.trail_positions;
  trail = s.trail;
  level = s.level;
  control = s.control;
}

-- The levels on both sides of a place on the trail.
pub record IsCut (s : TrailView) (target begin : ℕ) : Type 0 where
  pub inside : begin ≤ length s.trail
  pub low : (l : Literal) → Entry l (take begin s.trail) → s.levels (variable_of l) ≤ target
  pub high : (l : Literal) → Entry l (drop begin s.trail) → target < s.levels (variable_of l)

-- `done` is propagated and `queue` is not; each level but the root has a frame, which starts where
-- the levels of the trail rise to it.
pub record IsTrail (done queue : List Literal) (s : TrailView) : Type 0 where
  pub splits : s.trail ≡ done ++ queue
  pub opposites : (l : Literal) → s.values (negated l).raw ≡ opposite (s.values l.raw)
  pub listed : (l : Literal) → s.values l.raw ≡ satisfied → Entry l s.trail
  pub holds : (l : Literal) → Entry l s.trail → s.values l.raw ≡ satisfied
  pub bounded : (l : Literal) → Entry l s.trail → s.levels (variable_of l) ≤ s.level
  pub recent : (l : Literal) → Entry l queue → s.levels (variable_of l) ≡ s.level
  pub placed :
      (l : Literal)
      → Entry l s.trail
      → get_elem? s.trail (s.trail_positions (variable_of l)) ≡ some l
  pub distinct : Distinct s.trail
  pub frames : length s.control ≡ suc s.level
  pub cuts : (target : ℕ) → target < s.level → IsCut s target (trail_begin_of s.control target)

pub opposite-satisfied : (v : Value) → opposite v ≡ satisfied → v ≡ falsified
opposite-satisfied falsified h = refl
opposite-satisfied unassigned h = cc
opposite-satisfied satisfied h = cc

-- Literals over one variable are the same or complementary.
pub same_variable : (k l : Literal) → variable_of k ≡ variable_of l → (k ≡ l) ⊎ (k ≡ negated l)
unfolding variable_of negated
same_variable k l h = elim (Bool-cases (k.raw == l.raw)) [
  | inl e ↦ inl (ground arith)
  | inr n ↦ inr (ground arith)
]

pub put_self : {A : Type 0} (f : ℕ → A) (i : ℕ) (v : A) → put f i v i ≡ v
put_self f i v = ground arith

pub put_other : {A : Type 0} (f : ℕ → A) (i j : ℕ) (v : A) → (i == j) ≡ false → put f i v j ≡ f j
put_other f i j v n = ground arith

pub raw_negated : (l : Literal) → (l.raw == (negated l).raw) ≡ false
unfolding negated
raw_negated l = ground arith

-- What an assignment writes, read at a literal over another variable and at the literal itself.
module _ {H : Type 0} (s : SolverCore H) (l : Literal) (reason : Option ℕ) where
  pub value_of-assign_self : value_of (assign s l reason) l ≡ satisfied
  unfolding assign
  value_of-assign_self = ground (arith, raw_negated l)

  pub value_of-assign-negated : value_of (assign s l reason) (negated l) ≡ falsified
  unfolding assign
  value_of-assign-negated = ground arith

  pub value_of-assign_other :
      (k : Literal)
      → (variable_of k == variable_of l) ≡ false
      → value_of (assign s l reason) k ≡ value_of s k
  unfolding assign variable_of negated
  value_of-assign_other k n = ground arith

  pub assign-value :
      (k : Literal)
      → value_of (assign s l reason) k ≡ satisfied
      → (k ≡ l) ⊎ (value_of s k ≡ satisfied)
  assign-value k h = elim (Bool-cases (variable_of k == variable_of l)) [
    | inr n ↦ inr (sym (value_of-assign_other k n) ∙ h)
    | inl e ↦ elim (same_variable k l (ground arith)) [
      | inl e ↦ inl e
      | inr e ↦
          let f : value_of (assign s l reason) k ≡ falsified = rw e value_of-assign-negated in
          absurd (cc (h, f))
    ]
  ]

pub get_elem?-append :
    {A : Type 0} {x : A} (xs ys : List A) (i : ℕ)
    → get_elem? xs i ≡ some x
    → get_elem? (xs ++ ys) i ≡ some x
get_elem?-append [] ys i h = cc
get_elem?-append (x ∷ xs) ys zero h = h
get_elem?-append (x ∷ xs) ys (suc i) h = get_elem?-append xs ys i h

pub get_elem?-length :
    {A : Type 0} (x : A) (xs : List A) → get_elem? (xs ++ x ∷ []) (length xs) ≡ some x
get_elem?-length x [] = refl
get_elem?-length x (y ∷ xs) = get_elem?-length x xs

pub get_elem?-lt :
    {A : Type 0} {x : A} (xs : List A) (i : ℕ) → get_elem? xs i ≡ some x → i < length xs
get_elem?-lt [] i h = cc
get_elem?-lt (x ∷ xs) zero h = omega arith
get_elem?-lt (x ∷ xs) (suc i) h = omega (arith, get_elem?-lt xs i h)

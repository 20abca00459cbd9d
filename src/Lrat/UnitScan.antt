-- ===== src/Lrat/UnitScan.antt =====
-- The inner loop of `lrat::verify_chain` (source/library/src/kmx/sat/proof/checker/lrat.cpp),
-- and the values that the replay fixes, against a total assignment.
use kmx_sat.Base.{
  ℕ, ◌+◌, ◌≤◌, ◌<◌, ◌≡◌, refl, ap, subst, inl, inr, Bool, true, false, some, [], ◌∷◌, arith, ◌==◌,
  Bool-cases, Option-cases,
}
use kmx_sat.Dict.{find, insert, find-insert}
use kmx_sat.Literal.{Literal, variable_of, is_negated}
use kmx_sat.Literal.Meaning.{Clause, Assignment, literal_true, clause_true}
use kmx_sat.Lrat.{Values, assume_false, scan}

-- Every value that the replay has fixed is the assignment's.
abbrev pub Agrees : Assignment → Values → Type 0
Agrees m a = (v : ℕ) (b : Bool) → find v a ≡ some b → m v ≡ b

pub insert-Agrees :
    (m : Assignment) (a : Values) (v : ℕ) (b : Bool)
    → m v ≡ b
    → Agrees m a
    → Agrees m (insert v b a)
insert-Agrees m a v b e h w c f = elim (Bool-cases (v == w)) [
  | inl hit ↦
      let same : v ≡ w = ground arith in
      subst (λ x. m x ≡ c) same (ground (arith, find-insert v w b a))
  | inr miss ↦ h w c (ground (arith, find-insert v w b a))
]

-- Under an assignment that makes the derived clause false, the values assumed are its own.
pub assume_false-Agrees :
    (m : Assignment) (a : Values) (c : Clause)
    → clause_true m c ≡ false
    → Agrees m a
    → Agrees m (assume_false a c)
unfolding assume_false
assume_false-Agrees m a [] f h = h
assume_false-Agrees m a (l ∷ c) f h =
    assume_false-Agrees m (insert (variable_of l) (is_negated l) a) c (ground arith)
      (insert-Agrees m a (variable_of l) (is_negated l) (ground arith) h)

pub le-scan : (a : Values) (n : ℕ) (p : Literal) (c : Clause) → n ≤ (scan a n p c).unassigned_count
unfolding scan
le-scan a n p [] = omega arith
le-scan a n p (l ∷ c) = ground (arith, le-scan a (n + 1) l c, le-scan a n p c)

-- While nothing is counted, the pending literal stays.
pub pending-scan :
    (a : Values) (n : ℕ) (p : Literal) (c : Clause)
    → (scan a n p c).unassigned_count ≡ n
    → (scan a n p c).pending ≡ p
unfolding scan
pending-scan a n p [] e = refl
pending-scan a n p (l ∷ c) e = ground (arith, pending-scan a n p c, le-scan a (n + 1) l c)

-- What a scan that was not cut short says of a true clause: some literal is unassigned, and the
-- only one is true.
pub scan-true :
    (m : Assignment) (a : Values) (n : ℕ) (p : Literal) (c : Clause)
    → Agrees m a
    → clause_true m c ≡ true
    → (scan a n p c).satisfied ≡ false
    → (n < (scan a n p c).unassigned_count)
      × ((scan a n p c).unassigned_count ≡ n + 1 → literal_true m (scan a n p c).pending ≡ true)
unfolding scan
scan-true m a n p [] h t s = cc
scan-true m a n p (l ∷ c) h t s = elim (Option-cases (find (variable_of l) a)) [
  | inl e ↦ elim (Bool-cases (literal_true m l)) [
    | inl holds ↦ ground (
      arith,
      le-scan a (n + 1) l c,
      pending-scan a (n + 1) l c,
      λ (q : (scan a (n + 1) l c).unassigned_count ≡ n + 1).
          ap (literal_true m) (pending-scan a (n + 1) l c q),
    )
    | inr fails ↦ ground (arith, le-scan a (n + 1) l c, scan-true m a (n + 1) l c h)
  ]
  | inr (v, e) ↦ ground (arith, h (variable_of l) v, scan-true m a n p c h)
]

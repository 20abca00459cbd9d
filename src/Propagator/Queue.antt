-- ===== src/Propagator/Queue.antt =====
-- The staged conflicts as a queue
-- (source/library/src/kmx/sat/cdcl/propagator.cpp).
use kmx_sat.Base.{
  ℕ, zero, suc, ◌+◌, ◌≤◌, ◌<◌, ◌≡◌, refl, sym, subst, inl, inr, true, none, List, [], ◌∷◌, ◌++◌,
  arith, leb, ◌==◌, Bool-cases, length, get_or, drop,
}
use kmx_sat.Assignment.{Ref}
use kmx_sat.Propagator.{Propagator, has_staged_conflicts, consume_staged_conflict}

-- What is staged and not consumed, the oldest first.
abbrev pub pending : Propagator → List Ref
pending s = drop s.staged_conflict_head s.staged_conflicts

-- Taking the front of a queue.
abbrev pub Takes : List Ref → Ref × Propagator → Type 0
Takes [] (ref, t) = (ref ≡ none) × (pending t ≡ [])
Takes (oldest ∷ rest) (ref, t) = (ref ≡ oldest) × (pending t ≡ rest)

drop-past {ℓ} : {A : Type ℓ} (n : ℕ) (xs : List A) → length xs ≤ n → drop n xs ≡ []
drop-past zero [] h = refl
drop-past zero (x ∷ xs) h = absurd (omega arith)
drop-past (suc n) [] h = refl
drop-past (suc n) (x ∷ xs) h = drop-past n xs (omega arith)

drop-inside {ℓ} :
    {A : Type ℓ} (n : ℕ) (xs : List A) (d : A)
    → n < length xs
    → drop n xs ≡ get_or xs n d ∷ drop (suc n) xs
drop-inside n [] d h = absurd (omega arith)
drop-inside zero (x ∷ xs) d h = refl
drop-inside (suc n) (x ∷ xs) d h = drop-inside n xs d (omega arith)

drop-append {ℓ} :
    {A : Type ℓ} (n : ℕ) (xs ys : List A) → n ≤ length xs → drop n (xs ++ ys) ≡ drop n xs ++ ys
drop-append zero xs ys h = refl
drop-append (suc n) [] ys h = absurd (omega arith)
drop-append (suc n) (x ∷ xs) ys h = drop-append n xs ys (omega arith)

Takes-none : (s : Propagator) (q : List Ref) → q ≡ [] → pending s ≡ [] → Takes q (none, s)
Takes-none s [] e p = (refl, p)
Takes-none s (x ∷ q) e p = absurd cc

consumed_rest :
    (s : Propagator)
    → has_staged_conflicts s ≡ true
    → ((consume_staged_conflict s).0 ≡ get_or s.staged_conflicts s.staged_conflict_head none)
      × (pending (consume_staged_conflict s).1
          ≡ drop (suc s.staged_conflict_head) s.staged_conflicts)
unfolding consume_staged_conflict
consumed_rest s some_staged =
    let next : s.staged_conflict_head + 1 ≡ suc s.staged_conflict_head = omega arith in
    elim (Bool-cases (s.staged_conflict_head + 1 == length s.staged_conflicts)) [
      | inl all ↦
          let past = drop-past (suc s.staged_conflict_head) s.staged_conflicts (ground arith) in
          rw (some_staged, all) (refl, sym past)
      | inr left ↦ elim (Bool-cases (leb 64 (s.staged_conflict_head + 1))) [
        | inl long ↦ rw (some_staged, left, long, next) (refl, refl)
        | inr short ↦ rw (some_staged, left, short, next) (refl, refl)
      ]
    ]

-- Consuming takes the oldest of the pending conflicts and leaves the others, in their order,
-- whether or not the consumed prefix is erased; with none pending it returns the invalid
-- reference.
pub consume_staged_conflict-Takes : (s : Propagator) → Takes (pending s) (consume_staged_conflict s)
unfolding consume_staged_conflict
consume_staged_conflict-Takes s = elim (Bool-cases (has_staged_conflicts s)) [
  | inl some_staged ↦
      let (front, rest) = consumed_rest s some_staged in
      let split = drop-inside s.staged_conflict_head s.staged_conflicts none (ground arith) in
      subst (λ q. Takes q (consume_staged_conflict s)) (sym split) (front, rest)
  | inr none_staged ↦
      let past = drop-past s.staged_conflict_head s.staged_conflicts (ground arith) in
      rw none_staged (Takes-none s (pending s) past past)
]

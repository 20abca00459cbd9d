-- ===== src/Bve/Resolvents.antt =====
-- The set of resolvents that replaces the clauses of a variable (`bounded::build_resolvents`,
-- source/library/src/kmx/sat/simplify/eliminator/variable/bounded.cpp).
use kmx_sat.Base.{
  ◌+◌, ◌≤◌, ◌≡◌, subst, ◌⊎◌, refl, inl, inr, Bool, true, false, some, List, [], ◌∷◌, ◌++◌, arith,
  Bool-cases, Option-cases, Entry, here, there, Entry-cons, Entry-append_left, Entry-append_right,
  All, All-append, length, get_elem?,
}
use kmx_sat.Base.Int.{pos, ◌+ℤ◌, leb_ℤ}
use kmx_sat.Literal.{Variable}
use kmx_sat.Literal.Meaning.{Clause}
use kmx_sat.Bve.{
  Ref, ClauseStore, Occurrences, Bounded, resolve, keep_resolvent, resolve_with_negatives,
  resolve_positives, none_empty, keep_if_none_empty, build_resolvents,
}

-- The limits of the pass on a set of resolvents: their width, and their number.
abbrev pub WithinLimits : Bounded → Occurrences → List Clause → Type 0
WithinLimits b entry rs =
    All (λ c. length c ≤ b.resolvent_width_limit) rs
    × ((rs ≡ [])
        ⊎ (leb_ℤ (pos (length rs))
              (pos (length entry.positive + length entry.negative) +ℤ b.clause_growth_limit)
            ≡ true))

-- `rs'` holds the clauses of `rs`, and is within the limits if `rs` is.
record Extends (b : Bounded) (entry : Occurrences) (rs rs' : List Clause) : Type 0 where
  included : (c : Clause) → Entry c rs → Entry c rs'
  limits : WithinLimits b entry rs → WithinLimits b entry rs'

Extends-refl : {b : Bounded} {entry : Occurrences} {rs : List Clause} → Extends b entry rs rs
Extends-refl = record { included = λ c w. w; limits = λ h. h }

Extends-trans :
    {b : Bounded} {entry : Occurrences} {rs rs' rs'' : List Clause}
    → Extends b entry rs rs'
    → Extends b entry rs' rs''
    → Extends b entry rs rs''
Extends-trans x y = record {
  included = λ c w. y.included c (x.included c w);
  limits = λ h. y.limits (x.limits h);
}

-- The resolvent of two clauses of the store, if it is kept, is in the set.
abbrev pub Covers : ClauseStore → Variable → List Clause → Ref → Ref → Type 0
Covers store v rs p n =
    let r = resolve (store.view_literals p) (store.view_literals n) v in r.1 ≡ true → Entry r.0 rs

abbrev pub Live : ClauseStore → Ref → Type 0
Live store r = store.is_garbage r ≡ false

module _ (store : ClauseStore) (b : Bounded) (v : Variable) (entry : Occurrences) where
  keep_resolvent_lem :
      (r : Clause × Bool) (rs rs' : List Clause)
      → keep_resolvent store b v entry r rs ≡ some rs'
      → Extends b entry rs rs' × (r.1 ≡ true → Entry r.0 rs')
  unfolding keep_resolvent
  keep_resolvent_lem (c, false) rs rs' e =
      (subst (Extends b entry rs) (ground arith) Extends-refl, λ h. cc)
  keep_resolvent_lem (c, true) rs rs' e =
      let same : rs ++ c ∷ [] ≡ rs' = ground arith in
      subst (λ x. Extends b entry rs x × (true ≡ true → Entry c x)) same
        (
          record {
            included = λ d w. Entry-append_left (c ∷ []) w;
            limits = λ h. (All-append _ rs (c ∷ []) h.0 (ground arith, tt), inr (ground arith));
          },
          λ h. Entry-append_right rs here,
        )

  resolve_with_negatives_lem :
      (p : Ref) (ns : List Ref) (rs rs' : List Clause)
      → resolve_with_negatives store b v entry p ns rs ≡ some rs'
      → Extends b entry rs rs' × ((n : Ref) → Entry n ns → Live store n → Covers store v rs' p n)
  unfolding resolve_with_negatives
  resolve_with_negatives_lem p [] rs rs' e =
      (subst (Extends b entry rs) (ground arith) Extends-refl, λ n w. elim w [ ])
  resolve_with_negatives_lem p (n ∷ ns) rs rs' e = elim (Bool-cases (store.is_garbage n)) [
    | inl dead ↦
        let (x, covers) = resolve_with_negatives_lem p ns rs rs' (ground arith) in
        (x, Entry-cons (λ k. Live store k → Covers store v rs' p k) (λ live. cc) covers)
    | inr live ↦
        let r = resolve (store.view_literals p) (store.view_literals n) v in
        elim (Option-cases (keep_resolvent store b v entry r rs)) [
          | inl stop ↦ ground arith
          | inr (mid, go) ↦
              let (x, kept) = keep_resolvent_lem r rs mid go in
              let (y, covers) = resolve_with_negatives_lem p ns mid rs' (ground arith) in
              (
                Extends-trans x y,
                Entry-cons (λ k. Live store k → Covers store v rs' p k)
                    (λ _ k. y.included r.0 (kept k)) covers,
              )
        ]
  ]

  resolve_positives_lem :
      (ps : List Ref) (rs rs' : List Clause)
      → resolve_positives store b v entry ps rs ≡ some rs'
      → Extends b entry rs rs'
        × ((p n : Ref)
            → Entry p ps
            → Live store p
            → Entry n entry.negative
            → Live store n
            → Covers store v rs' p n)
  unfolding resolve_positives
  resolve_positives_lem [] rs rs' e =
      (subst (Extends b entry rs) (ground arith) Extends-refl, λ p n w. elim w [ ])
  resolve_positives_lem (p ∷ ps) rs rs' e = elim (Bool-cases (store.is_garbage p)) [
    | inl dead ↦
        let (x, covers) = resolve_positives_lem ps rs rs' (ground arith) in
        (
          x,
          λ k n w.
              Entry-cons
                (λ k. Live store k → Entry n entry.negative → Live store n → Covers store v rs' k n)
                (λ live. cc) (λ k. covers k n) k w,
        )
    | inr live ↦ elim (Option-cases (resolve_with_negatives store b v entry p entry.negative rs)) [
      | inl stop ↦ ground arith
      | inr (mid, go) ↦
          let (x, first) = resolve_with_negatives_lem p entry.negative rs mid go in
          let (y, covers) = resolve_positives_lem ps mid rs' (ground arith) in
          (
            Extends-trans x y,
            λ k n w.
                Entry-cons
                  (λ k.
                    Live store k → Entry n entry.negative → Live store n → Covers store v rs' k n)
                  (λ _ wn ln kept. y.included _ (first n wn ln kept)) (λ k. covers k n) k w,
          )
    ]
  ]

none_empty-Entry : (rs : List Clause) → none_empty rs ≡ true → ¬ Entry [] rs
unfolding none_empty
none_empty-Entry [] h e = elim e [ ]
none_empty-Entry ([] ∷ rs) h e = absurd (cc h)
none_empty-Entry ((l ∷ c) ∷ rs) h e = elim e [ there later ↦ none_empty-Entry rs h later ]

-- What `build_resolvents` promises of the clauses that it returns.
pub record Complete (store : ClauseStore) (b : Bounded) (v : Variable) (entry : Occurrences)
    (rs : List Clause) : Type 0 where
  pub covers :
      (p n : Ref)
      → Entry p entry.positive
      → Live store p
      → Entry n entry.negative
      → Live store n
      → Covers store v rs p n
  pub limits : WithinLimits b entry rs
  pub inhabited : ¬ Entry [] rs

-- Where `build_resolvents` succeeds, every resolvent of two live clauses that is kept is in the
-- set, the set is within the limits on width and number, and it holds no empty clause.
pub build_resolvents-Complete :
    (store : ClauseStore) (b : Bounded) (v : Variable) (entry : Occurrences) (rs : List Clause)
    → get_elem? b.occurrences v ≡ some entry
    → build_resolvents store b v ≡ some rs
    → Complete store b v entry rs
unfolding build_resolvents keep_if_none_empty
build_resolvents-Complete store b v entry rs at e =
    elim (Option-cases (resolve_positives store b v entry entry.positive [])) [
      | inl stop ↦ ground arith
      | inr (all, go) ↦ elim (Bool-cases (none_empty all)) [
        | inr refuted ↦ ground arith
        | inl inhabited ↦
            let same : all ≡ rs = ground arith in
            let (x, covers) = resolve_positives_lem store b v entry entry.positive [] all go in
            subst (Complete store b v entry) same (record {
              covers = λ p n wp lp. covers p n wp lp;
              limits = x.limits (tt, inl refl);
              inhabited = none_empty-Entry all inhabited;
            })
      ]
    ]

-- ===== src/Bve/Resolve.antt =====
-- The resolution of two clauses (`bounded::resolve`,
-- source/library/src/kmx/sat/simplify/eliminator/variable/bounded.cpp).
use kmx_sat.Base.{
  ◌≡◌, ap, ap₂, sym, ◌∙◌, subst, ◌⊎◌, inl, inr, true, false, [], ◌∷◌, ◌++◌, arith, append_assoc,
  append-nil, ◌==◌, Bool-cases, Entry, here, there, Entry-append, Entry-append_left,
  Entry-append_right, length, take, drop, take-length-append, drop-length-append,
}
use kmx_sat.Literal.{Variable, Literal, variable_of, negated}
use kmx_sat.Literal.Meaning.{
  Clause, Assignment, literal_true, literal_true-negated, clause_true, clause_true-of_Entry,
  Entry-of_clause_true,
}
use kmx_sat.Reconstruct.Repair.{OnlySign}
use kmx_sat.Bve.{has_raw, append_literals, clashes, any_clash, resolve}

Entry-has_raw : (l : Literal) (c : Clause) → has_raw l.raw c ≡ true → Entry l c
unfolding has_raw
Entry-has_raw l [] h = cc
Entry-has_raw l (k ∷ c) h = elim (Bool-cases (k.raw == l.raw)) [
  | inl e ↦ let same : k ≡ l = ground arith in subst (λ x. Entry x (k ∷ c)) same here
  | inr e ↦ there (Entry-has_raw l c (ground arith))
]

-- What `append` adds stands behind what was there, and comes from the source clause.
pub append_literals-split :
    (v : Variable) (c scratch : Clause)
    → (added : Clause) × (append_literals v c scratch ≡ scratch ++ added)
      × ((l : Literal) → Entry l added → Entry l c × ((variable_of l == v) ≡ false))
unfolding append_literals
append_literals-split v [] scratch = ([], sym (append-nil scratch), λ l e. elim e [ ])
append_literals-split v (l ∷ c) scratch = elim (Bool-cases (variable_of l == v)) [
  | inl over ↦
      let (added, e, from) = append_literals-split v c scratch in
      rw (over, append_literals) (added, e, λ k w. (there (from k w).0, (from k w).1))
  | inr free ↦ elim (Bool-cases (has_raw l.raw scratch)) [
    | inl old ↦
        let (added, e, from) = append_literals-split v c scratch in
        rw (free, old, append_literals) (added, e, λ k w. (there (from k w).0, (from k w).1))
    | inr new ↦
        let (added, e, from) = append_literals-split v c (scratch ++ l ∷ []) in
        rw (free, new, append_literals)
          (l ∷ added, e ∙ append_assoc scratch (l ∷ []) added, added_from l added free from)
  ]
]
  where
    added_from :
        (l : Literal) (added : Clause)
        → (variable_of l == v) ≡ false
        → ((k : Literal) → Entry k added → Entry k c × ((variable_of k == v) ≡ false))
        → (k : Literal) → Entry k (l ∷ added)
        → Entry k (l ∷ c) × ((variable_of k == v) ≡ false)
    added_from l added free from k here = (here, free)
    added_from l added free from k (there w) = (there (from k w).0, (from k w).1)

pub append_literals-kept :
    (v : Variable) (c scratch : Clause) {l : Literal}
    → Entry l scratch
    → Entry l (append_literals v c scratch)
append_literals-kept v c scratch {l} w =
    let (added, e, from) = append_literals-split v c scratch in
    subst (Entry l) (sym e) (Entry-append_left added w)

-- Every literal of the source over another variable is in the result.
pub append_literals-contains :
    (v : Variable) (c scratch : Clause) {l : Literal}
    → (variable_of l == v) ≡ false
    → Entry l c
    → Entry l (append_literals v c scratch)
unfolding append_literals
append_literals-contains v [] scratch free w = elim w [ ]
append_literals-contains v (l ∷ c) scratch free (there w) = append_literals-contains v c _ free w
append_literals-contains v (l ∷ c) scratch free here = elim (Bool-cases (has_raw l.raw scratch)) [
  | inl old ↦
      rw (free, old, append_literals)
        (append_literals-kept v c scratch (Entry-has_raw l scratch old))
  | inr new ↦
      rw (free, new, append_literals)
        (append_literals-kept v c (scratch ++ l ∷ []) (Entry-append_right scratch here))
]

clashes_lem :
    (k : Literal) (right : Clause)
    → clashes k right ≡ true
    → (l : Literal) × Entry l right × (k ≡ negated l)
unfolding clashes
clashes_lem k [] h = cc
clashes_lem k (l ∷ right) h = elim (Bool-cases (k.raw == (negated l).raw)) [
  | inl e ↦ (l, here, ground arith)
  | inr e ↦ let (l', w, s) = clashes_lem k right (ground arith) in (l', there w, s)
]

any_clash_lem :
    (left right : Clause)
    → any_clash left right ≡ true
    → (k : Literal) × (l : Literal) × Entry k left × Entry l right × (k ≡ negated l)
unfolding any_clash
any_clash_lem [] right h = cc
any_clash_lem (k ∷ left) right h = elim (Bool-cases (clashes k right)) [
  | inl e ↦ let (l, w, s) = clashes_lem k right e in (k, l, here, w, s)
  | inr e ↦ let (k', l, v, w, s) = any_clash_lem left right (ground arith) in (k', l, there v, w, s)
]

-- A dropped resolvent has complementary literals, one from each clause.
pub resolve-dropped :
    (positive negative : Clause) (v : Variable)
    → (resolve positive negative v).1 ≡ false
    → (k : Literal) × (l : Literal) × (Entry k positive × ((variable_of k == v) ≡ false))
      × (Entry l negative × ((variable_of l == v) ≡ false))
      × (k ≡ negated l)
unfolding resolve
resolve-dropped positive negative v h =
    let (from_left, el, left_from) = append_literals-split v positive [] in
    let left = append_literals v positive [] in
    let (added, e, from) = append_literals-split v negative left in
    let scratch = append_literals v negative left in
    let lefts : take (length left) scratch ≡ left =
      ap (take (length left)) e ∙ take-length-append left added in
    let rights : drop (length left) scratch ≡ added =
      ap (drop (length left)) e ∙ drop-length-append left added in
    let clash : any_clash left added ≡ true = ground (arith, ap₂ any_clash lefts rights) in
    let (k, l, w, w', s) = any_clash_lem left added clash in
    (k, l, left_from k (subst (Entry k) el w), from l w', s)

-- The resolvent holds exactly the literals of the two clauses over other variables.
pub resolve-from :
    (positive negative : Clause) (v : Variable) {l : Literal}
    → Entry l (resolve positive negative v).0
    → (Entry l positive ⊎ Entry l negative) × ((variable_of l == v) ≡ false)
unfolding resolve
resolve-from positive negative v {l} w =
    let (from_left, el, left_from) = append_literals-split v positive [] in
    let left = append_literals v positive [] in
    let (added, e, from) = append_literals-split v negative left in
    elim (Entry-append left added (subst (Entry l) e w)) [
      | inl a ↦ let f = left_from l (subst (Entry l) el a) in (inl f.0, f.1)
      | inr a ↦ (inr (from l a).0, (from l a).1)
    ]

pub resolve-contains :
    (positive negative : Clause) (v : Variable) {l : Literal}
    → Entry l positive ⊎ Entry l negative
    → (variable_of l == v) ≡ false
    → Entry l (resolve positive negative v).0
unfolding resolve
resolve-contains positive negative v (inl w) free =
    append_literals-kept v negative (append_literals v positive [])
      (append_literals-contains v positive [] free w)
resolve-contains positive negative v (inr w) free =
    append_literals-contains v negative (append_literals v positive []) free w

-- Resolution is sound: where `v` stands only positive in the one clause and only negative in the
-- other, every assignment that makes both true makes the resolvent true; and a resolvent that is
-- dropped is true under every assignment.
pub resolve_sound :
    (positive negative : Clause) (v : Variable) (m : Assignment)
    → OnlySign false v positive
    → OnlySign true v negative
    → (clause_true m positive ≡ true
        → clause_true m negative ≡ true
        → clause_true m (resolve positive negative v).0 ≡ true)
      × ((resolve positive negative v).1 ≡ false
          → clause_true m (resolve positive negative v).0 ≡ true)
resolve_sound positive negative v m op on = (implied, dropped)
  where
    implied :
        clause_true m positive ≡ true
        → clause_true m negative ≡ true
        → clause_true m (resolve positive negative v).0 ≡ true
    implied p n =
        let (k, ek, tk) = Entry-of_clause_true m positive p in
        let (l, el, tl) = Entry-of_clause_true m negative n in
        elim (Bool-cases (variable_of k == v)) [
          | inr free ↦
              clause_true-of_Entry m _ (resolve-contains positive negative v (inl ek) free) tk
          | inl over_k ↦ elim (Bool-cases (variable_of l == v)) [
            | inr free ↦
                clause_true-of_Entry m _ (resolve-contains positive negative v (inr el) free) tl
            | inl over_l ↦ ground (arith, op k ek, on l el)
          ]
        ]

    dropped :
        (resolve positive negative v).1 ≡ false
        → clause_true m (resolve positive negative v).0 ≡ true
    dropped h =
        let (k, l, (ek, fk), (el, fl), s) = resolve-dropped positive negative v h in
        elim (Bool-cases (literal_true m l)) [
          | inl t ↦ clause_true-of_Entry m _ (resolve-contains positive negative v (inr el) fl) t
          | inr f ↦
              clause_true-of_Entry m _ (resolve-contains positive negative v (inl ek) fk)
                (rw s (rw (literal_true-negated m l) (ground arith)))
        ]

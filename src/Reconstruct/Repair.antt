-- ===== src/Reconstruct/Repair.antt =====
-- The repair of an eliminated variable (the case of `bve_elimination` of
-- `apply_extension_record`, source/library/src/kmx/sat/cdcl/model_reconstructor.cpp).
use kmx_sat.Base.{
  ◌≡◌, refl, ◌∙◌, subst, ◌⊎◌, inl, inr, Bool, true, false, List, [], ◌∷◌, arith, ◌==◌, Bool-cases,
  Entry, here, there, All,
}
use kmx_sat.Literal.{Variable, Literal, variable_of, is_negated}
use kmx_sat.Literal.Meaning.{Clause}
use kmx_sat.Reconstruct.{Table, set_value, clause_is_satisfied, set_literals_over, visit_eliminated}
use kmx_sat.Reconstruct.Witness.{fold}
use kmx_sat.Reconstruct.Values.{
  IsTable, is_present, value, set_value-IsTable, value-set_value, is_present-set_value,
  literal_satisfied_lem, clause_is_satisfied-of_Entry, Entry-of_clause_is_satisfied,
}

-- The variable stands in the clause with this sign only.
abbrev pub OnlySign : Bool → Variable → Clause → Type 0
OnlySign s x c = (l : Literal) → Entry l c → variable_of l ≡ x → is_negated l ≡ s

abbrev pub Occurs : Variable → Clause → Type 0
Occurs x c = (l : Literal) × Entry l c × (variable_of l ≡ x)

-- From `t` to `u` nothing changes but that `x` may become true.
pub record Raised (x : Variable) (t u : Table) : Type 0 where
  pub table : IsTable u
  pub kept_value : (v : Variable) → (x == v) ≡ false → value u v ≡ value t v
  pub kept_present : (v : Variable) → (x == v) ≡ false → is_present u v ≡ is_present t v
  pub present : is_present u x ≡ true
  pub higher : value t x ≡ true → value u x ≡ true

pub Raised-refl : {x : Variable} {t : Table} → IsTable t → is_present t x ≡ true → Raised x t t
Raised-refl w p = record {
  table = w;
  kept_value = λ v n. refl;
  kept_present = λ v n. refl;
  present = p;
  higher = λ h. h;
}

pub Raised-trans : {x : Variable} {t u v : Table} → Raised x t u → Raised x u v → Raised x t v
Raised-trans r s = record {
  table = s.table;
  kept_value = λ v n. s.kept_value v n ∙ r.kept_value v n;
  kept_present = λ v n. s.kept_present v n ∙ r.kept_present v n;
  present = s.present;
  higher = λ h. s.higher (r.higher h);
}

set_true-Raised :
    (x : Variable) (t : Table)
    → IsTable t
    → Raised x t (set_value t x true) × (value (set_value t x true) x ≡ true)
set_true-Raised x t w = (
  record {
    table = set_value-IsTable t x true w;
    kept_value = λ v n. ground (arith, value-set_value t x true w v);
    kept_present = λ v n. ground (arith, is_present-set_value t x true w v);
    present = ground (arith, is_present-set_value t x true w x);
    higher = λ h. ground (arith, value-set_value t x true w x);
  },
  ground (arith, value-set_value t x true w x),
)

Occurs-tail :
    (x : Variable) (l : Literal) (c : Clause)
    → (variable_of l == x) ≡ false
    → Occurs x (l ∷ c)
    → Occurs x c
Occurs-tail x l c n (k, here, e) = absurd (ground arith)
Occurs-tail x l c n (k, there w, e) = (k, w, e)

set_literals_over-Raised :
    (x : Variable) (t : Table) (c : Clause)
    → OnlySign false x c
    → IsTable t
    → is_present t x ≡ true
    → Raised x t (set_literals_over x t c) × (Occurs x c → value (set_literals_over x t c) x ≡ true)
unfolding set_literals_over
set_literals_over-Raised x t [] only w p = (Raised-refl w p, λ (l, e, v). elim e [ ])
set_literals_over-Raised x t (l ∷ c) only w p = elim (Bool-cases (variable_of l == x)) [
  | inl same ↦
      let e : variable_of l ≡ x = ground arith in
      let (raised, now) = set_true-Raised x t w in
      let (rest, _) =
        set_literals_over-Raised x (set_value t x true) c (λ k q. only k (there q)) raised.table
          raised.present in
      rw (same, set_literals_over)
        (rw (only l here e, e) (Raised-trans raised rest, λ o. rest.higher now))
  | inr other ↦
      let (rest, occurs) = set_literals_over-Raised x t c (λ k q. only k (there q)) w p in
      rw (other, set_literals_over) (rest, λ o. occurs (Occurs-tail x l c other o))
]

-- A clause with `x` only positive stays satisfied when `x` is raised.
pub Raised-satisfied :
    (x : Variable) (t u : Table) (c : Clause)
    → OnlySign false x c
    → Raised x t u
    → clause_is_satisfied t c ≡ true
    → clause_is_satisfied u c ≡ true
Raised-satisfied x t u c only r h =
    let (l, e, s) = Entry-of_clause_is_satisfied t c h in
    clause_is_satisfied-of_Entry u c e (elim (Bool-cases (x == variable_of l)) [
      | inl same ↦
          let v : variable_of l ≡ x = ground arith in
          let sign = only l e v in
          let now : value t x ≡ true =
            subst (λ y. value t y ≡ true) v (ground (arith, literal_satisfied_lem t l)) in
          rw (literal_satisfied_lem u l, v, r.present, r.higher now, sign) refl
      | inr other ↦ ground (
        arith,
        literal_satisfied_lem t l,
        literal_satisfied_lem u l,
        r.kept_value (variable_of l) other,
        r.kept_present (variable_of l) other,
      )
    ])

satisfied_by_raised :
    (x : Variable) (t : Table) (c : Clause)
    → OnlySign false x c
    → Occurs x c
    → is_present t x ≡ true
    → value t x ≡ true
    → clause_is_satisfied t c ≡ true
satisfied_by_raised x t c only (l, e, v) p h =
    clause_is_satisfied-of_Entry t c e (rw (literal_satisfied_lem t l, v, p, h, only l e v) refl)

visit_eliminated-Raised :
    (x : Variable) (t : Table) (c : Clause)
    → OnlySign false x c
    → Occurs x c
    → IsTable t
    → is_present t x ≡ true
    → Raised x t (visit_eliminated x t c) × (clause_is_satisfied (visit_eliminated x t c) c ≡ true)
unfolding visit_eliminated
visit_eliminated-Raised x t c only occurs w p = elim (Bool-cases (clause_is_satisfied t c)) [
  | inl h ↦ rw (h, visit_eliminated) (Raised-refl w p, h)
  | inr h ↦
      let (raised, now) = set_literals_over-Raised x t c only w p in
      rw (h, visit_eliminated)
        (raised, satisfied_by_raised x _ c only occurs raised.present (now occurs))
]

-- The visits to all the witness clauses.
abbrev pub visit_all : Variable → Table → List Clause → Table
visit_all x t cs = fold (visit_eliminated x) t cs

abbrev pub Witnesses : Variable → List Clause → Type 0
Witnesses x cs = All (λ c. OnlySign false x c × Occurs x c) cs

pub visit_all-Raised :
    (x : Variable) (t : Table) (cs : List Clause)
    → Witnesses x cs
    → IsTable t
    → is_present t x ≡ true
    → Raised x t (visit_all x t cs)
visit_all-Raised x t [] h w p = Raised-refl w p
visit_all-Raised x t (c ∷ cs) h w p =
    let (r, _) = visit_eliminated-Raised x t c h.0.0 h.0.1 w p in
    Raised-trans r (visit_all-Raised x (visit_eliminated x t c) cs h.1 r.table r.present)

pub visit_all-satisfied :
    (x : Variable) (t : Table) (cs : List Clause)
    → Witnesses x cs
    → IsTable t
    → is_present t x ≡ true
    → All (λ c. clause_is_satisfied (visit_all x t cs) c ≡ true) cs
visit_all-satisfied x t [] h w p = tt
visit_all-satisfied x t (c ∷ cs) h w p =
    let (r, s) = visit_eliminated-Raised x t c h.0.0 h.0.1 w p in
    let u = visit_eliminated x t c in
    (
      Raised-satisfied x u (visit_all x u cs) c h.0.0
          (visit_all-Raised x u cs h.1 r.table r.present) s,
      visit_all-satisfied x u cs h.1 r.table r.present,
    )

-- The variable is made true only where some witness clause was not satisfied.
pub visit_all-cause :
    (x : Variable) (t : Table) (cs : List Clause)
    → value (visit_all x t cs) x ≡ true
    → (value t x ≡ true) ⊎ ((c : Clause) × Entry c cs × (clause_is_satisfied t c ≡ false))
unfolding visit_eliminated
visit_all-cause x t [] h = inl h
visit_all-cause x t (c ∷ cs) h = elim (Bool-cases (clause_is_satisfied t c)) [
  | inl s ↦
      let same : visit_eliminated x t c ≡ t = rw (s, visit_eliminated) refl in
      elim (visit_all-cause x t cs (subst (λ u. value (visit_all x u cs) x ≡ true) same h)) [
        | inl v ↦ inl v
        | inr (d, e, f) ↦ inr (d, there e, f)
      ]
  | inr s ↦ inr (c, here, s)
]

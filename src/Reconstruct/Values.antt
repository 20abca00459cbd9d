-- ===== src/Reconstruct/Values.antt =====
-- The table of values of a model reconstruction, as a partial assignment (`set_value` and
-- `clause_is_satisfied` of source/library/src/kmx/sat/cdcl/model_reconstructor.cpp).
use kmx_sat.Base.{
  ℕ, zero, suc, ◌+◌, ◌-◌, ◌≤◌, ◌<◌, ◌≡◌, refl, ap, inl, inr, Bool, true, false, List, [], ◌∷◌, ◌++◌,
  arith, leb, ◌==◌, if◌then◌else◌, differs, Bool-cases, Entry, here, there, length, length-append,
  get_or, set, replicate,
}
use kmx_sat.Literal.{Variable, Literal, variable_of, is_negated}
use kmx_sat.Literal.Meaning.{Clause}
use kmx_sat.Reconstruct.{Table, grow, set_value, literal_satisfied, clause_is_satisfied}

-- The two vectors have one length.
abbrev pub IsTable : Table → Type 0
IsTable t = length t.values ≡ length t.present

abbrev pub is_present : Table → Variable → Bool
is_present t v = get_or t.present v false

abbrev pub value : Table → Variable → Bool
value t v = get_or t.values v false

length-set {ℓ} : {A : Type ℓ} (xs : List A) (i : ℕ) (v : A) → length (set xs i v) ≡ length xs
length-set [] i v = refl
length-set (x ∷ xs) zero v = refl
length-set (x ∷ xs) (suc i) v = ap suc (length-set xs i v)

get_or-set :
    (xs : List Bool) (i j : ℕ) (v : Bool)
    → i < length xs
    → get_or (set xs i v) j false ≡ (if i == j then v else get_or xs j false)
get_or-set [] i j v h = absurd (omega arith)
get_or-set (x ∷ xs) zero zero v h = refl
get_or-set (x ∷ xs) (suc i) (suc j) v h = ground (arith, get_or-set xs i j v)
get_or-set (x ∷ xs) i j v h = ground arith

get_or-replicate : (n j : ℕ) → get_or (replicate n false) j false ≡ false
get_or-replicate zero j = refl
get_or-replicate (suc n) zero = refl
get_or-replicate (suc n) (suc j) = get_or-replicate n j

length-replicate : (n : ℕ) → length (replicate n false) ≡ n
length-replicate zero = refl
length-replicate (suc n) = ap suc (length-replicate n)

-- Growing adds entries that read as the default.
get_or-append_replicate :
    (xs : List Bool) (n j : ℕ) → get_or (xs ++ replicate n false) j false ≡ get_or xs j false
get_or-append_replicate [] n j = get_or-replicate n j
get_or-append_replicate (x ∷ xs) n zero = refl
get_or-append_replicate (x ∷ xs) n (suc j) = get_or-append_replicate xs n j

length-grow : (xs : List Bool) (n : ℕ) → length xs ≤ n → length (grow xs n) ≡ n
length-grow xs n h =
    omega
      (arith, length-append xs (replicate (n - length xs) false), length-replicate (n - length xs))

get_or-beyond : (xs : List Bool) (j : ℕ) → length xs ≤ j → get_or xs j false ≡ false
get_or-beyond [] j h = refl
get_or-beyond (x ∷ xs) zero h = absurd (omega arith)
get_or-beyond (x ∷ xs) (suc j) h = get_or-beyond xs j (omega arith)

module _ (t : Table) (v : Variable) (b : Bool) (w : IsTable t) where
  pub set_value-IsTable : IsTable (set_value t v b)
  unfolding set_value
  set_value-IsTable = elim (Bool-cases (leb (length t.values) v)) [
    | inl outside ↦ ground (
      arith,
      length-set (grow t.values (v + 1)) v b,
      length-set (grow t.present (v + 1)) v true,
      length-grow t.values (v + 1),
      length-grow t.present (v + 1),
    )
    | inr inside ↦ ground (arith, length-set t.values v b, length-set t.present v true)
  ]

  pub value-set_value :
      (j : Variable) → value (set_value t v b) j ≡ (if v == j then b else value t j)
  unfolding set_value
  value-set_value j = elim (Bool-cases (leb (length t.values) v)) [
    | inl outside ↦ ground (
      arith,
      get_or-set (grow t.values (v + 1)) v j b,
      get_or-append_replicate t.values (v + 1 - length t.values) j,
      length-grow t.values (v + 1),
    )
    | inr inside ↦ ground (arith, get_or-set t.values v j b)
  ]

  pub is_present-set_value :
      (j : Variable) → is_present (set_value t v b) j ≡ (if v == j then true else is_present t j)
  unfolding set_value
  is_present-set_value j = elim (Bool-cases (leb (length t.values) v)) [
    | inl outside ↦ ground (
      arith,
      get_or-set (grow t.present (v + 1)) v j true,
      get_or-append_replicate t.present (v + 1 - length t.present) j,
      length-grow t.present (v + 1),
    )
    | inr inside ↦ ground (arith, get_or-set t.present v j true)
  ]

pub literal_satisfied_lem :
    (t : Table) (l : Literal)
    → literal_satisfied t l ≡ (
        if is_present t (variable_of l)
        then differs (value t (variable_of l)) (is_negated l)
        else false)
unfolding literal_satisfied
literal_satisfied_lem t l = ground (arith, get_or-beyond t.present (variable_of l))

-- A clause is satisfied exactly when one of its entries is.
pub clause_is_satisfied-of_Entry :
    (t : Table) {l : Literal} (c : Clause)
    → Entry l c
    → literal_satisfied t l ≡ true
    → clause_is_satisfied t c ≡ true
unfolding clause_is_satisfied
clause_is_satisfied-of_Entry t [] e h = elim e [ ]
clause_is_satisfied-of_Entry t (k ∷ c) here h = ground arith
clause_is_satisfied-of_Entry t (k ∷ c) (there e) h =
    ground (arith, clause_is_satisfied-of_Entry t c e h)

pub Entry-of_clause_is_satisfied :
    (t : Table) (c : Clause)
    → clause_is_satisfied t c ≡ true
    → (l : Literal) × Entry l c × (literal_satisfied t l ≡ true)
unfolding clause_is_satisfied
Entry-of_clause_is_satisfied t [] h = cc
Entry-of_clause_is_satisfied t (l ∷ c) h = elim (Bool-cases (literal_satisfied t l)) [
  | inl e ↦ (l, here, e)
  | inr e ↦ let (k, w, s) = Entry-of_clause_is_satisfied t c (ground arith) in (k, there w, s)
]

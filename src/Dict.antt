-- ===== src/Dict.antt =====
-- `std::unordered_map` with integer keys, as the list of its entries. A key stands in it once;
-- the order of the entries stands for the order, which the library leaves open, of a walk.
use kmx_sat.Base.{
  ℕ, ◌≡◌, refl, subst, inl, inr, Bool-cases, false, Option, none, some, List, [], ◌∷◌, arith, ◌==◌,
  if◌then◌else◌, Entry, here, there,
}

module _ {ℓ} {A : Type ℓ} where
  -- `find`, with `none` for `end()`.
  abbrev pub find : ℕ → List (ℕ × A) → Option A
  find k [] = none
  find k ((j, v) ∷ d) = if j == k then some v else find k d

  -- `d[k] = v`
  abbrev pub insert : ℕ → A → List (ℕ × A) → List (ℕ × A)
  insert k v [] = (k, v) ∷ []
  insert k v ((j, w) ∷ d) = if j == k then (k, v) ∷ d else (j, w) ∷ insert k v d

  -- `erase`
  abbrev pub erase : ℕ → List (ℕ × A) → List (ℕ × A)
  erase k [] = []
  erase k ((j, w) ∷ d) = if j == k then d else (j, w) ∷ erase k d

  -- Keys are unique.
  abbrev pub Fresh : ℕ → List (ℕ × A) → Type ℓ
  Fresh k [] = Unit
  Fresh k ((j, w) ∷ d) = ((j == k) ≡ false) × Fresh k d

  abbrev pub IsMap : List (ℕ × A) → Type ℓ
  IsMap [] = Unit
  IsMap ((j, w) ∷ d) = Fresh j d × IsMap d

  pub find-insert :
      (k j : ℕ) (v : A) (d : List (ℕ × A))
      → find j (insert k v d) ≡ (if k == j then some v else find j d)
  find-insert k j v [] = refl
  find-insert k j v ((i, w) ∷ d) = ground (arith, find-insert k j v d)

  pub find-insert_self : (k : ℕ) (v : A) (d : List (ℕ × A)) → find k (insert k v d) ≡ some v
  find-insert_self k v d = ground (arith, find-insert k k v d)

  -- A found value stands in an entry.
  pub Entry-of_find : (k : ℕ) {v : A} (d : List (ℕ × A)) → find k d ≡ some v → Entry (k, v) d
  Entry-of_find k [] e = cc
  Entry-of_find k {v} ((j, w) ∷ d) e = elim (Bool-cases (j == k)) [
    | inl hit ↦
        let same : ◌≡◌ {A = ℕ × A} (j, w) (k, v) = ground arith in
        subst (λ x. Entry x ((j, w) ∷ d)) same here
    | inr miss ↦ there (Entry-of_find k d (ground arith))
  ]

  pub find-none_of_Fresh : (k : ℕ) (d : List (ℕ × A)) → Fresh k d → find k d ≡ none
  find-none_of_Fresh k [] h = refl
  find-none_of_Fresh k ((j, w) ∷ d) h = ground (arith, find-none_of_Fresh k d h.1)

  -- Where keys are unique, an entry is found.
  pub find-Entry : {k : ℕ} {v : A} (d : List (ℕ × A)) → IsMap d → Entry (k, v) d → find k d ≡ some v
  find-Entry [] h e = elim e [ ]
  find-Entry ((j, w) ∷ d) h here = ground arith
  find-Entry {k} {v} ((j, w) ∷ d) h (there e) =
      ground (arith, find-Entry d h.1 e, find-none_of_Fresh j d h.0)

  pub insert-Fresh :
      (j k : ℕ) (v : A) (d : List (ℕ × A)) → (k == j) ≡ false → Fresh j d → Fresh j (insert k v d)
  insert-Fresh j k v [] n h = (n, tt)
  insert-Fresh j k v ((i, w) ∷ d) n h = ground (arith, insert-Fresh j k v d n h.1)

  pub insert-IsMap : (k : ℕ) (v : A) (d : List (ℕ × A)) → IsMap d → IsMap (insert k v d)
  insert-IsMap k v [] h = (tt, tt)
  insert-IsMap k v ((j, w) ∷ d) h = ground (arith, insert-IsMap k v d h.1, insert-Fresh j k v d)

  pub find-erase :
      (k j : ℕ) (d : List (ℕ × A))
      → IsMap d
      → find j (erase k d) ≡ (if k == j then none else find j d)
  find-erase k j [] h = ground arith
  find-erase k j ((i, w) ∷ d) h = ground (arith, find-erase k j d h.1, find-none_of_Fresh i d h.0)

  pub erase-Fresh : (j k : ℕ) (d : List (ℕ × A)) → Fresh j d → Fresh j (erase k d)
  erase-Fresh j k [] h = tt
  erase-Fresh j k ((i, w) ∷ d) h = ground (arith, erase-Fresh j k d h.1)

  pub erase-IsMap : (k : ℕ) (d : List (ℕ × A)) → IsMap d → IsMap (erase k d)
  erase-IsMap k [] h = tt
  erase-IsMap k ((j, w) ∷ d) h = ground (arith, erase-IsMap k d h.1, erase-Fresh j k d h.0)

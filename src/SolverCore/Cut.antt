-- ===== src/SolverCore/Cut.antt =====
-- A list of literals cut at a place: what stands before it and what stands from it on.
use kmx_sat.Base.{
  ℕ, zero, suc, ◌+◌, ◌≤◌, ◌<◌, ◌≡◌, ◌⊎◌, refl, sym, ap, subst, inl, inr, false, some, List, [], ◌∷◌,
  ◌++◌, arith, ◌==◌, length, get_elem?, get_or, take, drop, Bool-cases, Entry, Entry-cons, here,
  there, Entry-inv, Entry-append, Entry-append_left, Entry-append_right,
}
use mathlib.Core.List.{reverse_aux}
use kmx_sat.Literal.{Variable, Literal, variable_of}
use kmx_sat.Analyzer.Marking.{Distinct, Fresh, Fresh-Entry}

pub take-drop : (n : ℕ) (xs : List Literal) → take n xs ++ drop n xs ≡ xs
take-drop zero xs = refl
take-drop (suc n) [] = refl
take-drop (suc n) (x ∷ xs) = ap (λ (r : List Literal). x ∷ r) (take-drop n xs)

pub take-Entry : (n : ℕ) (xs : List Literal) (l : Literal) → Entry l (take n xs) → Entry l xs
take-Entry n xs l e = subst (Entry l) (take-drop n xs) (Entry-append_left (drop n xs) e)

pub drop-Entry : (n : ℕ) (xs : List Literal) (l : Literal) → Entry l (drop n xs) → Entry l xs
drop-Entry n xs l e = subst (Entry l) (take-drop n xs) (Entry-append_right (take n xs) e)

pub take-or_drop :
    (n : ℕ) (xs : List Literal) (l : Literal)
    → Entry l xs
    → Entry l (take n xs) ⊎ Entry l (drop n xs)
take-or_drop n xs l e =
    Entry-append (take n xs) (drop n xs) (subst (Entry l) (sym (take-drop n xs)) e)

pub length-take : {A : Type 0} (n : ℕ) (xs : List A) → n ≤ length xs → length (take n xs) ≡ n
length-take zero xs h = refl
length-take (suc n) [] h = absurd (omega (arith, h))
length-take (suc n) (x ∷ xs) h = omega (arith, length-take n xs (omega (arith, h)))

pub take-append : (n : ℕ) (xs ys : List Literal) → n ≤ length xs → take n (xs ++ ys) ≡ take n xs
take-append zero xs ys h = refl
take-append (suc n) [] ys h = absurd (omega (arith, h))
take-append (suc n) (x ∷ xs) ys h =
    ap (λ (r : List Literal). x ∷ r) (take-append n xs ys (omega (arith, h)))

pub Fresh-take : (v : Variable) (n : ℕ) (xs : List Literal) → Fresh v xs → Fresh v (take n xs)
Fresh-take v zero xs h = tt
Fresh-take v (suc n) [] h = tt
Fresh-take v (suc n) (x ∷ xs) h = (h.0, Fresh-take v n xs h.1)

pub Distinct-take : (n : ℕ) (xs : List Literal) → Distinct xs → Distinct (take n xs)
Distinct-take zero xs h = tt
Distinct-take (suc n) [] h = tt
Distinct-take (suc n) (x ∷ xs) h = (Fresh-take (variable_of x) n xs h.0, Distinct-take n xs h.1)

-- The literals before a place have other variables than those from it on.
pub cut_apart :
    (n : ℕ) (xs : List Literal) (k l : Literal)
    → Distinct xs
    → Entry k (take n xs)
    → Entry l (drop n xs)
    → (variable_of k == variable_of l) ≡ false
cut_apart zero xs k l d a b = elim a [ ]
cut_apart (suc n) [] k l d a b = elim a [ ]
cut_apart (suc n) (x ∷ xs) k l d a b = elim (Entry-inv a) [
  | inl at ↦
      subst (λ (y : Literal). (variable_of y == variable_of l) ≡ false) at
        (Fresh-Entry (variable_of x) xs l d.0 (drop-Entry n xs l b))
  | inr a ↦ cut_apart n xs k l d.1 a b
]

pub get_elem?-Entry :
    (xs : List Literal) (i : ℕ) (l : Literal) → get_elem? xs i ≡ some l → Entry l xs
get_elem?-Entry [] i l h = cc
get_elem?-Entry (x ∷ xs) zero l h =
    let same : x ≡ l = cc h in subst (λ (y : Literal). Entry y (x ∷ xs)) same here
get_elem?-Entry (x ∷ xs) (suc i) l h = there (get_elem?-Entry xs i l h)

-- A literal before a place stands at its index there too.
pub get_elem?-take :
    (n : ℕ) (xs : List Literal) (i : ℕ) (l : Literal)
    → Distinct xs
    → get_elem? xs i ≡ some l
    → Entry l (take n xs)
    → get_elem? (take n xs) i ≡ some l
get_elem?-take zero xs i l d h e = elim e [ ]
get_elem?-take (suc n) [] i l d h e = elim e [ ]
get_elem?-take (suc n) (x ∷ xs) zero l d h e = h
get_elem?-take (suc n) (x ∷ xs) (suc i) l d h e = elim (Entry-inv e) [
  | inl at ↦
      let n = Fresh-Entry (variable_of x) xs l d.0 (get_elem?-Entry xs i l h) in
      absurd (let same = ap variable_of at in ground arith)
  | inr e ↦ get_elem?-take n xs i l d.1 h e
]

pub take-get_elem? :
    (n : ℕ) (xs : List Literal) (i : ℕ) (l : Literal)
    → get_elem? xs i ≡ some l
    → i < n
    → Entry l (take n xs)
take-get_elem? zero xs i l h lt = absurd (omega (arith, lt))
take-get_elem? (suc n) [] i l h lt = cc
take-get_elem? (suc n) (x ∷ xs) zero l h lt =
    let same : x ≡ l = cc h in subst (λ (y : Literal). Entry y (x ∷ take n xs)) same here
take-get_elem? (suc n) (x ∷ xs) (suc i) l h lt =
    there (take-get_elem? n xs i l h (omega (arith, lt)))

-- The same list backwards.
pub reverse_aux-Entry :
    (xs acc : List Literal) (l : Literal) → Entry l (reverse_aux xs acc) → Entry l xs ⊎ Entry l acc
reverse_aux-Entry [] acc l e = inr e
reverse_aux-Entry (x ∷ xs) acc l e = elim (reverse_aux-Entry xs (x ∷ acc) l e) [
  | inl e ↦ inl (there e)
  | inr e ↦ elim (Entry-inv e) [
    | inl at ↦ inl (subst (λ (y : Literal). Entry y (x ∷ xs)) at here)
    | inr e ↦ inr e
  ]
]

pub Entry-reverse_aux :
    (xs acc : List Literal) (l : Literal) → Entry l xs ⊎ Entry l acc → Entry l (reverse_aux xs acc)
Entry-reverse_aux [] acc l (inl e) = elim e [ ]
Entry-reverse_aux [] acc l (inr e) = e
Entry-reverse_aux (x ∷ xs) acc l (inr e) = Entry-reverse_aux xs (x ∷ acc) l (inr (there e))
Entry-reverse_aux (x ∷ xs) acc l (inl here) = Entry-reverse_aux xs (x ∷ acc) l (inr here)
Entry-reverse_aux (x ∷ xs) acc l (inl (there e)) = Entry-reverse_aux xs (x ∷ acc) l (inl e)

Fresh-of_entries :
    (v : Variable) (xs : List Literal)
    → ((l : Literal) → Entry l xs → (v == variable_of l) ≡ false)
    → Fresh v xs
Fresh-of_entries v [] h = tt
Fresh-of_entries v (x ∷ xs) h = (h x here, Fresh-of_entries v xs (λ l e. h l (there e)))

pub flipped : (a b : ℕ) → (a == b) ≡ false → (b == a) ≡ false
flipped a b h = ground arith

pub reverse_aux-Distinct :
    (xs acc : List Literal)
    → Distinct xs
    → Distinct acc
    → ((k l : Literal) → Entry k xs → Entry l acc → (variable_of k == variable_of l) ≡ false)
    → Distinct (reverse_aux xs acc)
reverse_aux-Distinct [] acc dx da h = da
reverse_aux-Distinct (x ∷ xs) acc dx da h =
    reverse_aux-Distinct xs (x ∷ acc) dx.1
      (Fresh-of_entries (variable_of x) acc (λ l e. h x l here e), da)
      (λ k l e m. elim (Entry-inv m) [
        | inl at ↦
            let n =
              flipped (variable_of x) (variable_of k) (Fresh-Entry (variable_of x) xs k dx.0 e) in
            subst (λ (y : Literal). (variable_of k == variable_of y) ≡ false) at n
        | inr m ↦ h k l (there e) m
      ])

pub reverse_aux-length :
    (xs acc : List Literal) → length (reverse_aux xs acc) ≡ length xs + length acc
reverse_aux-length [] acc = omega arith
reverse_aux-length (x ∷ xs) acc = omega (arith, reverse_aux-length xs (x ∷ acc))

pub Distinct-drop : (n : ℕ) (xs : List Literal) → Distinct xs → Distinct (drop n xs)
Distinct-drop zero xs h = h
Distinct-drop (suc n) [] h = tt
Distinct-drop (suc n) (x ∷ xs) h = Distinct-drop n xs h.1

pub get_elem?-middle :
    (xs : List Literal) (x : Literal) (ys : List Literal)
    → get_elem? (xs ++ x ∷ ys) (length xs) ≡ some x
get_elem?-middle [] x ys = refl
get_elem?-middle (y ∷ xs) x ys = get_elem?-middle xs x ys

-- A variable is that of a literal of the list, or of none.
pub variable_cases :
    (v : Variable) (xs : List Literal)
    → ((l : Literal) × Entry l xs × (v ≡ variable_of l))
      ⊎ ((l : Literal) → Entry l xs → (v == variable_of l) ≡ false)
variable_cases v [] = inr (λ l e. elim e [ ])
variable_cases v (x ∷ xs) = elim (Bool-cases (v == variable_of x)) [
  | inl e ↦ inl (x, here, ground arith)
  | inr n ↦ elim (variable_cases v xs) [
    | inl (l, e, same) ↦ inl (l, there e, same)
    | inr m ↦ inr (Entry-cons (λ l. (v == variable_of l) ≡ false) n m)
  ]
]

pub drop-append :
    (n : ℕ) (xs ys : List Literal) → n ≤ length xs → drop n (xs ++ ys) ≡ drop n xs ++ ys
drop-append zero xs ys h = refl
drop-append (suc n) [] ys h = absurd (omega (arith, h))
drop-append (suc n) (x ∷ xs) ys h = drop-append n xs ys (omega (arith, h))

pub drop-length : (xs : List Literal) → drop (length xs) xs ≡ []
drop-length [] = refl
drop-length (x ∷ xs) = drop-length xs

pub get_or-append :
    {A : Type 0} (xs ys : List A) (i : ℕ) (d : A)
    → i < length xs
    → get_or (xs ++ ys) i d ≡ get_or xs i d
get_or-append [] ys i d h = absurd (omega (arith, h))
get_or-append (x ∷ xs) ys zero d h = refl
get_or-append (x ∷ xs) ys (suc i) d h = get_or-append xs ys i d (omega (arith, h))

pub get_or-last : {A : Type 0} (xs : List A) (x d : A) → get_or (xs ++ x ∷ []) (length xs) d ≡ x
get_or-last [] x d = refl
get_or-last (y ∷ xs) x d = get_or-last xs x d

pub get_or-take :
    {A : Type 0} (n : ℕ) (xs : List A) (i : ℕ) (d : A)
    → i < n
    → get_or (take n xs) i d ≡ get_or xs i d
get_or-take zero xs i d h = absurd (omega (arith, h))
get_or-take (suc n) [] i d h = refl
get_or-take (suc n) (x ∷ xs) zero d h = refl
get_or-take (suc n) (x ∷ xs) (suc i) d h = get_or-take n xs i d (omega (arith, h))

pub get_elem?-lt_some :
    (xs : List Literal) (i : ℕ) → i < length xs → (x : Literal) × (get_elem? xs i ≡ some x)
get_elem?-lt_some [] i h = absurd (omega (arith, h))
get_elem?-lt_some (x ∷ xs) zero h = (x, refl)
get_elem?-lt_some (x ∷ xs) (suc i) h = get_elem?-lt_some xs i (omega (arith, h))

pub drop-get_elem? :
    (n : ℕ) (xs : List Literal) (x : Literal) → get_elem? xs n ≡ some x → Entry x (drop n xs)
drop-get_elem? n [] x h = cc
drop-get_elem? zero (y ∷ xs) x h =
    let same : y ≡ x = cc h in subst (λ (z : Literal). Entry z (y ∷ xs)) same here
drop-get_elem? (suc n) (y ∷ xs) x h = drop-get_elem? n xs x h

pub take-take :
    (m n : ℕ) (xs : List Literal)
    → m ≤ n
    → (k : Literal) → Entry k (take m (take n xs))
    → Entry k (take m xs)
take-take zero n xs h k e = elim e [ ]
take-take (suc m) zero xs h k e = absurd (omega (arith, h))
take-take (suc m) (suc n) [] h k e = e
take-take (suc m) (suc n) (x ∷ xs) h k e = elim (Entry-inv e) [
  | inl at ↦ subst (λ (y : Literal). Entry y (x ∷ take m xs)) at here
  | inr e ↦ there (take-take m n xs (omega (arith, h)) k e)
]

pub drop-take :
    (m n : ℕ) (xs : List Literal) (k : Literal) → Entry k (drop m (take n xs)) → Entry k (drop m xs)
drop-take zero n xs k e = take-Entry n xs k e
drop-take (suc m) zero xs k e = elim e [ ]
drop-take (suc m) (suc n) [] k e = e
drop-take (suc m) (suc n) (x ∷ xs) k e = drop-take m n xs k e

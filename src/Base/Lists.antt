-- ===== src/Base/Lists.antt =====
-- Lists measured and indexed by native numbers, and predicates over the entries of a list.
use Prim.Native.Nat.{ℕ, zero, suc, ◌+◌, compare, Ordering}
use mathlib.Core.Path.{◌≡◌, refl, ap}
use mathlib.Core.List.{List, [], ◌∷◌, ◌++◌}
use mathlib.Core.Logic.{◌⊎◌, inl, inr}
use mathlib.Core.Option.{Option, none, some}
use native.Mathlib.Omega.{arith}

module _ {ℓ} {A : Type ℓ} where
  abbrev pub length : List A → ℕ
  length [] = 0
  length (x ∷ xs) = suc (length xs)

  abbrev pub get_elem? : List A → ℕ → Option A
  get_elem? [] i = none
  get_elem? (x ∷ xs) zero = some x
  get_elem? (x ∷ xs) (suc i) = get_elem? xs i

  abbrev pub get_or : List A → ℕ → A → A
  get_or [] i d = d
  get_or (x ∷ xs) zero d = x
  get_or (x ∷ xs) (suc i) d = get_or xs i d

  -- A write out of bounds changes nothing.
  abbrev pub set : List A → ℕ → A → List A
  set [] i v = []
  set (x ∷ xs) zero v = v ∷ xs
  set (x ∷ xs) (suc i) v = x ∷ set xs i v

  abbrev pub take : ℕ → List A → List A
  take zero xs = []
  take (suc n) [] = []
  take (suc n) (x ∷ xs) = x ∷ take n xs

  abbrev pub drop : ℕ → List A → List A
  drop zero xs = xs
  drop (suc n) [] = []
  drop (suc n) (x ∷ xs) = drop n xs

  abbrev pub replicate : ℕ → A → List A
  replicate zero a = []
  replicate (suc n) a = a ∷ replicate n a

  pub length-append : (xs ys : List A) → length (xs ++ ys) ≡ length xs + length ys
  length-append [] ys = omega arith
  length-append (x ∷ xs) ys = omega (arith, length-append xs ys)

  pub take-length-append : (xs ys : List A) → take (length xs) (xs ++ ys) ≡ xs
  take-length-append [] ys = refl
  take-length-append (x ∷ xs) ys = ap (◌∷◌ x) (take-length-append xs ys)

  pub drop-length-append : (xs ys : List A) → drop (length xs) (xs ++ ys) ≡ ys
  drop-length-append [] ys = refl
  drop-length-append (x ∷ xs) ys = drop-length-append xs ys

  -- The entries of a list, kept as data: a proof may match on where an entry stands.
  pub data Entry (a : A) : List A → Type ℓ where
    here : {xs : List A} → Entry a (a ∷ xs)
    there : {x : A} {xs : List A} → Entry a xs → Entry a (x ∷ xs)

  pub Entry-single : {a b : A} → Entry a (b ∷ []) → a ≡ b
  Entry-single here = refl
  Entry-single (there e) = elim e [ ]

  pub Entry-inv : {a x : A} {xs : List A} → Entry a (x ∷ xs) → (x ≡ a) ⊎ Entry a xs
  Entry-inv here = inl refl
  Entry-inv (there e) = inr e

  pub Entry-append_left : {a : A} {xs : List A} (ys : List A) → Entry a xs → Entry a (xs ++ ys)
  Entry-append_left ys here = here
  Entry-append_left ys (there e) = there (Entry-append_left ys e)

  pub Entry-append_right : {a : A} (xs : List A) {ys : List A} → Entry a ys → Entry a (xs ++ ys)
  Entry-append_right [] e = e
  Entry-append_right (x ∷ xs) e = there (Entry-append_right xs e)

  pub Entry-append : {a : A} (xs ys : List A) → Entry a (xs ++ ys) → Entry a xs ⊎ Entry a ys
  Entry-append [] ys e = inr e
  Entry-append (x ∷ xs) ys here = inl here
  Entry-append (x ∷ xs) ys (there e) = elim (Entry-append xs ys e) [
    | inl l ↦ inl (there l)
    | inr r ↦ inr r
  ]

-- A property of all the entries, from the head's and the tail's.
pub Entry-cons {ℓ κ} :
    {A : Type ℓ} (P : A → Type κ) {x : A} {xs : List A}
    → P x
    → ((a : A) → Entry a xs → P a)
    → (a : A) → Entry a (x ∷ xs)
    → P a
Entry-cons P h t a here = h
Entry-cons P h t a (there e) = t a e

-- A predicate that computes to a tuple, which the tactics read and build.
abbrev pub All {ℓ κ} : {A : Type ℓ} → (A → Type κ) → List A → Type κ
All P [] = Unit
All P (x ∷ xs) = P x × All P xs

pub All-entry {ℓ κ} :
    {A : Type ℓ} (P : A → Type κ) {a : A} (xs : List A) → All P xs → Entry a xs → P a
All-entry P [] h e = elim e [ ]
All-entry P (x ∷ xs) h here = h.0
All-entry P (x ∷ xs) h (there e) = All-entry P xs h.1 e

pub All-of_entries {ℓ κ} :
    {A : Type ℓ} (P : A → Type κ) (xs : List A) → ((a : A) → Entry a xs → P a) → All P xs
All-of_entries P [] h = tt
All-of_entries P (x ∷ xs) h = (h x here, All-of_entries P xs (λ a e. h a (there e)))

pub All-append {ℓ κ} :
    {A : Type ℓ} (P : A → Type κ) (xs ys : List A) → All P xs → All P ys → All P (xs ++ ys)
All-append P [] ys hx hy = hy
All-append P (x ∷ xs) ys hx hy = (hx.0, All-append P xs ys hx.1 hy)

-- `table[i] = v`, for a table given by its entries.
abbrev pub put {ℓ} : {A : Type ℓ} → (ℕ → A) → ℕ → A → ℕ → A
put f i v j = elim (compare i j) [ Ordering.eq ↦ v | _ ↦ f j ]

-- ===== src/Restart/Sequence.antt =====
-- The Luby sequence, the reference for `luby_multiplier`
-- (source/library/src/kmx/sat/cdcl/controller/restart.cpp).
use kmx_sat.Base.{
  ℕ, zero, suc, ◌+◌, ◌-◌, ◌*◌, ◌^◌, ◌≤◌, ◌<◌, ◌≡◌, refl, ap, ◌∙◌, List, [], ◌∷◌, ◌++◌, arith,
  length, length-append, get_or,
}

-- 1, then 1 1 2, then 1 1 2 1 1 2 4: each block is the one before twice and the next power of two.
unfoldable pub luby_sequence : ℕ → List ℕ
luby_sequence zero = 1 ∷ []
luby_sequence (suc k) = luby_sequence k ++ (luby_sequence k ++ 2 ^ suc k ∷ [])

unfoldable pub size_of : ℕ → ℕ
size_of zero = 1
size_of (suc k) = 2 * size_of k + 1

pub length-luby_sequence : (k : ℕ) → length (luby_sequence k) ≡ size_of k
unfolding luby_sequence size_of
length-luby_sequence zero = refl
length-luby_sequence (suc k) =
    let once = luby_sequence k in
    let split : length (luby_sequence (suc k)) ≡ length once + (length once + 1) =
      length-append once (once ++ 2 ^ suc k ∷ [])
      ∙ ap (λ n. length once + n) (length-append once (2 ^ suc k ∷ [])) in
    omega (arith, length-luby_sequence k, split)

get_or-append_left {ℓ} :
    {A : Type ℓ} (xs ys : List A) (i : ℕ) (d : A)
    → i < length xs
    → get_or (xs ++ ys) i d ≡ get_or xs i d
get_or-append_left [] ys i d h = absurd (omega arith)
get_or-append_left (x ∷ xs) ys zero d h = refl
get_or-append_left (x ∷ xs) ys (suc i) d h = get_or-append_left xs ys i d (omega arith)

get_or-append_right {ℓ} :
    {A : Type ℓ} (xs ys : List A) (i : ℕ) (d : A)
    → length xs ≤ i
    → get_or (xs ++ ys) i d ≡ get_or ys (i - length xs) d
get_or-append_right [] ys i d h = ap (λ n. get_or ys n d) (omega arith)
get_or-append_right (x ∷ xs) ys zero d h = absurd (omega arith)
get_or-append_right (x ∷ xs) ys (suc i) d h =
    get_or-append_right xs ys i d (omega arith) ∙ ap (λ n. get_or ys n d) (omega arith)

-- The three parts of a block.
pub luby_first :
    (k i : ℕ) → i < size_of k → get_or (luby_sequence (suc k)) i 0 ≡ get_or (luby_sequence k) i 0
unfolding luby_sequence
luby_first k i h =
    get_or-append_left (luby_sequence k) (luby_sequence k ++ 2 ^ suc k ∷ []) i 0
      (omega (arith, length-luby_sequence k))

luby_later :
    (k i : ℕ)
    → size_of k ≤ i
    → get_or (luby_sequence (suc k)) i 0
      ≡ get_or (luby_sequence k ++ 2 ^ suc k ∷ []) (i - size_of k) 0
unfolding luby_sequence
luby_later k i h =
    let size = length-luby_sequence k in
    get_or-append_right (luby_sequence k) (luby_sequence k ++ 2 ^ suc k ∷ []) i 0
      (omega (arith, size))
    ∙ ap (λ n. get_or (luby_sequence k ++ 2 ^ suc k ∷ []) (i - n) 0) size

pub luby_second :
    (k i : ℕ)
    → size_of k ≤ i
    → i < 2 * size_of k
    → get_or (luby_sequence (suc k)) i 0 ≡ get_or (luby_sequence k) (i - size_of k) 0
luby_second k i low high =
    luby_later k i low
    ∙ get_or-append_left (luby_sequence k) (2 ^ suc k ∷ []) (i - size_of k) 0
        (omega (arith, length-luby_sequence k))

pub luby_last : (k : ℕ) → get_or (luby_sequence (suc k)) (2 * size_of k) 0 ≡ 2 ^ suc k
luby_last k =
    let size = length-luby_sequence k in
    let i = 2 * size_of k - size_of k in
    let end : i - length (luby_sequence k) ≡ 0 = omega (arith, size) in
    luby_later k (2 * size_of k) (omega arith)
    ∙ get_or-append_right (luby_sequence k) (2 ^ suc k ∷ []) i 0 (omega (arith, size))
    ∙ ap (λ n. get_or (2 ^ suc k ∷ []) n 0) end

pub size_of-pos : (k : ℕ) → 0 < size_of k
unfolding size_of
size_of-pos zero = omega arith
size_of-pos (suc k) = omega arith

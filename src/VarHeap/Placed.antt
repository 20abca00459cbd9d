-- ===== src/VarHeap/Placed.antt =====
-- The heap and its table of positions (source/library/src/kmx/sat/cdcl/var_heap.cpp, `place`).
use kmx_sat.Base.{ℕ, ◌<◌, ◌≡◌, Bool, true, false, Option, none, some, arith, ◌==◌, put}
use kmx_sat.Literal.{Variable}

abbrev pub is_held : Option ℕ → Bool
is_held none = false
is_held (some position) = true

-- The table has the place of each entry, and of nothing else.
abbrev pub Placed : (ℕ → Variable) → (Variable → Option ℕ) → ℕ → Type 0
Placed heap positions count =
    ((k : ℕ) → k < count → positions (heap k) ≡ some k)
    × ((v : Variable) (k : ℕ) → positions v ≡ some k → (k < count) × (heap k ≡ v))

-- The entry at `q` moves to `p`, where `index` was, and `index` to `q`.
module _ (heap : ℕ → Variable) (positions : Variable → Option ℕ) (count p q : ℕ) (index : Variable)
    (apart : (p == q) ≡ false) (inside : p < count) (from : q < count)
    (placed : Placed (put heap p index) (put positions index (some p)) count) where
  moved_place : put positions index (some p) (heap q) ≡ some q
  moved_place = let a = placed.0 q from in ground arith

  moved_apart : (index == heap q) ≡ false
  moved_apart = let a = moved_place in ground arith

  pub move-Placed :
      Placed
        (put (put heap p (heap q)) q index)
        (put (put positions (heap q) (some p)) index (some q))
        count
  move-Placed =
      let a = moved_apart in
      (
        λ k below. let b = placed.0 k below in let c = placed.0 q from in ground arith,
        λ v k at. let b = placed.1 v k in let c = placed.0 q from in (ground arith, ground arith),
      )

  pub move-is_held :
      (v : Variable)
      → is_held (put (put positions (heap q) (some p)) index (some q) v)
        ≡ is_held (put positions index (some p) v)
  move-is_held v = let a = moved_apart in let b = moved_place in ground arith

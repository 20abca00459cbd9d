-- ===== src/VarHeap/SiftDown.antt =====
-- Sifting down (source/library/src/kmx/sat/cdcl/var_heap.cpp, `sift_down`): the entry moves away from
-- the root, along the better child, until no child ranks above it.
use kmx_sat.Base.{
  ℕ, zero, suc, ◌+◌, ◌*◌, ◌<◌, ◌≤◌, ◌≡◌, ◌⊎◌, refl, ◌∙◌, Bool, true, false, some, if_cases, arith,
  leb, ◌==◌, put,
}
use kmx_sat.Literal.{Variable}
use kmx_sat.VarHeap.{Scores, VarHeap, parent_of, place, ranks_below, best_child, sink}
use kmx_sat.VarHeap.Order.{IsLinear, ranks_below_asym, ranks_below_split, Ordered, Sifted}
use kmx_sat.VarHeap.Placed.{is_held, Placed, move-Placed, move-is_held}

-- Ordered but between the entry at `p` and its children, which rank at most as high as the parent of
-- `p`.
abbrev pub Falling : (Variable → Variable → Bool) → (ℕ → Variable) → ℕ → ℕ → Type 0
Falling below heap count p =
    ((k : ℕ)
      → 0 < k
      → k < count
      → (parent_of k == p) ≡ false
      → below (heap (parent_of k)) (heap k) ≡ false)
    × ((k : ℕ)
        → 0 < k
        → k < count
        → parent_of k ≡ p
        → 0 < p
        → below (heap (parent_of p)) (heap k) ≡ false)

-- The entry at `c` is the best of the children of `p`.
abbrev pub Best : (Variable → Variable → Bool) → (ℕ → Variable) → ℕ → ℕ → ℕ → Type 0
Best below heap count p c =
    (p < c)
    × (c < count)
    × (parent_of c ≡ p)
    × ((k : ℕ) → 0 < k → k < count → parent_of k ≡ p → below (heap c) (heap k) ≡ false)

module _ (below : Variable → Variable → Bool)
    (asym : (a b : Variable) → below a b ≡ true → below b a ≡ false)
    (split : (a b c : Variable) → below a b ≡ false → below b c ≡ false → below a c ≡ false)
    (heap : ℕ → Variable) (count p : ℕ) (index : Variable) (inside : p < count)
    (falling : Falling below (put heap p index) count p) where
  -- It moves down, past the best child, which ranks above it.
  pub move-Falling :
      (c : ℕ)
      → Best below heap count p c
      → below index (heap c) ≡ true
      → Falling below (put (put heap p (heap c)) c index) count c
  unfolding parent_of
  move-Falling c (past, low, under, best) less =
      let flip = asym index (heap c) less in
      (
        λ k pos in_heap other.
            let a = falling.0 k pos in_heap in
            let b = falling.1 c (omega arith) low under in
            let d = best k pos in_heap in ground arith,
        λ k pos in_heap child high. let a = falling.0 k pos in_heap in ground arith,
      )

  -- It stays, when no child ranks above it.
  pub stay-Ordered :
      ((k : ℕ) → 0 < k → k < count → parent_of k ≡ p → below index (heap k) ≡ false)
      → Ordered below (put heap p index) count
  unfolding parent_of
  stay-Ordered why k pos in_heap =
      let a = falling.0 k pos in_heap in let b = why k pos in_heap in ground arith

module _ {S : Type 0} (order : Scores S) (linear : IsLinear order) where
  best_child-Best :
      (h : VarHeap S) (p : ℕ)
      → 2 * p + 1 < h.count
      → Best (ranks_below order h.scores) h.heap h.count p (best_child order h p)
  unfolding best_child parent_of
  best_child-Best h p some_child =
      let asym = ranks_below_asym order linear h.scores in
      let both = asym (h.heap (2 * p + 1)) (h.heap (2 * p + 2)) in
      let left = asym (h.heap (2 * p + 1)) (h.heap (2 * p + 1)) in
      let right = asym (h.heap (2 * p + 2)) (h.heap (2 * p + 2)) in
      (
        ground arith,
        ground arith,
        ground arith,
        λ k pos in_heap child.
            let which : (k ≡ 2 * p + 1) ⊎ (k ≡ 2 * p + 2) = omega arith in ground arith,
      )

  place-Sifted :
      (h : VarHeap S) (p : ℕ) (index : Variable)
      → p < h.count
      → Placed (put h.heap p index) (put h.positions index (some p)) h.count
      → Falling (ranks_below order h.scores) (put h.heap p index) h.count p
      → ((k : ℕ)
          → 0 < k
          → k < h.count
          → parent_of k ≡ p
          → ranks_below order h.scores index (h.heap k) ≡ false)
      → Sifted order h (λ v. is_held (put h.positions index (some p) v)) (place h p index)
  unfolding place
  place-Sifted h p index inside placed falling why = (
    placed,
    stay-Ordered (ranks_below order h.scores) (ranks_below_asym order linear h.scores)
        (ranks_below_split order linear h.scores) h.heap h.count p index inside falling why,
    refl,
    refl,
    λ v. refl,
  )

  ends :
      (h : VarHeap S) (p : ℕ) (index : Variable)
      → h.count ≤ 2 * p + 1
      → (k : ℕ) → 0 < k
      → k < h.count
      → parent_of k ≡ p
      → ranks_below order h.scores index (h.heap k) ≡ false
  unfolding parent_of
  ends h p index leaf k pos in_heap child = absurd (omega arith)

  -- The loop ends in order, and with the candidates that it began with.
  pub sink-Sifted :
      (n : ℕ) (h : VarHeap S) (p : ℕ) (index : Variable)
      → h.count ≤ n + p
      → p < h.count
      → Placed (put h.heap p index) (put h.positions index (some p)) h.count
      → Falling (ranks_below order h.scores) (put h.heap p index) h.count p
      → Sifted order h (λ v. is_held (put h.positions index (some p) v)) (sink order n h p index)
  unfolding sink place
  sink-Sifted zero h p index enough inside placed falling = absurd (omega arith)
  sink-Sifted (suc n) h p index enough inside placed falling =
      let held = λ (v : Variable). is_held (put h.positions index (some p) v) in
      let c = best_child order h p in
      if_cases (Sifted order h held) (leb h.count (2 * p + 1))
        (λ leaf. place-Sifted h p index inside placed falling (ends h p index (ground arith)))
        (λ inner.
          let best = best_child-Best h p (ground arith) in
          let apart : (p == c) ≡ false = let past = best.0 in ground arith in
          if_cases (Sifted order h held) (ranks_below order h.scores index (h.heap c))
            (λ less.
              let moved =
                move-Falling (ranks_below order h.scores) (ranks_below_asym order linear h.scores)
                  (ranks_below_split order linear h.scores) h.heap h.count p index inside falling c
                  best less in
              let (a, b, d, e, f) =
                sink-Sifted n (place h p (h.heap c)) c index (let past = best.0 in omega arith)
                  best.1
                  (move-Placed h.heap h.positions h.count p c index apart inside best.1 placed)
                  moved in
              (
                a,
                b,
                d,
                e,
                λ v.
                    f v
                    ∙ move-is_held h.heap h.positions h.count p c index apart inside best.1 placed
                        v,
              ))
            (λ fits. place-Sifted h p index inside placed falling (λ k pos in_heap child.
              ranks_below_split order linear h.scores index (h.heap c) (h.heap k) fits
                (best.3 k pos in_heap child))))

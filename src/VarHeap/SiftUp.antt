-- ===== src/VarHeap/SiftUp.antt =====
-- Sifting up (source/library/src/kmx/sat/cdcl/var_heap.cpp, `sift_up`): the entry moves towards the
-- root until its parent ranks at least as high.
use kmx_sat.Base.{
  ℕ, zero, suc, ◌<◌, ◌≤◌, ◌≡◌, ◌⊎◌, inl, inr, refl, ◌∙◌, Bool, true, false, some, if_cases, arith,
  ◌==◌, put,
}
use kmx_sat.Literal.{Variable}
use kmx_sat.VarHeap.{Scores, VarHeap, parent_of, place, ranks_below, climb}
use kmx_sat.VarHeap.Order.{IsLinear, ranks_below_asym, ranks_below_split, Ordered, Sifted}
use kmx_sat.VarHeap.Placed.{is_held, Placed, move-Placed, move-is_held}

-- Ordered but between the entry at `p` and its parent, whose children otherwise rank at most as high
-- as the parent of `p`.
abbrev pub Rising : (Variable → Variable → Bool) → (ℕ → Variable) → ℕ → ℕ → Type 0
Rising below heap count p =
    ((k : ℕ) → 0 < k → k < count → (k == p) ≡ false → below (heap (parent_of k)) (heap k) ≡ false)
    × ((k : ℕ)
        → 0 < k
        → k < count
        → parent_of k ≡ p
        → 0 < p
        → below (heap (parent_of p)) (heap k) ≡ false)

module _ (below : Variable → Variable → Bool)
    (asym : (a b : Variable) → below a b ≡ true → below b a ≡ false)
    (split : (a b c : Variable) → below a b ≡ false → below b c ≡ false → below a c ≡ false)
    (heap : ℕ → Variable) (count p : ℕ) (index : Variable) (inside : p < count)
    (rising : Rising below (put heap p index) count p) where
  -- It moves up, past a parent that ranks below it.
  pub move-Rising :
      0 < p
      → below (heap (parent_of p)) index ≡ true
      → Rising below (put (put heap p (heap (parent_of p))) (parent_of p) index) count (parent_of p)
  unfolding parent_of
  move-Rising up less =
      let flip = asym (heap (parent_of p)) index less in
      (
        λ k pos in_heap other.
            let a = rising.0 k pos in_heap in
            let b = rising.1 k pos in_heap in
            let s = split index (heap (parent_of p)) (heap k) in ground arith,
        λ k pos in_heap child high.
            let a = rising.0 k pos in_heap in
            let c = rising.0 (parent_of p) high (omega arith) in
            let s = split (heap (parent_of (parent_of p))) (heap (parent_of p)) (heap k) in
            ground arith,
      )

  -- It stays, under a parent that does not rank below it.
  pub stay-Ordered :
      (p ≡ 0) ⊎ (below (heap (parent_of p)) index ≡ false) → Ordered below (put heap p index) count
  unfolding parent_of
  stay-Ordered why k pos in_heap = let a = rising.0 k pos in_heap in ground arith

module _ {S : Type 0} (order : Scores S) (linear : IsLinear order) where
  place-Sifted :
      (h : VarHeap S) (p : ℕ) (index : Variable)
      → p < h.count
      → Placed (put h.heap p index) (put h.positions index (some p)) h.count
      → Rising (ranks_below order h.scores) (put h.heap p index) h.count p
      → (p ≡ 0) ⊎ (ranks_below order h.scores (h.heap (parent_of p)) index ≡ false)
      → Sifted order h (λ v. is_held (put h.positions index (some p) v)) (place h p index)
  unfolding place
  place-Sifted h p index inside placed rising why = (
    placed,
    stay-Ordered (ranks_below order h.scores) (ranks_below_asym order linear h.scores)
        (ranks_below_split order linear h.scores) h.heap h.count p index inside rising why,
    refl,
    refl,
    λ v. refl,
  )

  -- The loop ends in order, and with the candidates that it began with.
  pub climb-Sifted :
      (n : ℕ) (h : VarHeap S) (p : ℕ) (index : Variable)
      → p ≤ n
      → p < h.count
      → Placed (put h.heap p index) (put h.positions index (some p)) h.count
      → Rising (ranks_below order h.scores) (put h.heap p index) h.count p
      → Sifted order h (λ v. is_held (put h.positions index (some p) v)) (climb order n h p index)
  unfolding climb place parent_of
  climb-Sifted zero h p index enough inside placed rising =
      place-Sifted h p index inside placed rising (inl (omega arith))
  climb-Sifted (suc n) h p index enough inside placed rising =
      let held = λ (v : Variable). is_held (put h.positions index (some p) v) in
      let from : parent_of p < h.count = omega arith in
      if_cases (Sifted order h held) (p == 0)
        (λ root. place-Sifted h p index inside placed rising (inl (ground arith)))
        (λ high.
          let apart : (p == parent_of p) ≡ false = ground arith in
          if_cases (Sifted order h held) (ranks_below order h.scores (h.heap (parent_of p)) index)
            (λ less.
              let moved =
                move-Rising (ranks_below order h.scores) (ranks_below_asym order linear h.scores)
                  (ranks_below_split order linear h.scores) h.heap h.count p index inside rising
                  (ground arith) less in
              let (a, b, c, d, e) =
                climb-Sifted n (place h p (h.heap (parent_of p))) (parent_of p) index (ground arith)
                  from
                  (move-Placed h.heap h.positions h.count p (parent_of p) index apart inside from
                    placed)
                  moved in
              (
                a,
                b,
                c,
                d,
                λ v.
                    e v
                    ∙ move-is_held h.heap h.positions h.count p (parent_of p) index apart inside
                        from placed v,
              ))
            (λ fits. place-Sifted h p index inside placed rising (inr fits)))

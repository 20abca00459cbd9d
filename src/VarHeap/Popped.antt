-- ===== src/VarHeap/Popped.antt =====
-- The best candidate taken from the heap (source/library/src/kmx/sat/cdcl/var_heap.cpp, `pop`).
use kmx_sat.Base.{
  ℕ, zero, suc, ◌-◌, ◌<◌, ◌≤◌, ◌≡◌, inl, inr, refl, ap, subst, ◌∙◌, true, false, not, ◌&&◌, none,
  some, if_cases, arith, ◌==◌, Option-cases, put,
}
use kmx_sat.Literal.{Variable}
use kmx_sat.VarHeap.{
  Scores, VarHeap, empty, parent_of, contains, ranks_below, sift_down, refill, drop_last, pop,
}
use kmx_sat.VarHeap.Order.{IsLinear, ranks_below_split, ranks_below_asym, Sifted}
use kmx_sat.VarHeap.Placed.{is_held, Placed}
use kmx_sat.VarHeap.SiftDown.{Falling, sink-Sifted}
use kmx_sat.VarHeap.Candidates.{IsHeap, Sifted-IsHeap, contains-is_held}

module _ {S : Type 0} (order : Scores S) (linear : IsLinear order) where
  -- No entry ranks above the first.
  first-best :
      (n : ℕ) (h : VarHeap S) (k : ℕ)
      → IsHeap order h
      → k ≤ n
      → k < h.count
      → ranks_below order h.scores (h.heap 0) (h.heap k) ≡ false
  unfolding parent_of
  first-best zero h k heap enough inside =
      let self = ranks_below_asym order linear h.scores (h.heap 0) (h.heap 0) in ground arith
  first-best (suc n) h k heap enough inside =
      let self = ranks_below_asym order linear h.scores (h.heap 0) (h.heap 0) in
      let a = first-best n h (parent_of k) heap in
      let b = IsHeap.ordered heap k in
      let c =
        ranks_below_split order linear h.scores (h.heap 0) (h.heap (parent_of k)) (h.heap k) in
      ground arith

  dropped-IsHeap : (h : VarHeap S) → IsHeap order h → h.count ≡ 1 → IsHeap order (drop_last h)
  unfolding drop_last
  dropped-IsHeap h heap one =
      let p = IsHeap.placed heap in
      record {
        placed = (
          λ k below. absurd (omega arith),
          λ v k at. let a = p.1 v k in (absurd (ground arith), absurd (ground arith)),
        );
        ordered = λ k pos below. absurd (omega arith);
      }

  refilled-Placed :
      (h : VarHeap S)
      → IsHeap order h
      → 1 < h.count
      → Placed
          (put (put h.heap 0 (h.heap (h.count - 1))) 0 (h.heap (h.count - 1)))
          (put
            (put (put h.positions (h.heap 0) none) (h.heap (h.count - 1)) (some 0))
            (h.heap (h.count - 1))
            (some 0))
          (h.count - 1)
  refilled-Placed h heap more =
      let p = IsHeap.placed heap in
      let first = p.0 0 (omega arith) in
      let last = p.0 (h.count - 1) (omega arith) in
      (
        λ k below. let a = p.0 k (omega arith) in ground arith,
        λ v k at. let a = p.1 v k in (ground arith, ground arith),
      )

  refilled-Falling :
      (h : VarHeap S)
      → IsHeap order h
      → 1 < h.count
      → Falling
          (ranks_below order h.scores)
          (put (put h.heap 0 (h.heap (h.count - 1))) 0 (h.heap (h.count - 1)))
          (h.count - 1)
          0
  unfolding parent_of
  refilled-Falling h heap more = (
    λ k pos in_heap other. let a = IsHeap.ordered heap k pos in ground arith,
    λ k pos in_heap child high. absurd (omega arith),
  )

  pop-Sifted :
      (h : VarHeap S)
      → IsHeap order h
      → 1 < h.count
      → Sifted order
          (drop_last h)
          (λ v. is_held (
            put
              (put (put h.positions (h.heap 0) none) (h.heap (h.count - 1)) (some 0))
              (h.heap (h.count - 1))
              (some 0)
              v))
          (sift_down order (refill (drop_last h) (h.heap (h.count - 1))) 0)
  unfolding sift_down refill drop_last
  pop-Sifted h heap more =
      sink-Sifted order linear (h.count - 1) (refill (drop_last h) (h.heap (h.count - 1))) 0
        (h.heap (h.count - 1)) (omega arith) (omega arith) (refilled-Placed h heap more)
        (refilled-Falling h heap more)

  pop-contains :
      (h : VarHeap S)
      → IsHeap order h
      → 0 < h.count
      → IsHeap order (pop order h).0
        × ((pop order h).0.scores ≡ h.scores)
        × ((v : Variable) → contains (pop order h).0 v ≡ (not (h.heap 0 == v) && contains h v))
  unfolding pop empty drop_last
  pop-contains h heap some_entry =
      if_cases
        (λ (t : VarHeap S).
          IsHeap order t
          × (t.scores ≡ h.scores)
          × ((v : Variable) → contains t v ≡ (not (h.heap 0 == v) && contains h v)))
        (empty (drop_last h))
        (λ last.
          let one : h.count ≡ 1 = ground arith in
          (
            dropped-IsHeap h heap one,
            refl,
            λ v.
                let a = contains-is_held order linear (drop_last h) v in
                let b = contains-is_held order linear h v in
                let c = (IsHeap.placed heap).1 v in
                elim (Option-cases (h.positions v)) [
                  | inl free ↦ ground arith
                  | inr (k, at) ↦ let (below, is) = c k at in ground arith
                ],
          ))
        (λ more.
          let many : 1 < h.count = ground arith in
          let s = pop-Sifted h heap many in
          (
            Sifted-IsHeap order linear (drop_last h) _ _ s,
            s.3,
            λ v.
                let a =
                  contains-is_held order linear
                    (sift_down order (refill (drop_last h) (h.heap (h.count - 1))) 0) v in
                let b = contains-is_held order linear h v in
                let c = s.4 v in
                let first = (IsHeap.placed heap).0 0 (omega arith) in
                let last = (IsHeap.placed heap).0 (h.count - 1) (omega arith) in ground arith,
          ))

  -- From a heap in order that is not empty, `pop` takes a candidate that no candidate ranks above, and
  -- leaves a heap in order of all the others, provided that the comparison of scores is a linear order.
  pub pop-IsHeap :
      (h : VarHeap S)
      → IsHeap order h
      → 0 < h.count
      → IsHeap order (pop order h).0
        × ((v : Variable)
            → contains (pop order h).0 v ≡ (not ((pop order h).1 == v) && contains h v))
        × (contains h (pop order h).1 ≡ true)
        × ((v : Variable)
            → contains h v ≡ true
            → ranks_below order h.scores (pop order h).1 v ≡ false)
  unfolding pop
  pop-IsHeap h heap some_entry =
      let (a, b, c) = pop-contains h heap some_entry in
      let first = (IsHeap.placed heap).0 0 some_entry in
      (
        a,
        c,
        contains-is_held order linear h (h.heap 0) ∙ ap is_held first,
        λ v inside.
            let e = contains-is_held order linear h v in
            elim (Option-cases (h.positions v)) [
              | inl free ↦ absurd (ground arith)
              | inr (k, at) ↦
                  let (below, is) = (IsHeap.placed heap).1 v k at in
                  subst (λ (x : Variable). ranks_below order h.scores (h.heap 0) x ≡ false) is
                    (first-best k h k heap (omega arith) below)
            ],
      )

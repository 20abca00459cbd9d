-- ===== src/VarHeap/Candidates.antt =====
-- The heap as a set of candidates that a variable enters
-- (source/library/src/kmx/sat/cdcl/var_heap.cpp, `push`).
use kmx_sat.Base.{
  ◌+◌, ◌≡◌, inl, inr, refl, subst, Bool, true, false, ◌||◌, none, some, List, [], ◌∷◌, if_cases,
  arith, ◌==◌, Option-cases, if◌then◌else◌, put, Entry, Entry-inv,
}
use kmx_sat.Literal.{Variable, Literal, variable_of}
use kmx_sat.SolverCore.Backjump.{requeue}
use kmx_sat.VarHeap.{
  Scores, VarHeap, parent_of, contains, ranks_below, sift_up, push, branching_heap,
}
use kmx_sat.VarHeap.Order.{IsLinear, Ordered, Sifted}
use kmx_sat.VarHeap.Placed.{is_held, Placed}
use kmx_sat.VarHeap.SiftUp.{Rising, climb-Sifted}

-- The positions are those of the entries, and no entry ranks above its parent.
pub record IsHeap {S : Type 0} (order : Scores S) (h : VarHeap S) : Type 0 where
  pub placed : Placed h.heap h.positions h.count
  pub ordered : Ordered (ranks_below order h.scores) h.heap h.count

module _ {S : Type 0} (order : Scores S) (linear : IsLinear order) where
  pub Sifted-IsHeap :
      (h : VarHeap S) (held : Variable → Bool) (t : VarHeap S)
      → Sifted order h held t
      → IsHeap order t
  Sifted-IsHeap h held t (a, b, c, d, e) = record { placed = rw (c) a; ordered = rw (c, d) b }

  pub contains-is_held : (h : VarHeap S) (v : Variable) → contains h v ≡ is_held (h.positions v)
  unfolding contains
  contains-is_held h v =
      elim (h.positions v) as (λ o. elim o [ none ↦ false | some position ↦ true ] ≡ is_held o) [
        | none ↦ refl
        | some position ↦ refl
      ]

  none_of : (h : VarHeap S) (index : Variable) → contains h index ≡ false → h.positions index ≡ none
  none_of h index fresh =
      let e = contains-is_held h index in
      elim (Option-cases (h.positions index)) [
        | inl free ↦ free
        | inr (k, at) ↦ absurd (ground arith)
      ]

  appended-last : (h : VarHeap S) (index : Variable) → put h.heap h.count index h.count ≡ index
  appended-last h index = ground arith

  appended-Placed :
      (h : VarHeap S) (index : Variable)
      → IsHeap order h
      → h.positions index ≡ none
      → Placed
          (put (put h.heap h.count index) h.count index)
          (put (put h.positions index (some h.count)) index (some h.count))
          (h.count + 1)
  appended-Placed h index heap fresh =
      let p = IsHeap.placed heap in
      (
        λ k below. let a = p.0 k in ground arith,
        λ v k at. let a = p.1 v k in (ground arith, ground arith),
      )

  appended-Rising :
      (h : VarHeap S) (index : Variable)
      → IsHeap order h
      → Rising
          (ranks_below order h.scores)
          (put (put h.heap h.count index) h.count index)
          (h.count + 1)
          h.count
  unfolding parent_of
  appended-Rising h index heap = (
    λ k pos in_heap other. let a = IsHeap.ordered heap k pos in ground arith,
    λ k pos in_heap child high. absurd (omega arith),
  )

  push-Sifted :
      (h : VarHeap S) (index : Variable)
      → IsHeap order h
      → h.positions index ≡ none
      → Sifted order
          (record h { count = h.count + 1 })
          (λ v. is_held (put (put h.positions index (some h.count)) index (some h.count) v))
          (push order h index)
  unfolding push sift_up
  push-Sifted h index heap fresh = rw (appended-last h index) (
      climb-Sifted order linear h.count
        (record h {
          heap = put h.heap h.count index;
          count = h.count + 1;
          positions = put h.positions index (some h.count);
        })
        h.count index (omega arith) (omega arith) (appended-Placed h index heap fresh)
        (appended-Rising h index heap))

  -- Pushing a variable that is no candidate.
  pub push-IsHeap :
      (h : VarHeap S) (index : Variable)
      → IsHeap order h
      → contains h index ≡ false
      → IsHeap order (push order h index)
        × ((push order h index).scores ≡ h.scores)
        × ((v : Variable) → contains (push order h index) v ≡ (index == v || contains h v))
  push-IsHeap h index heap fresh =
      let s = push-Sifted h index heap (none_of h index fresh) in
      (
        Sifted-IsHeap (record h { count = h.count + 1 }) _ _ s,
        s.3,
        λ v.
            let a = contains-is_held (push order h index) v in
            let b = contains-is_held h v in let c = s.4 v in ground arith,
      )

  requeue_one-IsHeap :
      (h : VarHeap S) (v : Variable)
      → IsHeap order h
      → let t = if contains h v then h else push order h v in
        IsHeap order t
        × (contains t v ≡ true)
        × ((w : Variable) → contains h w ≡ true → contains t w ≡ true)
  requeue_one-IsHeap h v heap =
      if_cases
        (λ (t : VarHeap S).
          IsHeap order t
          × (contains t v ≡ true)
          × ((w : Variable) → contains h w ≡ true → contains t w ≡ true))
        (contains h v) (λ inside. (heap, inside, λ w at. at))
        (λ outside.
          let (a, b, c) = push-IsHeap h v heap outside in
          (a, let d = c v in ground arith, λ w at. let d = c w in ground arith))

  -- What backtracking requeues.
  pub requeue-IsHeap :
      (lits : List Literal) (h : VarHeap S)
      → IsHeap order h
      → IsHeap order (requeue (branching_heap order) h lits)
        × ((l : Literal)
            → Entry l lits
            → contains (requeue (branching_heap order) h lits) (variable_of l) ≡ true)
        × ((v : Variable)
            → contains h v ≡ true
            → contains (requeue (branching_heap order) h lits) v ≡ true)
  unfolding requeue branching_heap
  requeue-IsHeap [] h heap = (heap, λ l e. elim e [ ], λ v at. at)
  requeue-IsHeap (lit ∷ lits) h heap =
      let (a, b, c) = requeue_one-IsHeap h (variable_of lit) heap in
      let (d, e, f) =
        requeue-IsHeap lits
          (if contains h (variable_of lit) then h else push order h (variable_of lit)) a in
      (
        d,
        λ l at. elim (Entry-inv at) [
          | inl here_now ↦
              subst
                (λ (x : Literal).
                  contains (requeue (branching_heap order) h (lit ∷ lits)) (variable_of x) ≡ true)
                here_now (f (variable_of lit) b)
          | inr later ↦ e l later
        ],
        λ v at. f v (c v at),
      )

-- ===== src/VarHeap.antt =====
-- The heap of branching candidates (source/library/src/kmx/sat/cdcl/var_heap.cpp and
-- source/library/inc/kmx/sat/cdcl/var_heap.hpp): a binary heap of variables with the place of each,
-- where the best candidate is at place 0. A position `npos` is none. Scores are floating-point
-- numbers, a parameter with their two comparisons; the bumps, which compute with them, are left out.
use kmx_sat.Base.{
  ℕ, zero, suc, ◌+◌, ◌-◌, ◌*◌, ◌/◌, Bool, true, false, ◌&&◌, ◌||◌, Option, none, some, ltb, leb,
  ◌==◌, if◌then◌else◌, put,
}
use kmx_sat.Literal.{Variable}
use kmx_sat.SolverCore.Backjump.{BranchingHeap}
mod Order
mod Placed
mod SiftUp
mod SiftDown
mod Candidates
mod Popped
mod Unwound
mod Tests

-- `<` and `==` on `double`.
pub record Scores (S : Type 0) : Type 0 where
  pub less : S → S → Bool
  pub same : S → S → Bool

-- The first `count` entries of `heap` are the vector `heap_`.
pub record VarHeap (S : Type 0) : Type 0 where
  pub scores : Variable → S
  pub heap : ℕ → Variable
  pub count : ℕ
  pub positions : Variable → Option ℕ

unfoldable pub parent_of : ℕ → ℕ
parent_of position = (position - 1) / 2

module _ {S : Type 0} where
  unfoldable pub empty : VarHeap S → Bool
  empty h = h.count == 0

  unfoldable pub contains : VarHeap S → Variable → Bool
  contains h index = elim (h.positions index) [ none ↦ false | some position ↦ true ]

  unfoldable pub top : VarHeap S → Variable
  top h = h.heap 0

  unfoldable pub place : VarHeap S → ℕ → Variable → VarHeap S
  place h position index = record h {
    heap = put h.heap position index;
    positions = put h.positions index (some position);
  }

  -- The heap after the best is taken out, with the last at its place.
  unfoldable pub refill : VarHeap S → Variable → VarHeap S
  refill h last = record h { heap = put h.heap 0 last; positions = put h.positions last (some 0) }

  unfoldable pub drop_last : VarHeap S → VarHeap S
  drop_last h = record h { count = h.count - 1; positions = put h.positions (h.heap 0) none }

module _ {S : Type 0} (order : Scores S) where
  unfoldable pub ranks_below : (Variable → S) → Variable → Variable → Bool
  ranks_below scores left right =
      Scores.less order (scores left) (scores right)
      || (Scores.same order (scores left) (scores right) && ltb right left)

  -- The loop of `sift_up`, on fuel.
  unfoldable pub climb : ℕ → VarHeap S → ℕ → Variable → VarHeap S
  climb zero h position index = place h position index
  climb (suc n) h position index =
      let parent = h.heap (parent_of position) in
      let rest = climb n (place h position parent) (parent_of position) index in
      if position == 0
      then place h position index
      else (if ranks_below h.scores parent index then rest else place h position index)

  unfoldable pub sift_up : VarHeap S → ℕ → VarHeap S
  sift_up h position = climb position h position (h.heap position)

  -- The place of the child that is compared with `index`.
  unfoldable pub best_child : VarHeap S → ℕ → ℕ
  best_child h position =
      if ltb (2 * position + 2) h.count
        && ranks_below h.scores (h.heap (2 * position + 1)) (h.heap (2 * position + 2))
      then 2 * position + 2
      else 2 * position + 1

  -- The loop of `sift_down`, on fuel.
  unfoldable pub sink : ℕ → VarHeap S → ℕ → Variable → VarHeap S
  sink zero h position index = place h position index
  sink (suc n) h position index =
      let child_position = best_child h position in
      let child = h.heap child_position in
      let rest = sink n (place h position child) child_position index in
      if leb h.count (2 * position + 1)
      then place h position index
      else (if ranks_below h.scores index child then rest else place h position index)

  unfoldable pub sift_down : VarHeap S → ℕ → VarHeap S
  sift_down h position = sink h.count h position (h.heap position)

  unfoldable pub push : VarHeap S → Variable → VarHeap S
  push h index =
      sift_up
        (record h {
          heap = put h.heap h.count index;
          count = h.count + 1;
          positions = put h.positions index (some h.count);
        })
        h.count

  -- Taken from a heap that is not empty.
  unfoldable pub pop : VarHeap S → VarHeap S × Variable
  pop h =
      let rest = drop_last h in
      let last = h.heap (h.count - 1) in
      (if empty rest then rest else sift_down (refill rest last) 0, h.heap 0)

  -- What backtracking takes from the heap.
  unfoldable pub branching_heap : BranchingHeap (VarHeap S)
  branching_heap = record { contains = contains; push = push }
